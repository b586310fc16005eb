-- ===== src/Ni/Session.antt =====
-- gps/libloc/libloc_api/loc_eng_ni.cpp: the thread that waits for an answer, and how its sections, the
-- requests of the modem and the responses of the user follow each other.
use android_device_generic_m.Base.{
  ℕ, ◌≡◌, refl, sym, ◌∙◌, Bool, true, false, Option, none, some, List, [], ◌∷◌, ◌++◌, inl, inr,
  Bool-cases,
}
use android_device_generic_m.Ni.{
  NotifyVerify, privacy_override, NiRequest, UserResponse, Notification, Sizes, NiData, NiEffect,
  muted, thread_created, notified, responded, mutes, expect, ask, loc_eng_ni_callback,
  loc_eng_ni_respond, thread_answer, thread_clear, loc_eng_ni_init,
}
use android_device_generic_m.Ni.Requests.{respond_same, callback_busy, callback_free}

-- Where the thread of a request is: it waits for an answer, or it has answered and has not yet taken
-- loc_ni_lock. `gone` is before it is created and after its end.
pub data NiThread : Type 0 where
  gone waiting closing : NiThread

pub record NiSystem : Type 0 where
  pub ni : NiData
  pub thread : NiThread

abbrev pub created_by : NiThread → List NiEffect → NiThread
created_by t [] = t
created_by t (thread_created r ∷ es) = waiting
created_by t (muted ∷ es) = created_by t es
created_by t (notified n ∷ es) = created_by t es
created_by t (responded a r ∷ es) = created_by t es

-- One section of a thread. The deferred thread brings a request, a thread of the framework a response, and
-- the thread of a request wakes up, runs out of time, and clears the session. loc_eng_ni_init comes while no
-- such thread is there: during one it would leave the request open behind a session that is not.
pub data NiStep : NiSystem → List NiEffect → NiSystem → Type 0 where
  asks :
      (s : NiSystem) (z : Sizes) (rand : ℕ) (created notify_cb : Bool) (r : NiRequest)
      → NiStep s (loc_eng_ni_callback z rand created notify_cb r s.ni).1 (record {
        ni = (loc_eng_ni_callback z rand created notify_cb r s.ni).0;
        thread = created_by s.thread (loc_eng_ni_callback z rand created notify_cb r s.ni).1;
      })
  answers :
      (s : NiSystem) (notif_id : ℕ) (r : UserResponse)
      → NiStep s [] (record s { ni = loc_eng_ni_respond notif_id r s.ni })
  wakes :
      (d : NiData)
      → d.user_response_received ≡ true
      → NiStep
          (record { ni = d; thread = waiting })
          (thread_answer false d).1
          (record { ni = (thread_answer false d).0; thread = closing })
  expires :
      (d : NiData)
      → NiStep
          (record { ni = d; thread = waiting })
          (thread_answer true d).1
          (record { ni = (thread_answer true d).0; thread = closing })
  inits :
      (d : NiData)
      → NiStep
          (record { ni = d; thread = gone })
          []
          (record { ni = loc_eng_ni_init d; thread = gone })
  clears :
      (d : NiData)
      → NiStep
          (record { ni = d; thread = closing })
          []
          (record { ni = thread_clear d; thread = gone })

-- Sections one after the other, with all that they do.
pub data NiRun : NiSystem → List NiEffect → NiSystem → Type 0 where
  here : {s : NiSystem} → NiRun s [] s
  next :
      {s t u : NiSystem} {es fs : List NiEffect}
      → NiStep s es t
      → NiRun t fs u
      → NiRun s (es ++ fs) u

-- The request that waits for an answer: from `o` before to `o'` after these effects. A thread is created
-- only where none waits, and the answer passes back the request that waited.
abbrev pub Turns : (o o' : Option NiRequest) → List NiEffect → Type 0
Turns o o' [] = o ≡ o'
Turns o o' (muted ∷ es) = Turns o o' es
Turns o o' (notified n ∷ es) = Turns o o' es
Turns o o' (thread_created r ∷ es) = (o ≡ none) × Turns (some r) o' es
Turns o o' (responded a r ∷ es) = ((q : NiRequest) × (o ≡ some q) × (r ≡ some q)) × Turns none o' es

abbrev pub waiting_for : NiThread → Option NiRequest → Option NiRequest
waiting_for waiting r = r
waiting_for gone r = none
waiting_for closing r = none

abbrev pub open_request : NiSystem → Option NiRequest
open_request s = waiting_for s.thread s.ni.loc_ni_request

-- A thread is there only while a notification is in progress, and has a request saved.
abbrev pub Live : NiThread → NiData → Type 0
Live gone d = Unit
Live waiting d = (d.notif_in_progress ≡ true) × ((r : NiRequest) × (d.loc_ni_request ≡ some r))
Live closing d = d.notif_in_progress ≡ true

pub record NiSound (s : NiSystem) : Type 0 where
  pub live : Live s.thread s.ni
  pub free : s.ni.locked ≡ false

Turns-append :
    (o p q : Option NiRequest) (es fs : List NiEffect)
    → Turns o p es
    → Turns p q fs
    → Turns o q (es ++ fs)
Turns-append o p q [] fs t u = rw t u
Turns-append o p q (muted ∷ es) fs t u = Turns-append o p q es fs t u
Turns-append o p q (notified n ∷ es) fs t u = Turns-append o p q es fs t u
Turns-append o p q (thread_created r ∷ es) fs (e, t) u = (e, Turns-append (some r) p q es fs t u)
Turns-append o p q (responded a r ∷ es) fs (e, t) u = (e, Turns-append none p q es fs t u)

-- What one section does to a sound system.
abbrev Keeps : NiSystem → List NiEffect → NiSystem → Type 0
Keeps s es t = NiSound t × Turns (open_request s) (open_request t) es

-- To mute the session matters neither to the thread nor to the turns.
mutes-Keeps :
    (p : NotifyVerify) (s : NiSystem) (d : NiData) (es : List NiEffect)
    → Keeps s es (record { ni = d; thread = created_by s.thread es })
    → Keeps s (mutes p ++ es) (record { ni = d; thread = created_by s.thread (mutes p ++ es) })
mutes-Keeps privacy_override s d es k = k
mutes-Keeps p s d es k = k

-- What a request leaves behind that is asked of the user while no thread is there.
ask-Keeps :
    (created notify_cb : Bool) (rand : ℕ) (r : NiRequest) (n : Notification) (d : NiData)
    → d.locked ≡ false
    → Keeps
        (record { ni = d; thread = gone })
        (ask created notify_cb r (some n) (expect rand r d)).1
        (record {
          ni = (ask created notify_cb r (some n) (expect rand r d)).0;
          thread = created_by gone (ask created notify_cb r (some n) (expect rand r d)).1;
        })
ask-Keeps true true rand r n d f =
    mutes-Keeps r.notification_priv_type (record { ni = d; thread = gone }) _
      (thread_created r ∷ notified n ∷ [])
      (record { live = (refl, (r, refl)); free = f }, (refl, refl))
ask-Keeps true false rand r n d f =
    mutes-Keeps r.notification_priv_type (record { ni = d; thread = gone }) _
      (thread_created r ∷ []) (record { live = (refl, (r, refl)); free = f }, (refl, refl))
ask-Keeps false true rand r n d f =
    mutes-Keeps r.notification_priv_type (record { ni = d; thread = gone }) _ (notified n ∷ [])
      (record { live = tt; free = f }, refl)
ask-Keeps false false rand r n d f =
    mutes-Keeps r.notification_priv_type (record { ni = d; thread = gone }) _ ([])
      (record { live = tt; free = f }, refl)

asks-Keeps :
    (t : NiThread) (d : NiData) (z : Sizes) (rand : ℕ) (created notify_cb : Bool) (r : NiRequest)
    → Live t d
    → d.locked ≡ false
    → Keeps
        (record { ni = d; thread = t })
        (loc_eng_ni_callback z rand created notify_cb r d).1
        (record {
          ni = (loc_eng_ni_callback z rand created notify_cb r d).0;
          thread = created_by t (loc_eng_ni_callback z rand created notify_cb r d).1;
        })
asks-Keeps waiting d z rand created notify_cb r (busy, q) f =
    rw (callback_busy z rand created notify_cb r d busy)
      ((record { live = (busy, q); free = f }, refl))
asks-Keeps closing d z rand created notify_cb r busy f =
    rw (callback_busy z rand created notify_cb r d busy) ((record { live = busy; free = f }, refl))
asks-Keeps gone d z rand created notify_cb r l f = elim (Bool-cases d.notif_in_progress) [
  | inl busy ↦
      rw (callback_busy z rand created notify_cb r d busy) ((record { live = tt; free = f }, refl))
  | inr idle ↦ elim (callback_free z rand created notify_cb r d idle) [
    | inl same ↦ rw same ((record { live = tt; free = f }, refl))
    | inr (n, e) ↦ rw e (ask-Keeps created notify_cb rand r n d f)
  ]
]

answers-Keeps :
    (t : NiThread) (d : NiData) (id : ℕ) (r : UserResponse)
    → Live t d
    → d.locked ≡ false
    → Keeps
        (record { ni = d; thread = t })
        []
        (record { ni = loc_eng_ni_respond id r d; thread = t })
answers-Keeps gone d id r l f =
    let (p, q, o) = respond_same id r d in (record { live = tt; free = o ∙ f }, refl)
answers-Keeps waiting d id r (b, (r0, e)) f =
    let (p, q, o) = respond_same id r d in
    (record { live = (p ∙ b, (r0, q ∙ e)); free = o ∙ f }, sym q)
answers-Keeps closing d id r b f =
    let (p, q, o) = respond_same id r d in (record { live = p ∙ b; free = o ∙ f }, refl)

step-Keeps : {s t : NiSystem} {es : List NiEffect} → NiStep s es t → NiSound s → Keeps s es t
unfolding thread_answer thread_clear loc_eng_ni_init
step-Keeps (asks s z rand created notify_cb r) k =
    asks-Keeps s.thread s.ni z rand created notify_cb r k.live k.free
step-Keeps (answers s id r) k = answers-Keeps s.thread s.ni id r k.live k.free
step-Keeps (wakes d h) k =
    (record { live = k.live.0; free = k.free }, ((k.live.1.0, k.live.1.1, k.live.1.1), refl))
step-Keeps (expires d) k =
    (record { live = k.live.0; free = k.free }, ((k.live.1.0, k.live.1.1, k.live.1.1), refl))
step-Keeps (inits d) k = (record { live = tt; free = k.free }, refl)
step-Keeps (clears d) k = (record { live = tt; free = k.free }, refl)

-- In any run from a sound state, in which the interface is initialised again only while no thread of a
-- request is there, threads are created and answers sent in turn: a thread is created only
-- where no request waits for an answer, and every answer passes back the request that waits. Afterwards
-- there is a thread only while a notification is in progress, and nobody has kept the lock.
pub Run-NiSound :
    {s t : NiSystem} {es : List NiEffect}
    → NiRun s es t
    → NiSound s
    → NiSound t × Turns (open_request s) (open_request t) es
Run-NiSound here k = (k, refl)
Run-NiSound {s = s} {t = u} (next {t = t} {es = es} {fs = fs} step run) k =
    let (l, a) = step-Keeps step k in
    let (m, b) = Run-NiSound run l in
    (m, Turns-append (open_request s) (open_request t) (open_request u) es fs a b)
