-- ===== src/Ni/Answers.antt =====
-- gps/libloc/libloc_api/loc_eng_ni.cpp: whose answer the modem is given.
use android_device_generic_m.Base.{
  ℕ, ◌≡◌, ◌≢◌, refl, ap, ◌∙◌, Bool, true, false, ◌&&◌, some, [], ◌∷◌, ==_refl, ne→not_eq,
  if◌then◌else◌,
}
use android_device_generic_m.Ni.{
  NiEvent, vx, umts_cp, supl, other_request, NiRequest, UserResp, accept, deny, noresp,
  UserResponse, response_accept, response_deny, response_noresp, Sizes, NiData, responded, expect,
  ask, fill_notif, take_response, loc_ni_request_handler, loc_eng_ni_callback,
  loc_ni_process_user_response, loc_eng_ni_respond, is_current, for_kind, thread_answer,
  thread_clear,
}

-- What each response of the user says to the modem.
pub data Means : UserResponse → UserResp → Type 0 where
  accepts : Means response_accept accept
  denies : Means response_deny deny
  declines : Means response_noresp noresp

abbrev pub IsKnown : NiEvent → Type 0
IsKnown other_request = ⊥
IsKnown k = Unit

-- The data once a request of a known kind is asked of the user.
abbrev pub asked_data : (rand : ℕ) → NiRequest → NiData → NiData
asked_data rand r d = record d {
  loc_ni_request = some r;
  notif_in_progress = true;
  current_notif_id = some rand;
  response_time_left = 25;
}

known_asked :
    (k : NiEvent) (z : Sizes) (rand : ℕ) (created notify_cb : Bool) (r : NiRequest) (d : NiData)
    → IsKnown k
    → (for_kind k (ask created notify_cb r (fill_notif z rand k r) (expect rand r d)) d).0
      ≡ asked_data rand r d
unfolding fill_notif
known_asked other_request z rand created notify_cb r d h = absurd h
known_asked vx z rand created notify_cb r d h = refl
known_asked umts_cp z rand created notify_cb r d h = refl
known_asked supl z rand created notify_cb r d h = refl

pub callback-asked :
    (z : Sizes) (rand : ℕ) (created notify_cb : Bool) (r : NiRequest) (d : NiData)
    → IsKnown r.event
    → d.notif_in_progress ≡ false
    → (loc_eng_ni_callback z rand created notify_cb r d).0 ≡ asked_data rand r d
unfolding loc_eng_ni_callback loc_ni_request_handler
callback-asked z rand created notify_cb r d k h =
    let asked = ask created notify_cb r (fill_notif z rand r.event r) (expect rand r d) in
    ap (λ b. (for_kind r.event (if b then (d, []) else asked) d).0) h
    ∙ known_asked r.event z rand created notify_cb r d k

process-Means :
    {u : UserResponse} {v : UserResp} (d : NiData)
    → Means u v
    → loc_ni_process_user_response u d ≡ take_response v d
unfolding loc_ni_process_user_response
process-Means d accepts = refl
process-Means d denies = refl
process-Means d declines = refl

-- A response to the notification in progress is taken.
respond-current :
    {u : UserResponse} {v : UserResp} (id : ℕ) (d : NiData)
    → Means u v
    → d.current_notif_id ≡ some id
    → d.notif_in_progress ≡ true
    → loc_eng_ni_respond id u d ≡ take_response v d
unfolding loc_eng_ni_respond
respond-current {u} id d m c h = rw (c, h, ==_refl id) (process-Means _ m)

respond-other :
    (id rand : ℕ) (u : UserResponse) (d : NiData)
    → id ≢ rand
    → d.current_notif_id ≡ some rand
    → loc_eng_ni_respond id u d ≡ d
unfolding loc_eng_ni_respond
respond-other id rand u d n c =
    let e : is_current id d.current_notif_id ≡ false = ap (is_current id) c ∙ ne→not_eq n in
    ap (λ b. if b && d.notif_in_progress then loc_ni_process_user_response u d else d) e

asked_answer :
    {u : UserResponse} {v : UserResp} (rand : ℕ) (r : NiRequest) (d : NiData)
    → Means u v
    → loc_eng_ni_respond rand u (asked_data rand r d) ≡ take_response v (asked_data rand r d)
asked_answer rand r d m = respond-current rand (asked_data rand r d) m refl refl

-- A request of a known kind that comes while none is in progress and no response is left over is not
-- answered at once. If the time runs out the modem is told that there was no response to this request. A
-- response with another id changes nothing, and after one with its id the modem is given just that answer
-- to this request.
pub own_answer :
    {u : UserResponse} {v : UserResp} (z : Sizes) (rand other : ℕ) (created notify_cb : Bool)
    → (r : NiRequest) (w : UserResponse) (d : NiData) → Means u v
    → IsKnown r.event
    → d.notif_in_progress ≡ false
    → d.user_response_received ≡ false
    → other ≢ rand
    → let asked = (loc_eng_ni_callback z rand created notify_cb r d).0 in
      (asked.user_response_received ≡ false)
      × ((thread_answer true asked).1 ≡ responded noresp (some r) ∷ [])
      × (loc_eng_ni_respond other w asked ≡ asked)
      × ((loc_eng_ni_respond rand u asked).user_response_received ≡ true)
      × ((thread_answer false (loc_eng_ni_respond rand u asked)).1 ≡ responded v (some r) ∷ [])
unfolding thread_answer
own_answer {u} {v} z rand other created notify_cb r w d m k idle fresh n =
    let a = asked_answer rand r d m in
    rw (callback-asked z rand created notify_cb r d k idle) (
      fresh,
      refl,
      respond-other other rand w (asked_data rand r d) n refl,
      ap (λ (e : NiData). e.user_response_received) a,
      ap (λ (e : NiData). (thread_answer false e).1) a,
    )

-- Where the time of a request runs out and the user responds before its thread has cleared the session,
-- the response is kept: the next request finds it, does not wait for its own user, and the modem is given
-- the answer that was meant for the first request as the answer to the second.
pub stale_answer :
    {u : UserResponse} {v : UserResp} (z : Sizes) (rand rand' : ℕ) (created notify_cb : Bool)
    → (r r' : NiRequest) (d : NiData) → Means u v
    → IsKnown r.event
    → IsKnown r'.event
    → d.notif_in_progress ≡ false
    → let asked = (loc_eng_ni_callback z rand created notify_cb r d).0 in
      let late = loc_eng_ni_respond rand u (thread_answer true asked).0 in
      let next = (loc_eng_ni_callback z rand' created notify_cb r' (thread_clear late)).0 in
      (next.current_notif_id ≡ some rand')
      × (next.user_response_received ≡ true)
      × ((thread_answer false next).1 ≡ responded v (some r') ∷ [])
unfolding thread_answer thread_clear
stale_answer {u} {v} z rand rand' created notify_cb r r' d m k k' idle =
    let late = λ (e : NiData). loc_eng_ni_respond rand u (thread_answer true e).0 in
    let timed : NiData = record d {
      loc_ni_request = some r;
      notif_in_progress = true;
      current_notif_id = some rand;
      response_time_left = 25;
      resp = noresp;
      user_response_received = false;
    } in
    let a : late (loc_eng_ni_callback z rand created notify_cb r d).0 ≡ take_response v timed =
      ap late (callback-asked z rand created notify_cb r d k idle)
      ∙ respond-current rand timed m refl refl in
    let b =
      ap (λ (e : NiData). (loc_eng_ni_callback z rand' created notify_cb r' (thread_clear e)).0) a
      ∙ callback-asked z rand' created notify_cb r' (thread_clear (take_response v timed)) k'
          refl in
    (
      ap (λ (e : NiData). e.current_notif_id) b,
      ap (λ (e : NiData). e.user_response_received) b,
      ap (λ (e : NiData). (thread_answer false e).1) b,
    )
