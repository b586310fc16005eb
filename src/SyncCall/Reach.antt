-- ===== src/SyncCall/Reach.antt =====
-- gps/libloc/libloc_api-rpc/src/loc_api_sync_call.c: every way in which the threads change the slots,
-- and the flag in_use along them.
use mathlib.Core.Bool.{true≢false}
use android_device_generic_m.Base.{
  ℕ, zero, suc, ◌≡◌, refl, sym, ap, ◌∙◌, Bool, Bool-cases, inl, inr, true, false, not, ◌⊎◌, ◌||◌,
  List, [], ◌∷◌, ◌++◌, length, get_or, set, ltb, if◌then◌else◌,
}
use android_device_generic_m.SyncCall.{
  Payload, Slot, Entry, SyncData, any_used, unused, set_use, clear_all, wants, loc_alloc_slot,
  loc_free_slot, loc_api_sync_call_init, loc_api_callback_process_sync_call,
}
use android_device_generic_m.SyncCall.Calls.{
  entry_at, put_slot, selected_slot, wait_begin, wait_end, WaitStart, answered, asleep,
}
use android_device_generic_m.SyncCall.Scan.{
  IsSound, Passes, taken, any_used-at, wants-in_use, callback_taken, callback_ignored, or_true,
}
use android_device_generic_m.SyncCall.Slots.{AllUsed, alloc_first, alloc_full}

abbrev pub started : WaitStart → SyncData
started (answered code saved d) = d
started (asleep d) = d

-- What one thread does under a lock.
pub data Step (d : SyncData) : SyncData → Type 0 where
  callback : (h ev : ℕ) (p : Payload) → Step d (loc_api_callback_process_sync_call h ev p d).0
  alloc : Step d (loc_alloc_slot d).1
  fill : (i h mask t : ℕ) → Step d (put_slot i (selected_slot h mask t (entry_at d i).slot) d)
  begin : (cb io : Bool) (i : ℕ) → Step d (started (wait_begin cb io i d))
  finish : (cb io timed_out : Bool) (i : ℕ) → Step d (wait_end cb io timed_out i d).2
  release : (i : ℕ) → Step d (loc_free_slot i d)

pub data Reached : SyncData → Type 0 where
  initial : (d : SyncData) → Reached (loc_api_sync_call_init d)
  next : (d : SyncData) {d' : SyncData} → Reached d → Step d d' → Reached d'

any_unset : (i : ℕ) (es : List Entry) → any_used (set_use false i es) ≡ true → any_used es ≡ true
unfolding any_used
any_unset i [] h = h
any_unset zero (e ∷ es) h = simp (h, or_true e.slot_in_use)
any_unset (suc i) (e ∷ es) h = elim (Bool-cases e.slot_in_use) [
  | inl y ↦ simp y
  | inr n ↦ simp n (any_unset i es (simp n at h))
]

free-IsSound : (i : ℕ) (d : SyncData) → IsSound d → IsSound (loc_free_slot i d)
unfolding loc_free_slot
free-IsSound i d s =
    let es = set_use false i d.entries in
    elim (Bool-cases (any_used es)) [
      | inl y ↦ simp (y, s, any_unset i d.entries y)
      | inr n ↦ simp n
    ]

any_used-put :
    (i : ℕ) (t : Slot) (es : List Entry)
    → any_used es ≡ any_used (set es i (record (get_or es i unused) { slot = t }))
unfolding any_used
any_used-put i t [] = refl
any_used-put zero t (e ∷ es) = refl
any_used-put (suc i) t (e ∷ es) = ap (λ b. e.slot_in_use || b) (any_used-put i t es)

put_slot-IsSound : (i : ℕ) (t : Slot) (d : SyncData) → IsSound d → IsSound (put_slot i t d)
put_slot-IsSound i t d s = s ∙ any_used-put i t d.entries

-- A first slot with the answer true, behind slots with false.
first_split :
    (test : Entry → Bool) (P : List Entry → Type 0)
    → P []
    → ((e : Entry) (es : List Entry) → test e ≡ false → P es → P (e ∷ es))
    → (es : List Entry)
    → P es
      ⊎ ((xs : List Entry) × (e : Entry) × (ys : List Entry) × (es ≡ xs ++ e ∷ ys)
          × P xs
          × (test e ≡ true))
first_split test P nil cons [] = inl nil
first_split test P nil cons (e ∷ es) = elim (Bool-cases (test e)) [
  | inl y ↦ inr ([], e, es, refl, nil, y)
  | inr n ↦ elim (first_split test P nil cons es) [
    | inl p ↦ inl (cons e es n p)
    | inr (xs, f, ys, at, p, y) ↦ inr (e ∷ xs, f, ys, ap (λ l. e ∷ l) at, cons e xs n p, y)
  ]
]

not-false : (b : Bool) → not b ≡ false → b ≡ true
not-false true h = refl
not-false false h = absurd (true≢false h)

not-true : (b : Bool) → not b ≡ true → b ≡ false
not-true true h = absurd (true≢false (sym h))
not-true false h = refl

alloc-IsSound : (d : SyncData) → IsSound d → IsSound (loc_alloc_slot d).1
alloc-IsSound d s =
    elim (first_split (λ e. not e.slot_in_use) AllUsed tt
      (λ e es n p. (not-false e.slot_in_use n, p)) d.entries) [
        | inl full ↦ simp (alloc_full d full) s
        | inr (xs, e, ys, at, k, y) ↦
            simp (alloc_first d xs e ys at k (not-true e.slot_in_use y))
              (sym (any_used-at xs (record e { slot_in_use = true }) ys refl))
      ]

none_used : (es : List Entry) → false ≡ any_used (clear_all es)
unfolding any_used
none_used [] = refl
none_used (e ∷ es) = none_used es

init-IsSound : (d : SyncData) → IsSound (loc_api_sync_call_init d)
unfolding loc_api_sync_call_init
init-IsSound d = none_used d.entries

callback-IsSound :
    (h ev : ℕ) (p : Payload) (d : SyncData)
    → IsSound d
    → IsSound (loc_api_callback_process_sync_call h ev p d).0
callback-IsSound h ev p d s =
    elim (first_split (wants h ev p) (Passes h ev p) tt (λ e es n k. (n, k)) d.entries) [
      | inl k ↦ simp (callback_ignored h ev p d s k) s
      | inr (xs, e, ys, at, k, w) ↦
          let used = wants-in_use h ev p e w in
          simp (callback_taken h ev p d xs e ys s at k w) (
            s
            ∙ ap any_used at
            ∙ any_used-at xs e ys used
            ∙ sym (any_used-at xs (taken ev p e) ys used))
    ]

either-IsSound :
    (b : Bool) (v w : WaitStart)
    → IsSound (started v)
    → IsSound (started w)
    → IsSound (started (if b then v else w))
either-IsSound true v w p q = p
either-IsSound false v w p q = q

begin-IsSound :
    (cb io : Bool) (i : ℕ) (d : SyncData) → IsSound d → IsSound (started (wait_begin cb io i d))
unfolding wait_begin
begin-IsSound cb io i d s =
    let e = entry_at d i in
    let freed = free-IsSound i d s in
    let waiting = put_slot-IsSound i (record e.slot { loc_cb_is_waiting = true }) d s in
    either-IsSound (ltb i (length d.entries)) _ _
      (either-IsSound e.slot_in_use _ _
        (either-IsSound e.slot.loc_cb_has_arrived _ _ freed
          (either-IsSound e.slot.loc_cb_is_waiting _ _ freed waiting))
        s)
      s

Step-IsSound : {d d' : SyncData} → IsSound d → Step d d' → IsSound d'
unfolding wait_end
Step-IsSound {d} s (callback h ev p) = callback-IsSound h ev p d s
Step-IsSound {d} s alloc = alloc-IsSound d s
Step-IsSound {d} s (fill i h mask t) = put_slot-IsSound i _ d s
Step-IsSound {d} s (begin cb io i) = begin-IsSound cb io i d s
Step-IsSound {d} s (finish cb io timed_out i) =
    free-IsSound i _
      (put_slot-IsSound i (record (entry_at d i).slot { loc_cb_is_waiting = false }) d s)
Step-IsSound {d} s (release i) = free-IsSound i d s

-- However the threads interleave after loc_api_sync_call_init, in_use says whether some slot is in use.
pub Reached-IsSound : (d : SyncData) → Reached d → IsSound d
Reached-IsSound d (initial d_0) = init-IsSound d_0
Reached-IsSound d (next d_0 r t) = Step-IsSound (Reached-IsSound d_0 r) t
