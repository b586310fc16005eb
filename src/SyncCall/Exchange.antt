-- ===== src/SyncCall/Exchange.antt =====
-- gps/libloc/libloc_api-rpc/src/loc_api_sync_call.c: from the selection of a callback to the end of the
-- wait for it.
use mathlib.Core.Path.{ap₂}
use android_device_generic_m.Base.{
  ℕ, ◌≡◌, refl, sym, ap, ◌∙◌, Bool, true, false, not, ◌==◌, Option, none, some, List, ◌∷◌, ◌++◌,
  length, length-append, get_or, set, ltb, ==_refl, lt→ltb, if◌then◌else◌, arith,
}
use android_device_generic_m.SyncCall.{
  Payload, Slot, Entry, SyncData, api_success, api_invalid_parameter, api_engine_busy, wants,
  take_callback, unused, loc_free_slot, loc_match_callback, loc_api_callback_process_sync_call,
}
use android_device_generic_m.SyncCall.Calls.{
  entry_at, put_slot, fill_slot, selected_slot, loc_api_select_callback, wait_begin, wait_end,
  wait_result, WaitStart, answered, asleep, loc_save_user_payload, nothing_saved, Saved,
  loc_api_wait_callback,
}
use android_device_generic_m.SyncCall.Scan.{IsSound, Passes, taken, any_used-at, callback_taken}
use android_device_generic_m.SyncCall.Slots.{AllUsed, get_or-at, set-at, set_use-at, alloc_first}

-- The slots with one at a known place.
abbrev pub around : (xs : List Entry) (e : Entry) (ys : List Entry) → SyncData
around xs e ys = record { in_use = true; entries = xs ++ e ∷ ys }

-- A slot that a thread has selected.
abbrev pub selected : (h mask t : ℕ) → Entry → Entry
selected h mask t e = record { slot_in_use = true; slot = selected_slot h mask t e.slot }

entry_at-around :
    (xs : List Entry) (e : Entry) (ys : List Entry) → entry_at (around xs e ys) (length xs) ≡ e
entry_at-around xs e ys = get_or-at xs e ys

put_slot-around :
    (xs : List Entry) (e : Entry) (ys : List Entry) (t : Slot)
    → put_slot (length xs) t (around xs e ys) ≡ around xs (record e { slot = t }) ys
put_slot-around xs e ys t =
    ap (λ l. record { in_use = true; entries = l })
      (ap (λ f. set (xs ++ e ∷ ys) (length xs) (record f { slot = t })) (get_or-at xs e ys)
        ∙ set-at xs e (record e { slot = t }) ys)

-- loc_api_select_callback fills the first free slot for the caller's handle and mask.
pub select_first :
    (h mask t : ℕ) (d : SyncData) (xs : List Entry) (e : Entry) (ys : List Entry)
    → d.entries ≡ xs ++ e ∷ ys
    → AllUsed xs
    → e.slot_in_use ≡ false
    → loc_api_select_callback h mask t d ≡ (some (length xs), around xs (selected h mask t e) ys)
unfolding loc_api_select_callback fill_slot
select_first h mask t d xs e ys at k f =
    let used = record e { slot_in_use = true } in
    ap (fill_slot h mask t) (alloc_first d xs e ys at k f)
    ∙ ap
        (λ s. (
          some (length xs),
          put_slot (length xs) (selected_slot h mask t s.slot) (around xs used ys),
        ))
        (get_or-at xs used ys)
    ∙ ap (λ d. (some (length xs), d)) (put_slot-around xs used ys (selected_slot h mask t e.slot))

inside :
    (xs : List Entry) (e : Entry) (ys : List Entry) → ltb (length xs) (length (xs ++ e ∷ ys)) ≡ true
inside xs e ys =
    lt→ltb (length xs) (length (xs ++ e ∷ ys)) (omega (arith, length-append xs (e ∷ ys)))

-- A wait on a slot in use at a known place, by the state of that slot.
wait_begin-at :
    (cb io : Bool) (xs : List Entry) (e : Entry) (ys : List Entry)
    → e.slot_in_use ≡ true
    → wait_begin cb io (length xs) (around xs e ys) ≡ (
        if e.slot.loc_cb_has_arrived
        then answered api_success
            (loc_save_user_payload cb io e.slot.loc_cb_received_payload)
            (loc_free_slot (length xs) (around xs e ys))
        else if e.slot.loc_cb_is_waiting
        then answered api_engine_busy nothing_saved (loc_free_slot (length xs) (around xs e ys))
        else asleep (around xs (record e { slot = record e.slot { loc_cb_is_waiting = true } }) ys))
unfolding wait_begin
wait_begin-at cb io xs e ys u =
    let i = length xs in
    let d = around xs e ys in
    let freed = loc_free_slot i d in
    let by_state : Entry → SyncData → WaitStart = λ f g.
      if f.slot.loc_cb_has_arrived
      then answered api_success (loc_save_user_payload cb io f.slot.loc_cb_received_payload) freed
      else if f.slot.loc_cb_is_waiting
      then answered api_engine_busy nothing_saved freed
      else asleep g in
    let sleeping : Entry → SyncData =
      λ f. put_slot i (record f.slot { loc_cb_is_waiting = true }) d in
    let invalid = answered api_invalid_parameter nothing_saved d in
    let checked : Bool → Bool → WaitStart → WaitStart =
      λ a b w. if a then (if b then w else invalid) else invalid in
    let found = entry_at d i in
    ap (λ a. checked a found.slot_in_use (by_state found (sleeping found))) (inside xs e ys)
    ∙ ap (λ f. checked true f.slot_in_use (by_state f (sleeping f))) (get_or-at xs e ys)
    ∙ ap (λ b. checked true b (by_state e (sleeping e))) u
    ∙ ap (by_state e) (put_slot-around xs e ys (record e.slot { loc_cb_is_waiting = true }))

-- A wait that ends well: the caller has the payload, and the slot is free again.
pub record Delivered (cb io : Bool) (p : Payload) (i : ℕ) (r : ℕ × Saved × SyncData) : Type 0 where
  pub code : r.0 ≡ api_success
  pub saved : r.1 ≡ loc_save_user_payload cb io p
  pub freed : (entry_at r.2 i).slot_in_use ≡ false

freed-at :
    (xs : List Entry) (e : Entry) (ys : List Entry)
    → (entry_at (loc_free_slot (length xs) (around xs e ys)) (length xs)).slot_in_use ≡ false
unfolding loc_free_slot
freed-at xs e ys =
    let off = record e { slot_in_use = false } in
    ap (λ l. (get_or l (length xs) unused).slot_in_use) (set_use-at false xs e ys)
    ∙ ap (λ f. f.slot_in_use) (get_or-at xs off ys)

Delivered-at :
    (cb io : Bool) (p : Payload) (xs : List Entry) (e : Entry) (ys : List Entry)
    (r : ℕ × Saved × SyncData)
    → r ≡ (api_success, loc_save_user_payload cb io p, loc_free_slot (length xs) (around xs e ys))
    → Delivered cb io p (length xs) r
Delivered-at cb io p xs e ys r h = record {
  code = ap (λ o. o.0) h;
  saved = ap (λ o. o.1) h;
  freed = ap (λ o. (entry_at o.2 (length xs)).slot_in_use) h ∙ freed-at xs e ys;
}

selected-wants :
    (h mask t ev : ℕ) (p : Payload) (e : Entry)
    → loc_match_callback (selected_slot h mask t e.slot).loc_cb_wait_event_mask t ev p ≡ true
    → (w : Bool)
    → wants h ev p (record (selected h mask t e) {
      slot = record (selected_slot h mask t e.slot) { loc_cb_is_waiting = w };
    })
      ≡ true
unfolding wants selected_slot
selected-wants h mask t ev p e m w = simp (==_refl h, m)

-- The callback that a call selected, where no earlier slot takes it, is remembered when it comes before
-- the wait: the wait returns at once with its payload, and the slot is free again.
pub early_callback :
    (h mask t ev : ℕ) (p : Payload) (cb io : Bool) (sleep : SyncData → Bool × SyncData)
    (d : SyncData) (xs : List Entry) (e : Entry) (ys : List Entry)
    → d.entries ≡ xs ++ e ∷ ys
    → AllUsed xs
    → e.slot_in_use ≡ false
    → Passes h ev p xs
    → loc_match_callback (selected_slot h mask t e.slot).loc_cb_wait_event_mask t ev p ≡ true
    → Delivered cb io p (length xs) (
        loc_api_wait_callback cb io sleep
          (length xs)
          (loc_api_callback_process_sync_call h ev p (loc_api_select_callback h mask t d).1).0)
unfolding loc_api_wait_callback take_callback selected_slot
early_callback h mask t ev p cb io sleep d xs e ys at k f pass m =
    let chosen = selected h mask t e in
    let got = taken ev p chosen in
    let sound : IsSound (around xs chosen ys) = sym (any_used-at xs chosen ys refl) in
    Delivered-at cb io p xs got ys _ (
      ap
        (λ o.
          loc_api_wait_callback cb io sleep (length xs)
            (loc_api_callback_process_sync_call h ev p o.1).0)
        (select_first h mask t d xs e ys at k f)
      ∙ ap (λ o. loc_api_wait_callback cb io sleep (length xs) o.0)
          (callback_taken h ev p (around xs chosen ys) xs chosen ys sound refl pass
            (selected-wants h mask t ev p e m false))
      ∙ ap (wait_result cb io sleep (length xs)) (wait_begin-at cb io xs got ys refl))

abbrev signals : (i : ℕ) → Option ℕ → Bool
signals i none = false
signals i (some j) = i == j

abbrev pub sleep_after : (i : ℕ) → SyncData × Option ℕ → Bool × SyncData
sleep_after i (d, signalled) = (not (signals i signalled), d)

-- The sleep of the thread on slot `i` in which just this callback comes: where it signals the condition of
-- the slot the thread wakes, and else the sleep ends with ETIMEDOUT.
abbrev pub callback_sleep : (i h ev : ℕ) → Payload → SyncData → Bool × SyncData
callback_sleep i h ev p d = sleep_after i (loc_api_callback_process_sync_call h ev p d)

-- The callback that a call selected, where no earlier slot takes it, ends the sleep of the wait when it
-- comes later and before the time runs out: it signals the condition of the slot, the wait returns with its
-- payload, and the slot is free again.
pub late_callback :
    (h mask t ev : ℕ) (p : Payload) (cb io : Bool) (d : SyncData) (xs : List Entry) (e : Entry)
    (ys : List Entry)
    → d.entries ≡ xs ++ e ∷ ys
    → AllUsed xs
    → e.slot_in_use ≡ false
    → Passes h ev p xs
    → loc_match_callback (selected_slot h mask t e.slot).loc_cb_wait_event_mask t ev p ≡ true
    → Delivered cb io p (length xs) (
        loc_api_wait_callback cb io
          (callback_sleep (length xs) h ev p)
          (length xs)
          (loc_api_select_callback h mask t d).1)
unfolding loc_api_wait_callback take_callback selected_slot wait_end
late_callback h mask t ev p cb io d xs e ys at k f pass m =
    let chosen = selected h mask t e in
    let waiting = record chosen { slot = record chosen.slot { loc_cb_is_waiting = true } } in
    let got = taken ev p waiting in
    let ended = record got { slot = record got.slot { loc_cb_is_waiting = false } } in
    let i = length xs in
    let sound : IsSound (around xs waiting ys) = sym (any_used-at xs waiting ys refl) in
    let sleep = callback_sleep i h ev p in
    Delivered-at cb io p xs ended ys _ (
      ap (λ o. loc_api_wait_callback cb io sleep i o.1) (select_first h mask t d xs e ys at k f)
      ∙ ap (wait_result cb io sleep i) (wait_begin-at cb io xs chosen ys refl)
      ∙ ap (λ o. wait_end cb io (sleep_after i o).0 i (sleep_after i o).1)
          (callback_taken h ev p (around xs waiting ys) xs waiting ys sound refl pass
            (selected-wants h mask t ev p e m true))
      ∙ ap (λ b. wait_end cb io (not b) i (around xs got ys)) (==_refl i)
      ∙ ap
          (λ s. (
            api_success,
            loc_save_user_payload cb io s.slot.loc_cb_received_payload,
            loc_free_slot i
                (put_slot i (record s.slot { loc_cb_is_waiting = false }) (around xs got ys)),
          ))
          (get_or-at xs got ys)
      ∙ ap (λ g. (api_success, loc_save_user_payload cb io p, loc_free_slot i g))
          (put_slot-around xs got ys (record got.slot { loc_cb_is_waiting = false })))

-- A wait on a slot in use where another thread waits already, and no callback has arrived, answers
-- engine busy, and frees the slot of the other thread.
pub busy_wait_frees :
    (cb io : Bool) (sleep : SyncData → Bool × SyncData) (xs : List Entry) (e : Entry)
    (ys : List Entry)
    → e.slot_in_use ≡ true
    → e.slot.loc_cb_has_arrived ≡ false
    → e.slot.loc_cb_is_waiting ≡ true
    → ((loc_api_wait_callback cb io sleep (length xs) (around xs e ys)).0 ≡ api_engine_busy)
      × ((entry_at
            (loc_api_wait_callback cb io sleep (length xs) (around xs e ys)).2
            (length xs)).slot_in_use
          ≡ false)
unfolding loc_api_wait_callback
busy_wait_frees cb io sleep xs e ys u n w =
    let i = length xs in
    let freed = loc_free_slot i (around xs e ys) in
    let by_state : Bool → Bool → WaitStart = λ a b.
      if a
      then answered api_success (loc_save_user_payload cb io e.slot.loc_cb_received_payload) freed
      else if b
      then answered api_engine_busy nothing_saved freed
      else asleep (around xs (record e { slot = record e.slot { loc_cb_is_waiting = true } }) ys) in
    let r : wait_begin cb io i (around xs e ys) ≡ answered api_engine_busy nothing_saved freed =
      wait_begin-at cb io xs e ys u ∙ ap₂ by_state n w in
    (
      ap (λ o. (wait_result cb io sleep i o).0) r,
      ap (λ o. (entry_at (wait_result cb io sleep i o).2 i).slot_in_use) r ∙ freed-at xs e ys,
    )
