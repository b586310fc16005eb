-- ===== src/SyncCall/Ioctl.antt =====
-- gps/libloc/libloc_api-rpc/src/loc_api_sync_call.c: loc_api_sync_ioctl from its selection to its answer.
use mathlib.Core.Path.{subst}
use android_device_generic_m.Base.{
  ℕ, ◌≡◌, sym, ap, ◌∙◌, Bool, true, false, Option, none, some, List, ◌∷◌, ◌++◌, length, ◌==◌,
  if◌then◌else◌,
}
use android_device_generic_m.SyncCall.{
  IoctlReport, Payload, Entry, SyncData, api_success, loc_match_callback,
}
use android_device_generic_m.SyncCall.Calls.{
  Saved, entry_at, selected_slot, loc_save_user_payload, loc_api_wait_callback, ioctl_loop,
  ioctl_status, ioctl_waited, ioctl_answered, ioctl_selected, loc_api_sync_ioctl,
}
use android_device_generic_m.SyncCall.Scan.{Passes}
use android_device_generic_m.SyncCall.Slots.{AllUsed}
use android_device_generic_m.SyncCall.Exchange.{
  around, selected, select_first, Delivered, callback_sleep, late_callback,
}

-- The answer of an ioctl that was carried out: the status in the report, the report for the caller
-- who gives a buffer, and a free slot.
pub record Reported (has_cb_data : Bool) (report : IoctlReport) (i : ℕ)
    (o : Option (ℕ × Option IoctlReport × SyncData)) : Type 0 where
  pub result : ℕ × Option IoctlReport × SyncData
  pub returns : o ≡ some result
  pub code : result.0 ≡ report.status
  pub data_copied : result.1 ≡ (if has_cb_data then some report else none)
  pub freed : (entry_at result.2 i).slot_in_use ≡ false

waited-Reported :
    (has : Bool) (p : Payload) (i : ℕ) (r : ℕ × Saved × SyncData)
    → Delivered false true p i r
    → Reported has p.ioctl_report i (some (ioctl_waited has r))
unfolding loc_save_user_payload
waited-Reported has p i r w =
    let report = r.1.1 in
    let q : ℕ × Option IoctlReport × SyncData =
      (ioctl_status report, if has then report else none, r.2) in
    record {
      result = q;
      returns = ap (λ n. some (if n == api_success then q else (r.0, none, r.2))) w.code;
      code = ap (λ s. ioctl_status s.1) w.saved;
      data_copied = ap (λ s. if has then s.1 else none) w.saved;
      freed = w.freed;
    }

-- When a slot is free, loc_ioctl is accepted in the end, with the slots as the selection left them, and
-- the report comes during the sleep, before the time runs out, with no earlier slot that takes it, then
-- loc_api_sync_ioctl is woken by it and answers with the status of that report.
pub ioctl-Reported :
    (has : Bool) (answers : List (ℕ × (SyncData → SyncData))) (h t ev : ℕ) (p : Payload)
    (d : SyncData) (xs : List Entry) (e : Entry) (ys : List Entry)
    → d.entries ≡ xs ++ e ∷ ys
    → AllUsed xs
    → e.slot_in_use ≡ false
    → Passes h ev p xs
    → loc_match_callback (selected_slot h 0 t e.slot).loc_cb_wait_event_mask t ev p ≡ true
    → ioctl_loop answers (around xs (selected h 0 t e) ys)
      ≡ some (api_success, around xs (selected h 0 t e) ys)
    → Reported has p.ioctl_report
        (length xs)
        (loc_api_sync_ioctl has answers (callback_sleep (length xs) h ev p) h t d)
unfolding loc_api_sync_ioctl
ioctl-Reported has answers h t ev p d xs e ys at k f pass m loop =
    let i = length xs in
    let sleep = callback_sleep i h ev p in
    let s = around xs (selected h 0 t e) ys in
    let chosen = select_first h 0 t d xs e ys at k f in
    let wait : Delivered false true p i (loc_api_wait_callback false true sleep i s) =
      rw (ap (λ o. o.1) chosen) at (late_callback h 0 t ev p false true d xs e ys at k f pass m) in
    let e : loc_api_sync_ioctl has answers sleep h t d
        ≡ some (ioctl_waited has (loc_api_wait_callback false true sleep i s)) =
      ap (ioctl_selected has answers sleep) chosen ∙ ap (ioctl_answered has sleep i) loop in
    subst (Reported has p.ioctl_report i) (sym e)
      (waited-Reported has p i (loc_api_wait_callback false true sleep i s) wait)
