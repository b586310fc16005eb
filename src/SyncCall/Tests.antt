-- ===== src/SyncCall/Tests.antt =====
-- The theorems on loc_api_sync_call.c at two slots, the first of them taken by another client.
use android_device_generic_m.Base.{◌≡◌, refl, Bool, true, false, some, [], ◌∷◌}
use android_device_generic_m.SyncCall.{
  Entry, Payload, SyncData, fresh_slot, empty_payload, unused, any_used, wants, loc_match_callback,
  loc_alloc_slot, loc_api_sync_call_init, loc_api_callback_process_sync_call,
}
use android_device_generic_m.SyncCall.Calls.{
  selected_slot, loc_api_select_callback, loc_api_wait_callback, wait_begin, loc_api_sync_ioctl,
  ioctl_loop,
}
use android_device_generic_m.SyncCall.Scan
use android_device_generic_m.SyncCall.Reach
use android_device_generic_m.SyncCall.Exchange
use android_device_generic_m.SyncCall.Ioctl

abbrev other_client : Entry
other_client = record {
  slot_in_use = true;
  slot = record fresh_slot {
    loc_handle = 9;
    loc_cb_is_selected = true;
    loc_cb_wait_event_mask = 1;
  };
}

abbrev sleeper : Entry
sleeper = record {
  slot_in_use = true;
  slot = record fresh_slot {
    loc_handle = 4;
    loc_cb_is_selected = true;
    loc_cb_is_waiting = true;
    loc_cb_wait_event_mask = 1;
  };
}

abbrev two : SyncData
two = record { in_use = true; entries = other_client ∷ unused ∷ [] }

abbrev both_taken : SyncData
both_taken = record { in_use = true; entries = other_client ∷ sleeper ∷ [] }

abbrev report_payload : Payload
report_payload = record {
  ioctl_report = record { report_type = 3; status = 2; data_bytes = 1 ∷ [] };
  other_bytes = [];
}

abbrev no_sleep : SyncData → Bool × SyncData
no_sleep d = (true, d)

both_taken-IsSound : Scan.IsSound both_taken
unfolding any_used
both_taken-IsSound = refl

two-IsSound : Scan.IsSound two
unfolding any_used
two-IsSound = refl

other-Passes : Scan.Passes 4 1 empty_payload (other_client ∷ [])
unfolding wants
other-Passes = (refl, tt)

sleeper-wants : wants 4 1 empty_payload sleeper ≡ true
unfolding wants loc_match_callback
sleeper-wants = refl

two_pass : Scan.Passes 4 1 empty_payload two.entries
unfolding wants
two_pass = (refl, (refl, tt))

-- A start, a selection and a wait.
abbrev later : SyncData
later = Reach.started (wait_begin true true 0 (loc_alloc_slot (loc_api_sync_call_init two)).1)

later-Reached : Reach.Reached later
later-Reached =
    Reach.next (loc_alloc_slot (loc_api_sync_call_init two)).1
      (Reach.next (loc_api_sync_call_init two) (Reach.initial two) Reach.alloc)
      (Reach.begin true true 0)

Reached-IsSound_example : Scan.IsSound later
Reached-IsSound_example = Reach.Reached-IsSound later later-Reached

matched :
    loc_match_callback (selected_slot 4 1 0 unused.slot).loc_cb_wait_event_mask 0 1 empty_payload
    ≡ true
unfolding loc_match_callback selected_slot
matched = refl

early_callback_example : Exchange.Delivered true false empty_payload 1 (
    loc_api_wait_callback true false no_sleep 1
      (loc_api_callback_process_sync_call 4 1 empty_payload
        (loc_api_select_callback 4 1 0 two).1).0)
early_callback_example =
    Exchange.early_callback 4 1 0 1 empty_payload true false no_sleep two (other_client ∷ []) unused
      [] refl (refl, tt) refl other-Passes matched

late_callback_example : Exchange.Delivered true false empty_payload 1 (
    loc_api_wait_callback true false
      (Exchange.callback_sleep 1 4 1 empty_payload)
      1
      (loc_api_select_callback 4 1 0 two).1)
late_callback_example =
    Exchange.late_callback 4 1 0 1 empty_payload true false two (other_client ∷ []) unused [] refl
      (refl, tt) refl other-Passes matched

matched_ioctl :
    loc_match_callback (selected_slot 4 0 3 unused.slot).loc_cb_wait_event_mask 3 128 report_payload
    ≡ true
unfolding loc_match_callback selected_slot
matched_ioctl = refl

other-Passes_ioctl : Scan.Passes 4 128 report_payload (other_client ∷ [])
unfolding wants
other-Passes_ioctl = (refl, tt)

abbrev same : SyncData → SyncData
same d = d

accepted :
    ioctl_loop
      ((6, same) ∷ (0, same) ∷ [])
      (Exchange.around (other_client ∷ []) (Exchange.selected 4 0 3 unused) [])
    ≡ some (0, Exchange.around (other_client ∷ []) (Exchange.selected 4 0 3 unused) [])
unfolding ioctl_loop
accepted = refl

ioctl-Reported_example : Ioctl.Reported true report_payload.ioctl_report 1 (
    loc_api_sync_ioctl true
      ((6, same) ∷ (0, same) ∷ [])
      (Exchange.callback_sleep 1 4 128 report_payload)
      4
      3
      two)
ioctl-Reported_example =
    Ioctl.ioctl-Reported true ((6, same) ∷ (0, same) ∷ []) 4 3 128 report_payload two
      (other_client ∷ []) unused [] refl (refl, tt) refl other-Passes_ioctl matched_ioctl accepted
