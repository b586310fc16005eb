-- ===== src/SyncCall/Calls.antt =====
-- gps/libloc/libloc_api-rpc/src/loc_api_sync_call.c: the calling side, which selects a callback, waits
-- for it, and makes an ioctl of the two. What other threads do meanwhile is an argument.
use Prim.Native.Nat.{bit_or}
use android_device_generic_m.Base.{
  ℕ, Bool, true, false, Option, none, some, List, [], ◌∷◌, length, get_or, set, ◌==◌, ltb,
  if◌then◌else◌,
}
use android_device_generic_m.SyncCall.{
  IoctlReport, Payload, Slot, Entry, SyncData, api_success, api_invalid_parameter, api_engine_busy,
  api_timeout, event_ioctl_report, unused, loc_alloc_slot, loc_free_slot,
}

abbrev pub entry_at : SyncData → ℕ → Entry
entry_at d i = get_or d.entries i unused

abbrev pub put_slot : ℕ → Slot → SyncData → SyncData
put_slot i s d = record d { entries = set d.entries i (record (entry_at d i) { slot = s }) }

unfoldable pub selected_slot : (loc_handle event_mask ioctl_type : ℕ) → Slot → Slot
selected_slot loc_handle event_mask ioctl_type s = record {
  loc_handle = loc_handle;
  loc_cb_is_selected = true;
  loc_cb_is_waiting = false;
  loc_cb_has_arrived = false;
  loc_cb_wait_event_mask =
      if ioctl_type == 0 then event_mask else bit_or event_mask event_ioctl_report;
  ioctl_type = ioctl_type;
  loc_cb_received_payload = s.loc_cb_received_payload;
  loc_cb_received_event_mask = s.loc_cb_received_event_mask;
}

-- The part of a selection under the lock of the slot.
unfoldable pub fill_slot :
    (loc_handle event_mask ioctl_type : ℕ) → Option ℕ × SyncData → Option ℕ × SyncData
fill_slot loc_handle event_mask ioctl_type (none, d) = (none, d)
fill_slot loc_handle event_mask ioctl_type (some i, d) =
    (some i, put_slot i (selected_slot loc_handle event_mask ioctl_type (entry_at d i).slot) d)

unfoldable pub loc_api_select_callback :
    (loc_handle event_mask ioctl_type : ℕ) → SyncData → Option ℕ × SyncData
loc_api_select_callback loc_handle event_mask ioctl_type d =
    fill_slot loc_handle event_mask ioctl_type (loc_alloc_slot d)

-- What is copied to the caller's two buffers, where they are given.
abbrev pub Saved : Type 0
Saved = Option Payload × Option IoctlReport

abbrev pub nothing_saved : Saved
nothing_saved = (none, none)

unfoldable pub loc_save_user_payload : (user_cb_payload user_ioctl_buffer : Bool) → Payload → Saved
loc_save_user_payload user_cb_payload user_ioctl_buffer p = (
  if user_cb_payload then some p else none,
  if user_ioctl_buffer then some p.ioctl_report else none,
)

-- A wait up to its return or up to its sleep on the condition of the slot.
pub data WaitStart : Type 0 where
  answered : (code : ℕ) → Saved → SyncData → WaitStart
  asleep : SyncData → WaitStart

module _ (callback_payload ioctl_payload : Bool) where
  -- A negative `select_id` is a pattern that is out of range too.
  unfoldable pub wait_begin : (select_id : ℕ) → SyncData → WaitStart
  wait_begin i d =
      let e = entry_at d i in
      if ltb i (length d.entries)
      then (if e.slot_in_use
          then (if e.slot.loc_cb_has_arrived
              then answered api_success
                  (loc_save_user_payload callback_payload ioctl_payload
                    e.slot.loc_cb_received_payload)
                  (loc_free_slot i d)
              else if e.slot.loc_cb_is_waiting
              then answered api_engine_busy nothing_saved (loc_free_slot i d)
              else asleep (put_slot i (record e.slot { loc_cb_is_waiting = true }) d))
          else answered api_invalid_parameter nothing_saved d)
      else answered api_invalid_parameter nothing_saved d

  -- After the sleep; `timed_out` is ETIMEDOUT of pthread_cond_timedwait.
  unfoldable pub wait_end : (timed_out : Bool) (select_id : ℕ) → SyncData → ℕ × Saved × SyncData
  wait_end timed_out i d =
      let s = (entry_at d i).slot in
      let awake = put_slot i (record s { loc_cb_is_waiting = false }) d in
      (
        if timed_out then api_timeout else api_success,
        if timed_out
            then nothing_saved
            else loc_save_user_payload callback_payload ioctl_payload s.loc_cb_received_payload,
        loc_free_slot i awake,
      )

  abbrev pub wait_result :
      (sleep : SyncData → Bool × SyncData) (select_id : ℕ) → WaitStart → ℕ × Saved × SyncData
  wait_result sleep i (answered code saved d) = (code, saved, d)
  wait_result sleep i (asleep d) = wait_end (sleep d).0 i (sleep d).1

  -- `sleep` is what happens to the slots during the sleep, and whether it times out.
  unfoldable pub loc_api_wait_callback :
      (sleep : SyncData → Bool × SyncData) (select_id : ℕ) → SyncData → ℕ × Saved × SyncData
  loc_api_wait_callback sleep i d = wait_result sleep i (wait_begin i d)

-- `answers` is what loc_ioctl returns each time, and `others` what other threads do to the slots up to
-- then; none when every answer is busy, and the loop goes on.
unfoldable pub ioctl_loop :
    (answers : List (ℕ × (SyncData → SyncData))) → SyncData → Option (ℕ × SyncData)
ioctl_loop [] d = none
ioctl_loop ((rc, others) ∷ answers) d =
    let again = ioctl_loop answers (others d) in
    if rc == api_engine_busy then again else some (rc, others d)

abbrev pub ioctl_status : Option IoctlReport → ℕ
ioctl_status none = api_success
ioctl_status (some r) = r.status

-- The code, what is copied to `cb_data_ptr` if it is given, and the slots.
abbrev pub ioctl_waited :
    (has_cb_data : Bool) → ℕ × Saved × SyncData → ℕ × Option IoctlReport × SyncData
ioctl_waited has_cb_data (code, (p, r), d) =
    if code == api_success
    then (ioctl_status r, if has_cb_data then r else none, d)
    else (code, none, d)

abbrev pub ioctl_answered :
    (has_cb_data : Bool) (sleep : SyncData → Bool × SyncData) (select_id : ℕ)
    → Option (ℕ × SyncData)
    → Option (ℕ × Option IoctlReport × SyncData)
ioctl_answered has_cb_data sleep i none = none
ioctl_answered has_cb_data sleep i (some (rc, d)) =
    if rc == api_success
    then some (ioctl_waited has_cb_data (loc_api_wait_callback false true sleep i d))
    else some (rc, none, loc_free_slot i d)

abbrev pub ioctl_selected :
    (has_cb_data : Bool) (answers : List (ℕ × (SyncData → SyncData)))
    (sleep : SyncData → Bool × SyncData)
    → Option ℕ × SyncData
    → Option (ℕ × Option IoctlReport × SyncData)
ioctl_selected has_cb_data answers sleep (none, d) = some (api_engine_busy, none, d)
ioctl_selected has_cb_data answers sleep (some i, d) =
    ioctl_answered has_cb_data sleep i (ioctl_loop answers d)

unfoldable pub loc_api_sync_ioctl :
    (has_cb_data : Bool) (answers : List (ℕ × (SyncData → SyncData)))
    (sleep : SyncData → Bool × SyncData) (handle ioctl_type : ℕ)
    → SyncData
    → Option (ℕ × Option IoctlReport × SyncData)
loc_api_sync_ioctl has_cb_data answers sleep handle ioctl_type d =
    ioctl_selected has_cb_data answers sleep (loc_api_select_callback handle 0 ioctl_type d)
