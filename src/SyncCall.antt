-- ===== src/SyncCall.antt =====
-- gps/libloc/libloc_api-rpc/src/loc_api_sync_call.c: calls that wait for a callback of the engine. Eight
-- slots are shared by the threads that call and the thread that brings callbacks. A function that
-- locks is one step, or two where it waits on a condition. A boolean is a Bool, an int or a mask its
-- 32-bit pattern.
pub mod Calls
pub mod Scan
pub mod Slots
pub mod Reach
pub mod Exchange
pub mod Ioctl
mod Tests
use Prim.Native.Nat.{bit_and, bit_or}
use android_device_generic_m.Base.{
  ℕ, zero, suc, ◌+◌, ◌-◌, ◌^◌, Bool, true, false, not, ◌&&◌, ◌||◌, Option, none, some, List, [],
  ◌∷◌, length, get_or, set, replicate, ◌==◌, ltb, if◌then◌else◌,
}

-- `rpc_loc_ioctl_callback_s_type`
pub record IoctlReport : Type 0 where
  pub report_type : ℕ
  pub status : ℕ
  pub data_bytes : List ℕ

-- `rpc_loc_event_payload_u_type`: the union seen through its member ioctl_report, and its other bytes.
pub record Payload : Type 0 where
  pub ioctl_report : IoctlReport
  pub other_bytes : List ℕ

-- `loc_sync_call_data_s_type`
pub record Slot : Type 0 where
  pub loc_handle : ℕ
  pub loc_cb_is_selected : Bool
  pub loc_cb_is_waiting : Bool
  pub loc_cb_has_arrived : Bool
  pub loc_cb_wait_event_mask : ℕ
  pub ioctl_type : ℕ
  pub loc_cb_received_payload : Payload
  pub loc_cb_received_event_mask : ℕ

-- `slot_in_use[i]` with `slots[i]`.
pub record Entry : Type 0 where
  pub slot_in_use : Bool
  pub slot : Slot

-- `loc_sync_call_data_array_s_type`; `size` is the number of entries.
pub record SyncData : Type 0 where
  pub in_use : Bool
  pub entries : List Entry

abbrev pub api_success : ℕ
api_success = 0

abbrev pub api_invalid_parameter : ℕ
api_invalid_parameter = 5

abbrev pub api_engine_busy : ℕ
api_engine_busy = 6

abbrev pub api_timeout : ℕ
api_timeout = 8

-- RPC_LOC_EVENT_IOCTL_REPORT
abbrev pub event_ioctl_report : ℕ
event_ioctl_report = 128

-- What static storage holds.
abbrev pub empty_payload : Payload
empty_payload = record {
  ioctl_report = record { report_type = 0; status = 0; data_bytes = [] };
  other_bytes = [];
}

abbrev pub fresh_slot : Slot
fresh_slot = record {
  loc_handle = 2 ^ 32 - 1;
  loc_cb_is_selected = false;
  loc_cb_is_waiting = false;
  loc_cb_has_arrived = false;
  loc_cb_wait_event_mask = 0;
  ioctl_type = 0;
  loc_cb_received_payload = empty_payload;
  loc_cb_received_event_mask = 0;
}

abbrev pub clear_entry : Entry → Entry
clear_entry e = record {
  slot_in_use = false;
  slot = record fresh_slot {
    ioctl_type = e.slot.ioctl_type;
    loc_cb_received_payload = e.slot.loc_cb_received_payload;
  };
}

abbrev pub clear_all : List Entry → List Entry
clear_all [] = []
clear_all (e ∷ es) = clear_entry e ∷ clear_all es

unfoldable pub loc_api_sync_call_init : SyncData → SyncData
loc_api_sync_call_init d = record { in_use = false; entries = clear_all d.entries }

unfoldable pub loc_match_callback : (wait_mask wait_ioctl event_mask : ℕ) → Payload → Bool
loc_match_callback wait_mask wait_ioctl event_mask p =
    if bit_and event_mask wait_mask == 0
    then false
    else not (event_mask == event_ioctl_report)
      || (wait_ioctl == 0 || p.ioctl_report.report_type == wait_ioctl)

-- The condition of the loop over the slots.
unfoldable pub wants : (loc_handle loc_event : ℕ) → Payload → Entry → Bool
wants loc_handle loc_event p e =
    e.slot_in_use
    && (e.slot.loc_handle == loc_handle
        && (loc_match_callback e.slot.loc_cb_wait_event_mask e.slot.ioctl_type loc_event p
            && not e.slot.loc_cb_has_arrived))

unfoldable pub take_callback : (loc_event : ℕ) → Payload → Slot → Slot
take_callback loc_event p s =
    if s.loc_cb_is_waiting
    then record s { loc_cb_received_payload = p; loc_cb_received_event_mask = loc_event }
    else record s { loc_cb_received_payload = p; loc_cb_has_arrived = true }

-- The loop from a slot on: the slots after it, `in_use`, and the slot that was signalled.
pub record Scanned : Type 0 where
  pub scanned : List Entry
  pub seen_in_use : Bool
  pub signalled : Option ℕ

abbrev pub pass : Entry → Scanned → Scanned
pass e r = record r { scanned = e ∷ r.scanned }

unfoldable pub scan :
    (loc_handle loc_event : ℕ) → Payload → (i : ℕ) (in_use : Bool) → List Entry → Scanned
scan loc_handle loc_event p i in_use [] = record {
  scanned = [];
  seen_in_use = in_use;
  signalled = none;
}
scan loc_handle loc_event p i in_use (e ∷ es) =
    let rest = scan loc_handle loc_event p (suc i) (in_use || e.slot_in_use) es in
    if wants loc_handle loc_event p e
    then record {
      scanned = record e { slot = take_callback loc_event p e.slot } ∷ es;
      seen_in_use = in_use || e.slot_in_use;
      signalled = if e.slot.loc_cb_is_waiting then some i else none;
    }
    else pass e rest

abbrev pub store_scan : SyncData → Scanned → SyncData × Option ℕ
store_scan d r = (
  record { in_use = if r.seen_in_use then d.in_use else false; entries = r.scanned },
  r.signalled,
)

-- With the slot whose condition is signalled.
unfoldable pub loc_api_callback_process_sync_call :
    (loc_handle loc_event : ℕ) → Payload → SyncData → SyncData × Option ℕ
loc_api_callback_process_sync_call loc_handle loc_event p d =
    if d.in_use then store_scan d (scan loc_handle loc_event p 0 false d.entries) else (d, none)

abbrev pub unused : Entry
unused = record { slot_in_use = false; slot = fresh_slot }

abbrev pub set_use : Bool → ℕ → List Entry → List Entry
set_use b i es = set es i (record (get_or es i unused) { slot_in_use = b })

-- The first free slot from `i` on.
unfoldable pub first_free : ℕ → List Entry → Option ℕ
first_free i [] = none
first_free i (e ∷ es) = let rest = first_free (suc i) es in if e.slot_in_use then rest else some i

abbrev pub claim_slot : SyncData → Option ℕ → Option ℕ × SyncData
claim_slot d none = (none, d)
claim_slot d (some i) = (some i, record { in_use = true; entries = set_use true i d.entries })

-- None is -1.
unfoldable pub loc_alloc_slot : SyncData → Option ℕ × SyncData
loc_alloc_slot d = claim_slot d (first_free 0 d.entries)

unfoldable pub any_used : List Entry → Bool
any_used [] = false
any_used (e ∷ es) = e.slot_in_use || any_used es

unfoldable pub loc_free_slot : (select_id : ℕ) → SyncData → SyncData
loc_free_slot i d =
    let es = set_use false i d.entries in
    record { in_use = if any_used es then d.in_use else false; entries = es }
