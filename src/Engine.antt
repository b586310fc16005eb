-- ===== src/Engine.antt =====
-- gps/libloc/libloc_api/loc_eng.cpp: the location engine below the GPS interface of Android. Its data, and
-- operations on it as functions that list what they do beyond the engine.
pub mod Xtra
pub mod Status
pub mod Api
pub mod Events
pub mod Thread
pub mod Sound
pub mod Calls
pub mod Rounds
pub mod System
pub mod Parts
pub mod Stop
pub mod Servers
mod Tests
use android_device_generic_m.Base.{
  ℕ, Bool, true, false, not, ◌&&◌, ◌||◌, Option, none, some, List, [], ◌∷◌, ◌++◌, if◌then◌else◌,
}
use android_device_generic_m.Ni.{NiData, NiEffect, NiRequest, Sizes}
use Xtra.{Part}

-- `GpsStatusValue`
pub data GpsStatusValue : Type 0 where
  status_none session_begin session_end engine_on engine_off : GpsStatusValue

pub data MuteSession : Type 0 where
  mute_none mute_wait mute_in_session : MuteSession

-- `AGpsStatusValue`, the two values that are used.
pub data AgpsStatus : Type 0 where
  request_agps_data_conn release_agps_data_conn : AgpsStatus

-- The bits of `deferred_action_flags`.
pub record Flags : Type 0 where
  pub event : Bool
  pub delete_aiding : Bool
  pub agps_status : Bool
  pub agps_data_success : Bool
  pub agps_data_closed : Bool
  pub agps_data_failed : Bool
  pub quit : Bool

abbrev pub no_flags : Flags
no_flags = record {
  event = false;
  delete_aiding = false;
  agps_status = false;
  agps_data_success = false;
  agps_data_closed = false;
  agps_data_failed = false;
  quit = false;
}

-- `deferred_action_flags != 0`
abbrev pub any_flag : Flags → Bool
any_flag f =
    f.event
    || (f.delete_aiding
        || (f.agps_status
            || (f.agps_data_success || (f.agps_data_closed || (f.agps_data_failed || f.quit)))))

-- The state that a status event reports.
pub data StatusEvent : Type 0 where
  engine_state : (on : Bool) → StatusEvent
  fix_session_state : (begins : Bool) → StatusEvent
  other_status : StatusEvent

pub data AssistRequest : Type 0 where
  predicted_orbits time_request other_assist : AssistRequest

pub data ServerRequest : Type 0 where
  open_req close_req : (conn_handle : ℕ) → ServerRequest

-- An event of the modem with its payload; it carries one of the bits of the event mask. A report is known
-- by a number.
pub data LocEvent : Type 0 where
  parsed_position_report satellite_report nmea_report : (report : ℕ) → LocEvent
  status_report : StatusEvent → LocEvent
  assistance_data_request : AssistRequest → LocEvent
  location_server_request : ServerRequest → LocEvent
  ni_notify_verify_request : NiRequest → LocEvent
  ioctl_report other_event : LocEvent

-- `loc_eng_data` with loc_eng_inited, loc_eng_ni_data and the static `last_status` of
-- loc_inform_gps_status. A callback is true where it is set, no event is 0 in the source, and
-- `aiding_data_for_deletion` is true for GPS_DELETE_ALL, the one value beside 0 that it has.
pub record Engine : Type 0 where
  pub inited : Bool
  pub last_status : GpsStatusValue
  pub ni : NiData
  pub client_handle : Option ℕ
  pub status_cb : Bool
  pub agps_status_cb : Bool
  pub ni_notify_cb : Bool
  pub agps_status : Option AgpsStatus
  pub agps_request_pending : Bool
  pub stop_request_pending : Bool
  pub download_request_cb : Bool
  pub xtra_request_pending : Bool
  pub xtra_data_for_injection : Option (List ℕ)
  pub loc_event : Option LocEvent
  pub client_opened : Bool
  pub navigating : Bool
  pub data_connection_is_on : Bool
  pub apn_name : List ℕ
  pub conn_handle : ℕ
  pub engine_status : GpsStatusValue
  pub fix_session_status : GpsStatusValue
  pub aiding_data_for_deletion : Bool
  pub deferred_action_thread : Bool
  pub deferred_action_flags : Flags
  pub mute_session_state : MuteSession

-- What the other side answers during one operation.
pub record World : Type 0 where
  pub start_fix_ok : Bool
  pub stop_fix_ok : Bool
  pub xtra_ok : (tries part : ℕ) → Bool
  pub sizes : Sizes
  pub rand : ℕ
  pub thread_made : Bool

-- What an operation does beyond the engine, in order: the wake lock, the signal to the deferred thread, calls
-- of the framework, calls of the location API, and threads.
pub data Effect : Type 0 where
  wakelock_acquired wakelock_released signalled : Effect
  told : GpsStatusValue → Effect
  location_reported satellites_reported nmea_reported : (report : ℕ) → Effect
  xtra_requested : Effect
  agps_told : AgpsStatus → Effect
  fix_started fix_stopped : Effect
  open_status : (conn_handle : ℕ) (apn_name : List ℕ) (succeeded : Bool) → Effect
  close_status : (conn_handle : ℕ) (succeeded : Bool) → Effect
  assist_data_deleted : Effect
  xtra_part : Part → Effect
  ni_effect : NiEffect → Effect
  client_closed : Option ℕ → Effect
  thread_created thread_joined : Effect

abbrev pub Op : Type 0
Op = Engine → Engine × List Effect

infixl 5 ◌>>◌
abbrev pub ◌>>◌ : Op → Op → Op
◌>>◌ f g e = ((g (f e).0).0, (f e).1 ++ (g (f e).0).1)

abbrev pub nothing : Op
nothing e = (e, [])

abbrev pub emit : Effect → Op
emit x e = (e, x ∷ [])

abbrev pub modify : (Engine → Engine) → Op
modify f e = (f e, [])

abbrev pub when : Bool → Op → Op
when b f = if b then f else nothing

-- An operation that looks at the engine first.
abbrev pub reads : (Engine → Op) → Op
reads k e = k e e

-- A flag is set for the deferred thread: the wake lock is taken before, and the thread signalled behind.
abbrev pub raise : (Flags → Flags) → Op
raise f =
    emit wakelock_acquired
    >> modify (λ e. record e { deferred_action_flags = f e.deferred_action_flags })
    >> emit signalled
