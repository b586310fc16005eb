-- ===== src/Engine/Status.antt =====
-- gps/libloc/libloc_api/loc_eng.cpp: what the framework is told of the engine and its sessions.
use android_device_generic_m.Base.{Bool, true, false, not, ◌&&◌, ◌||◌, Option, none, some}
use android_device_generic_m.Engine.{
  GpsStatusValue, status_none, session_begin, session_end, engine_on, engine_off, MuteSession,
  mute_none, mute_wait, mute_in_session, StatusEvent, engine_state, fix_session_state, other_status,
  Engine, told, Op, ◌>>◌, emit, modify, when, reads, raise,
}

abbrev pub is_on : GpsStatusValue → Bool
is_on engine_on = true
is_on s = false

abbrev pub is_off : GpsStatusValue → Bool
is_off engine_off = true
is_off s = false

abbrev pub is_begin : GpsStatusValue → Bool
is_begin session_begin = true
is_begin s = false

abbrev pub is_end : GpsStatusValue → Bool
is_end session_end = true
is_end s = false

abbrev pub is_none : GpsStatusValue → Bool
is_none status_none = true
is_none s = false

abbrev pub same : GpsStatusValue → GpsStatusValue → Bool
same status_none t = is_none t
same session_begin t = is_begin t
same session_end t = is_end t
same engine_on t = is_on t
same engine_off t = is_off t

-- The session begin is told again where the engine goes on behind it.
unfoldable pub loc_inform_gps_status : GpsStatusValue → Op
loc_inform_gps_status status =
    reads (λ e. when e.status_cb (
      emit (told status)
      >> when (is_on status && is_begin e.last_status) (emit (told session_begin))))
    >> modify (λ e. record e { last_status = status })

-- The first part of loc_eng_report_status.
abbrev pub status_taken : StatusEvent → Engine → Engine
status_taken (engine_state true) e = record e { engine_status = engine_on }
status_taken (engine_state false) e = record e {
  engine_status = engine_off;
  fix_session_status = session_end;
}
status_taken (fix_session_state true) e = record e {
  engine_status = engine_on;
  fix_session_status = session_begin;
}
status_taken (fix_session_state false) e = e
status_taken other_status e = e

abbrev pub next_mute : GpsStatusValue → MuteSession → MuteSession
next_mute engine_on mute_wait = mute_in_session
next_mute engine_off mute_in_session = mute_none
next_mute status m = m

abbrev pub is_some {ℓ} : {A : Type ℓ} → Option A → Bool
is_some none = false
is_some (some a) = true

-- There is data to delete or to inject, and the engine is not on.
abbrev pub data_waits : Engine → Bool
data_waits e =
    not (is_on e.engine_status) && (e.aiding_data_for_deletion || is_some e.xtra_data_for_injection)

abbrev pub wake_for_data : Op
wake_for_data = reads (λ e. when (data_waits e) (raise (λ f. record f { delete_aiding = true })))

abbrev pub mute_stepped : Engine → Engine
mute_stepped e = record e { mute_session_state = next_mute e.engine_status e.mute_session_state }

-- `before` is the engine before the report.
abbrev pub tell_changes : (before : Engine) → Op
tell_changes before =
    reads (λ e.
      when (not (is_begin e.fix_session_status) && not (same before.engine_status e.engine_status))
        (loc_inform_gps_status e.engine_status))
    >> reads (λ e.
      when
        (not (is_off e.engine_status) && not (same before.fix_session_status e.fix_session_status))
        (loc_inform_gps_status e.fix_session_status))

unfoldable pub loc_eng_report_status : StatusEvent → Op
loc_eng_report_status s = reads (λ before.
    modify (status_taken s) >> tell_changes before >> modify mute_stepped >> wake_for_data)
