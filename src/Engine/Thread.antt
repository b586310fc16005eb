-- ===== src/Engine/Thread.antt =====
-- gps/libloc/libloc_api/loc_eng.cpp: the deferred action thread. A round takes what there is to do under the
-- mutex, and does it after the mutex is released.
use android_device_generic_m.Base.{
  ℕ, Bool, true, false, not, ◌&&◌, ◌||◌, Option, none, some, List, map, if◌then◌else◌,
}
use android_device_generic_m.Engine.{
  GpsStatusValue, AgpsStatus, Flags, no_flags, LocEvent, Engine, World, Effect, agps_told,
  fix_stopped, open_status, close_status, assist_data_deleted, xtra_part, Op, ◌>>◌, nothing, emit,
  modify, when, reads,
}
use android_device_generic_m.Engine.Status.{is_on}
use android_device_generic_m.Engine.Events.{loc_eng_process_loc_event}
use android_device_generic_m.Engine.Xtra.{qct_loc_eng_inject_xtra_data}

-- The local variables of a round.
pub record Work : Type 0 where
  pub loc_event : Option LocEvent
  pub flags : Flags
  pub engine_status : GpsStatusValue
  pub aiding_data_for_deletion : Bool
  pub status : Option AgpsStatus

-- What a round copies, and what it leaves behind for the next one.
abbrev pub work_of : Engine → Work
work_of e = record {
  loc_event = e.loc_event;
  flags = e.deferred_action_flags;
  engine_status = e.engine_status;
  aiding_data_for_deletion = e.aiding_data_for_deletion;
  status = e.agps_status;
}

unfoldable pub work_taken : Engine → Engine
work_taken e = record e { loc_event = none; deferred_action_flags = no_flags; agps_status = none }

abbrev pub process_event : World → Option LocEvent → Op
process_event w none = nothing
process_event w (some ev) = loc_eng_process_loc_event w ev

abbrev pub emit_all : List Effect → Op
emit_all xs e = (e, xs)

-- loc_eng_xtra.cpp: the buffer is emptied, then injected, whatever comes of it.
abbrev pub injected : World → Option (List ℕ) → Op
injected w none = nothing
injected w (some bytes) = emit_all (map xtra_part (qct_loc_eng_inject_xtra_data w.xtra_ok bytes).0)

unfoldable pub loc_eng_inject_xtra_data_in_buffer : World → Op
loc_eng_inject_xtra_data_in_buffer w = reads (λ e.
    modify (λ d. record d { xtra_data_for_injection = none })
    >> injected w e.xtra_data_for_injection)

unfoldable pub loc_eng_ioctl_data_open_status : (succeeded : Bool) → Op
loc_eng_ioctl_data_open_status succeeded =
    reads (λ e. emit (open_status e.conn_handle e.apn_name succeeded))
    >> modify (λ e. record e { data_connection_is_on = succeeded })

unfoldable pub loc_eng_ioctl_data_close_status : (succeeded : Bool) → Op
loc_eng_ioctl_data_close_status succeeded = reads (λ e. emit (close_status e.conn_handle succeeded))

abbrev pub conn_is_off : Op
conn_is_off = modify (λ e. record e { data_connection_is_on = false })

-- A failure is reported for the open where the connection is held to be on.
abbrev pub failed_conn : Op
failed_conn = reads (λ e.
    if e.data_connection_is_on
    then loc_eng_ioctl_data_open_status false
    else loc_eng_ioctl_data_close_status false)

-- The results of data connections.
abbrev pub process_data_conn : Flags → Op
process_data_conn f =
    if f.agps_data_success
    then loc_eng_ioctl_data_open_status true
    else if f.agps_data_closed
    then loc_eng_ioctl_data_close_status true
    else when f.agps_data_failed (failed_conn >> conn_is_off)

abbrev pub data_conn_result : Flags → Bool
data_conn_result f = f.agps_data_success || (f.agps_data_closed || f.agps_data_failed)

-- A stop that was put off is done once a data connection has a result.
abbrev pub stop_if_pending : Op
stop_if_pending = reads (λ e. when e.stop_request_pending (emit fix_stopped))

abbrev pub deferred_stop : Op
deferred_stop = modify (λ e. record e { agps_request_pending = false }) >> stop_if_pending

abbrev pub loc_eng_delete_aiding_data_action : Op
loc_eng_delete_aiding_data_action =
    modify (λ e. record e { aiding_data_for_deletion = false })
    >> emit assist_data_deleted
    >> modify (λ e. record e { aiding_data_for_deletion = false })

-- loc_eng_report_agps_status as loc_eng_process_atl_action calls it.
abbrev pub loc_eng_process_atl_action : Option AgpsStatus → Op
loc_eng_process_atl_action none = nothing
loc_eng_process_atl_action (some status) =
    reads (λ e. when e.agps_status_cb (emit (agps_told status)))

-- The data is deleted where the engine was not on when the round began.
abbrev pub delete_if_off : Work → Op
delete_if_off k =
    when (not (is_on k.engine_status) && k.aiding_data_for_deletion)
      loc_eng_delete_aiding_data_action

abbrev pub inject_if_off : World → Op
inject_if_off w =
    reads (λ e. when (not (is_on e.engine_status)) (loc_eng_inject_xtra_data_in_buffer w))

abbrev pub stop_if_result : Flags → Op
stop_if_result f = when (data_conn_result f) deferred_stop

-- The actions of a round, once the mutex is released.
unfoldable pub perform : World → Work → Op
perform w k =
    process_event w k.loc_event
    >> delete_if_off k
    >> inject_if_off w
    >> process_data_conn k.flags
    >> stop_if_result k.flags
    >> loc_eng_process_atl_action k.status
