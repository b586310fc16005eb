-- ===== src/Engine/Calls.antt =====
-- gps/libloc/libloc_api/loc_eng.cpp: every call of the framework and of the modem keeps the invariant.
use android_device_generic_m.Base.{
  ℕ, refl, Bool, true, false, not, ◌&&◌, Option, none, some, List, [], ◌∷◌, arith,
}
use android_device_generic_m.Ni.{
  NiData, NiEffect, muted, thread_created, notified, responded, UserResponse, loc_eng_ni_callback,
}
use android_device_generic_m.Engine.{
  predicted_orbits, time_request, other_assist, ServerRequest, open_req, close_req, LocEvent,
  parsed_position_report, satellite_report, nmea_report, status_report, assistance_data_request,
  location_server_request, ni_notify_verify_request, ioctl_report, other_event, World, fix_stopped,
  ni_effect, location_reported, satellites_reported, signalled, Op, ◌>>◌, emit, modify, when, raise,
}
use android_device_generic_m.Engine.Status.{is_on}
use android_device_generic_m.Engine.Api.{
  when_inited, aiding_wanted, aiding_waits, raise_aiding, raise_success, xtra_kept, wake_if_off,
  session_ended, stop_navigating, close_client, loc_eng_deinit, ask_quit, quit_asked, thread_gone,
  cleanup_begun, agps_callback_set, qct_loc_eng_xtra_init, ni_initialised, ni_answered,
  loc_eng_mute_one_session, loc_eng_start, loc_eng_stop, loc_eng_delete_aiding_data, apn_set,
  loc_eng_set_apn, loc_eng_data_conn_open, loc_eng_data_conn_closed, loc_eng_data_conn_failed,
  qct_loc_eng_inject_xtra_data_proxy,
}
use android_device_generic_m.Engine.Events.{
  is_handle, event_kept, loc_event_cb, loc_eng_process_conn_request, is_muted, ni_done, ni_asked,
  process_report, pass_xtra_request, process_request, loc_eng_process_loc_event,
}
use android_device_generic_m.Engine.Sound.{
  Keeps, seq-at, seq-Keeps, when-Keeps, if-Keeps, moved, delete-Keeps, session_ended-Keeps,
  loc_eng_report_status-Keeps,
}

pub inited-Keeps : (f : Op) → Keeps f → Keeps (when_inited f)
inited-Keeps f p e l a = when-Keeps e.inited f p e l a

-- Changes of fields that the invariant does not speak of.
pub mute-Keeps : Keeps loc_eng_mute_one_session
unfolding loc_eng_mute_one_session
mute-Keeps = inited-Keeps (modify _) (λ e l a. moved a refl refl refl refl refl refl refl refl)

pub start-Keeps : (w : World) → Keeps (loc_eng_start w)
unfolding loc_eng_start
start-Keeps w = inited-Keeps _ (λ e l a.
    when-Keeps w.start_fix_ok (modify (λ d. record d { navigating = true }))
      (λ d m b. moved b refl refl refl refl refl refl refl refl) e l a)

pub stop-Keeps : (w : World) → Keeps (loc_eng_stop w)
unfolding loc_eng_stop
stop-Keeps w = inited-Keeps _ (λ e l a.
    if-Keeps e.agps_request_pending (modify (λ d. record d { stop_request_pending = true }))
      (emit fix_stopped >> when w.stop_fix_ok session_ended) (λ d m b. ground arith)
      (λ d m b. when-Keeps w.stop_fix_ok session_ended session_ended-Keeps d m b) e l a)

pub delete_aiding-Keeps : (any : Bool) → Keeps (loc_eng_delete_aiding_data any)
unfolding loc_eng_delete_aiding_data
delete_aiding-Keeps any = inited-Keeps _ (
    seq-Keeps (when any aiding_wanted) raise_aiding
      (when-Keeps any aiding_wanted (λ d m b. moved b refl refl refl refl refl refl refl refl))
      (λ d m b. when-Keeps (aiding_waits d) _ delete-Keeps d m b))

pub success-Keeps : Keeps raise_success
success-Keeps e l a = ground arith

pub closed-Keeps : Keeps (raise (λ f. record f { agps_data_closed = true }))
closed-Keeps e l a = ground arith

pub failed-Keeps : Keeps (raise (λ f. record f { agps_data_failed = true }))
failed-Keeps e l a = ground arith

pub set_apn-Keeps : (apn : Option (List ℕ)) → Keeps (loc_eng_set_apn apn)
unfolding loc_eng_set_apn
set_apn-Keeps none = inited-Keeps _ (λ e l a. a)
set_apn-Keeps (some apn) =
    inited-Keeps (modify (apn_set (some apn)))
      (λ e l a. moved a refl refl refl refl refl refl refl refl)

pub conn_open-Keeps : (apn : Option (List ℕ)) → Keeps (loc_eng_data_conn_open apn)
unfolding loc_eng_data_conn_open
conn_open-Keeps apn =
    inited-Keeps _ (seq-Keeps (loc_eng_set_apn apn) raise_success (set_apn-Keeps apn) success-Keeps)

pub conn_closed-Keeps : Keeps loc_eng_data_conn_closed
unfolding loc_eng_data_conn_closed
conn_closed-Keeps = inited-Keeps _ closed-Keeps

pub conn_failed-Keeps : Keeps loc_eng_data_conn_failed
unfolding loc_eng_data_conn_failed
conn_failed-Keeps = inited-Keeps _ failed-Keeps

pub signal-Keeps : Keeps (emit signalled)
signal-Keeps e l a = ground arith

pub inject-Keeps :
    (malloc_ok : Bool) (bytes : List ℕ) → Keeps (qct_loc_eng_inject_xtra_data_proxy malloc_ok bytes)
unfolding qct_loc_eng_inject_xtra_data_proxy
inject-Keeps malloc_ok [] e l a = a
inject-Keeps malloc_ok (b ∷ bs) e l a =
    seq-at (when malloc_ok (xtra_kept (b ∷ bs))) wake_if_off e l
      (when-Keeps malloc_ok (xtra_kept (b ∷ bs))
        (λ d m c. moved c refl refl refl refl refl refl refl refl) e l a)
      (λ d m c. when-Keeps (not (is_on d.engine_status)) (emit signalled) signal-Keeps d m c)

pub kept-Keeps : (handle : ℕ) (ev : LocEvent) → Keeps (event_kept handle ev)
kept-Keeps handle ev =
    inited-Keeps _
      (λ e l a. when-Keeps (is_handle handle e.client_handle) _ (λ d m b. ground arith) e l a)

pub event_cb-Keeps : (handle : ℕ) (ev : LocEvent) → Keeps (loc_event_cb handle ev)
unfolding loc_event_cb
event_cb-Keeps handle ioctl_report e l a = a
event_cb-Keeps handle ev e l a = kept-Keeps handle ev e l a

pub conn_request-Keeps : (r : ServerRequest) → Keeps (loc_eng_process_conn_request r)
unfolding loc_eng_process_conn_request
conn_request-Keeps (open_req h) e l a = ground arith
conn_request-Keeps (close_req h) e l a = ground arith

-- The end of the engine.
deinit_stop-Keeps :
    (w : World) → Keeps (loc_eng_stop w >> modify (λ d. record d { navigating = false }))
deinit_stop-Keeps w =
    seq-Keeps (loc_eng_stop w) (modify (λ d. record d { navigating = false })) (stop-Keeps w)
      (λ e l a. moved a refl refl refl refl refl refl refl refl)

close_client-Keeps : Keeps close_client
close_client-Keeps e l a =
    when-Keeps e.client_opened _ (λ d m b. moved b refl refl refl refl refl refl refl refl) e l a

deinit-Keeps : (w : World) → Keeps (loc_eng_deinit w)
unfolding loc_eng_deinit
deinit-Keeps w =
    let uninit = modify (λ e. record e { inited = false }) in
    inited-Keeps _ (
      seq-Keeps (stop_navigating w >> close_client) uninit
        (seq-Keeps (stop_navigating w) close_client
          (λ e l a. when-Keeps e.navigating _ (deinit_stop-Keeps w) e l a) close_client-Keeps)
        (λ e l a. moved a refl refl refl refl refl refl refl refl))

quit-Keeps : Keeps ask_quit
quit-Keeps e l a = ground arith

pub cleanup-Keeps : (w : World) → Keeps (cleanup_begun w)
cleanup-Keeps w =
    seq-Keeps (loc_eng_deinit w) quit_asked (deinit-Keeps w)
      (λ e l a. when-Keeps e.deferred_action_thread ask_quit quit-Keeps e l a)

pub thread_gone-Keeps : Keeps thread_gone
thread_gone-Keeps e l a = moved a refl refl refl refl refl refl refl refl

-- The callbacks of the extensions, and the answers of the user.
pub agps_init-Keeps : (b : Bool) → Keeps (agps_callback_set b)
agps_init-Keeps b e l a = moved a refl refl refl refl refl refl refl refl

pub xtra_init-Keeps : (b : Bool) → Keeps (qct_loc_eng_xtra_init b)
unfolding qct_loc_eng_xtra_init
xtra_init-Keeps b e l a = moved a refl refl refl refl refl refl refl refl

pub ni_init-Keeps : (b : Bool) → Keeps (ni_initialised b)
ni_init-Keeps b e l a = moved a refl refl refl refl refl refl refl refl

pub ni_respond-Keeps : (id : ℕ) (r : UserResponse) → Keeps (ni_answered id r)
ni_respond-Keeps id r e l a = moved a refl refl refl refl refl refl refl refl

-- What is done beside the invariant.
pub report-Keeps : (ev : LocEvent) → Keeps (process_report ev)
report-Keeps (parsed_position_report n) e l a =
    when-Keeps (not (is_muted e.mute_session_state)) (emit (location_reported n)) (λ d m b. b) e l a
report-Keeps (satellite_report n) e l a =
    when-Keeps (not (is_muted e.mute_session_state)) (emit (satellites_reported n)) (λ d m b. b) e l
      a
report-Keeps (nmea_report n) e l a = a
report-Keeps (status_report s) e l a = loc_eng_report_status-Keeps s e l a
report-Keeps (assistance_data_request predicted_orbits) e l a =
    moved a refl refl refl refl refl refl refl refl
report-Keeps (assistance_data_request time_request) e l a = a
report-Keeps (assistance_data_request other_assist) e l a = a
report-Keeps (location_server_request r) e l a = a
report-Keeps (ni_notify_verify_request r) e l a = a
report-Keeps ioctl_report e l a = a
report-Keeps other_event e l a = a

pub pass_xtra-Keeps : Keeps pass_xtra_request
pass_xtra-Keeps e l a =
    when-Keeps (e.xtra_request_pending && e.download_request_cb) _
      (λ d m b. moved b refl refl refl refl refl refl refl refl) e l a

pub ni_done-Keeps : (es : List NiEffect) → Keeps (ni_done es)
ni_done-Keeps [] = λ e l a. a
ni_done-Keeps (muted ∷ es) =
    seq-Keeps loc_eng_mute_one_session (ni_done es) mute-Keeps (ni_done-Keeps es)
ni_done-Keeps (thread_created r ∷ es) =
    seq-Keeps (emit (ni_effect (thread_created r))) (ni_done es) (λ e l a. a) (ni_done-Keeps es)
ni_done-Keeps (notified n ∷ es) =
    seq-Keeps (emit (ni_effect (notified n))) (ni_done es) (λ e l a. a) (ni_done-Keeps es)
ni_done-Keeps (responded u r ∷ es) =
    seq-Keeps (emit (ni_effect (responded u r))) (ni_done es) (λ e l a. a) (ni_done-Keeps es)

pub ni_asked-Keeps : (r : NiData × List NiEffect) → Keeps (ni_asked r)
ni_asked-Keeps (d, es) =
    seq-Keeps (modify (λ e. record e { ni = d })) (ni_done es)
      (λ e l a. moved a refl refl refl refl refl refl refl refl) (ni_done-Keeps es)

pub request-Keeps : (w : World) (ev : LocEvent) → Keeps (process_request w ev)
request-Keeps w (location_server_request r) e l a = conn_request-Keeps r e l a
request-Keeps w (ni_notify_verify_request r) e l a =
    ni_asked-Keeps (loc_eng_ni_callback w.sizes w.rand w.thread_made e.ni_notify_cb r e.ni) e l a
request-Keeps w (parsed_position_report n) e l a = a
request-Keeps w (satellite_report n) e l a = a
request-Keeps w (nmea_report n) e l a = a
request-Keeps w (status_report s) e l a = a
request-Keeps w (assistance_data_request r) e l a = a
request-Keeps w ioctl_report e l a = a
request-Keeps w other_event e l a = a

pub process_event-Keeps : (w : World) (ev : LocEvent) → Keeps (loc_eng_process_loc_event w ev)
unfolding loc_eng_process_loc_event
process_event-Keeps w ev =
    seq-Keeps (process_report ev >> pass_xtra_request) (process_request w ev)
      (seq-Keeps (process_report ev) pass_xtra_request (report-Keeps ev) pass_xtra-Keeps)
      (request-Keeps w ev)
