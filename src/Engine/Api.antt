-- ===== src/Engine/Api.antt =====
-- gps/libloc/libloc_api/loc_eng.cpp: the calls of the framework.
use android_device_generic_m.Base.{
  ℕ, Bool, true, false, not, ◌&&◌, Option, none, some, List, [], ◌∷◌, take, if◌then◌else◌,
}
use android_device_generic_m.Ni.{UserResponse, loc_eng_ni_init, loc_eng_ni_respond}
use android_device_generic_m.Engine.{
  status_none, session_end, mute_none, mute_wait, no_flags, Engine, World, fix_started, fix_stopped,
  client_closed, thread_created, thread_joined, signalled, Op, ◌>>◌, nothing, emit, modify, when,
  reads, raise,
}
use android_device_generic_m.Engine.Status.{is_on, is_off, is_end, is_some, loc_inform_gps_status}

-- INIT_CHECK
abbrev pub when_inited : Op → Op
when_inited f = reads (λ e. when e.inited f)

unfoldable pub loc_eng_mute_one_session : Op
loc_eng_mute_one_session = when_inited (modify (λ e. record e { mute_session_state = mute_wait }))

unfoldable pub loc_eng_start : World → Op
loc_eng_start w =
    when_inited
      (emit fix_started >> when w.start_fix_ok (modify (λ e. record e { navigating = true })))

-- The end of a fix session, once the modem has stopped. An engine that is off has told of it already.
abbrev pub session_ended : Op
session_ended =
    reads (λ e. when (not (is_end e.fix_session_status)) (
      modify (λ d. record d { fix_session_status = session_end })
      >> when (not (is_off e.engine_status)) (loc_inform_gps_status session_end)))
    >> modify (λ e. record e { navigating = false })

unfoldable pub loc_eng_stop : World → Op
loc_eng_stop w = when_inited (
    reads (λ e.
      if e.agps_request_pending
      then modify (λ d. record d { stop_request_pending = true })
      else emit fix_stopped >> when w.stop_fix_ok session_ended))

abbrev pub stop_navigating : World → Op
stop_navigating w =
    reads (λ e. when e.navigating (loc_eng_stop w >> modify (λ d. record d { navigating = false })))

abbrev pub close_client : Op
close_client = reads (λ e.
    when e.client_opened
      (emit (client_closed e.client_handle) >> modify (λ d. record d { client_opened = false })))

unfoldable pub loc_eng_deinit : World → Op
loc_eng_deinit w =
    when_inited (stop_navigating w >> close_client >> modify (λ e. record e { inited = false }))

-- The deferred thread is told to quit.
abbrev pub ask_quit : Op
ask_quit = raise (λ f. record f { quit = true })

-- Behind pthread_join.
abbrev pub thread_gone : Op
thread_gone = emit thread_joined >> modify (λ e. record e { deferred_action_thread = false })

-- The deferred thread is told to quit and waited for.
unfoldable pub loc_eng_cleanup : World → Op
loc_eng_cleanup w =
    loc_eng_deinit w >> reads (λ e. when e.deferred_action_thread (ask_quit >> thread_gone))

abbrev pub quit_asked : Op
quit_asked = reads (λ e. when e.deferred_action_thread ask_quit)

-- loc_eng_cleanup up to pthread_join.
abbrev pub cleanup_begun : World → Op
cleanup_begun w = loc_eng_deinit w >> quit_asked

-- The callbacks of the extensions: of `loc_eng_agps_init`, the status callback, of qct_loc_eng_xtra_init, the
-- request callback, and loc_eng_ni_init with its data.
abbrev pub agps_callback_set : (status_cb : Bool) → Op
agps_callback_set status_cb = modify (λ e. record e { agps_status_cb = status_cb })

unfoldable pub qct_loc_eng_xtra_init : (download_request_cb : Bool) → Op
qct_loc_eng_xtra_init download_request_cb =
    modify (λ e. record e { download_request_cb = download_request_cb })

abbrev pub ni_initialised : (notify_cb : Bool) → Op
ni_initialised notify_cb =
    modify (λ e. record e { ni_notify_cb = notify_cb; ni = loc_eng_ni_init e.ni })

abbrev pub ni_answered : (notif_id : ℕ) → UserResponse → Op
ni_answered notif_id r = modify (λ e. record e { ni = loc_eng_ni_respond notif_id r e.ni })

-- The data after the memset, with the client that loc_open gave and the thread that was created.
abbrev pub fresh : (status_cb : Bool) → (handle : Option ℕ) → Engine → Engine
fresh status_cb handle e = record {
  inited = true;
  last_status = e.last_status;
  ni = e.ni;
  client_handle = handle;
  status_cb = status_cb;
  agps_status_cb = false;
  ni_notify_cb = false;
  agps_status = none;
  agps_request_pending = false;
  stop_request_pending = false;
  download_request_cb = false;
  xtra_request_pending = false;
  xtra_data_for_injection = none;
  loc_event = none;
  client_opened = is_some handle;
  navigating = false;
  data_connection_is_on = false;
  apn_name = [];
  conn_handle = 0;
  engine_status = status_none;
  fix_session_status = status_none;
  aiding_data_for_deletion = false;
  deferred_action_thread = true;
  deferred_action_flags = no_flags;
  mute_session_state = mute_none;
}

-- `handle` is what loc_open returns, none where it is negative. LOC_DATA_DEFAULT is false.
unfoldable pub loc_eng_init : World → (status_cb : Bool) → (handle : Option ℕ) → Op
loc_eng_init w status_cb handle =
    loc_eng_deinit w >> modify (fresh status_cb handle) >> emit thread_created

abbrev pub aiding_waits : Engine → Bool
aiding_waits e = not (is_on e.engine_status) && e.aiding_data_for_deletion

abbrev pub aiding_wanted : Op
aiding_wanted = modify (λ e. record e { aiding_data_for_deletion = true })

abbrev pub raise_aiding : Op
raise_aiding = reads (λ e. when (aiding_waits e) (raise (λ f. record f { delete_aiding = true })))

unfoldable pub loc_eng_delete_aiding_data : (any : Bool) → Op
loc_eng_delete_aiding_data any = when_inited (when any aiding_wanted >> raise_aiding)

abbrev pub apn_set : Option (List ℕ) → Engine → Engine
apn_set none e = e
apn_set (some apn) e = record e { data_connection_is_on = true; apn_name = take 99 apn }

-- A name is cut to the 99 bytes that fit, none is NULL.
unfoldable pub loc_eng_set_apn : Option (List ℕ) → Op
loc_eng_set_apn apn = when_inited (modify (apn_set apn))

abbrev pub raise_success : Op
raise_success = raise (λ f. record f { agps_data_success = true })

unfoldable pub loc_eng_data_conn_open : Option (List ℕ) → Op
loc_eng_data_conn_open apn = when_inited (loc_eng_set_apn apn >> raise_success)

unfoldable pub loc_eng_data_conn_closed : Op
loc_eng_data_conn_closed = when_inited (raise (λ f. record f { agps_data_closed = true }))

unfoldable pub loc_eng_data_conn_failed : Op
loc_eng_data_conn_failed = when_inited (raise (λ f. record f { agps_data_failed = true }))

abbrev pub wake_if_off : Op
wake_if_off = reads (λ e. when (not (is_on e.engine_status)) (emit signalled))

abbrev pub xtra_kept : List ℕ → Op
xtra_kept bytes = modify (λ e. record e { xtra_data_for_injection = some bytes })

-- loc_eng_xtra.cpp: the data is kept, over what was kept before, where malloc has room for it. The thread is
-- signalled without a flag.
unfoldable pub qct_loc_eng_inject_xtra_data_proxy : (malloc_ok : Bool) → List ℕ → Op
qct_loc_eng_inject_xtra_data_proxy malloc_ok [] = nothing
qct_loc_eng_inject_xtra_data_proxy malloc_ok (b ∷ bs) =
    when malloc_ok (xtra_kept (b ∷ bs)) >> wake_if_off
