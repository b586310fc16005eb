-- ===== src/Engine/Events.antt =====
-- gps/libloc/libloc_api/loc_eng.cpp: events of the modem, as the RPC thread takes them and the deferred thread
-- processes them.
use android_device_generic_m.Base.{
  ℕ, Bool, true, false, not, ◌&&◌, Option, none, some, List, [], ◌∷◌, ◌==◌,
}
use android_device_generic_m.Ni.{NiData, NiEffect, muted, NiRequest, loc_eng_ni_callback}
use android_device_generic_m.Engine.{
  MuteSession, mute_in_session, request_agps_data_conn, release_agps_data_conn, AssistRequest,
  predicted_orbits, ServerRequest, open_req, close_req, LocEvent, parsed_position_report,
  satellite_report, nmea_report, status_report, assistance_data_request, location_server_request,
  ni_notify_verify_request, ioctl_report, Engine, World, Effect, location_reported,
  satellites_reported, nmea_reported, xtra_requested, ni_effect, Op, ◌>>◌, nothing, emit, modify,
  when, reads, raise,
}
use android_device_generic_m.Engine.Status.{loc_eng_report_status}
use android_device_generic_m.Engine.Api.{when_inited, loc_eng_mute_one_session}

abbrev pub is_handle : ℕ → Option ℕ → Bool
is_handle h none = false
is_handle h (some g) = h == g

-- The event is put where the deferred thread finds it, over one that is there.
abbrev pub event_kept : (client_handle : ℕ) → LocEvent → Op
event_kept client_handle ev = when_inited (
    reads (λ e.
      when (is_handle client_handle e.client_handle)
        (modify (λ d. record d { loc_event = some ev }) >> raise (λ f. record f { event = true }))))

unfoldable pub loc_event_cb : (client_handle : ℕ) → LocEvent → Op
loc_event_cb client_handle ioctl_report = nothing
loc_event_cb client_handle ev = event_kept client_handle ev

abbrev pub conn_requested : ServerRequest → Engine → Engine
conn_requested (open_req h) e = record e {
  agps_status = some request_agps_data_conn;
  conn_handle = h;
  agps_request_pending = true;
}
conn_requested (close_req h) e = record e {
  agps_status = some release_agps_data_conn;
  conn_handle = h;
  agps_request_pending = false;
}

unfoldable pub loc_eng_process_conn_request : ServerRequest → Op
loc_eng_process_conn_request r =
    modify (conn_requested r) >> raise (λ f. record f { agps_status = true })

abbrev pub is_muted : MuteSession → Bool
is_muted mute_in_session = true
is_muted m = false

abbrev pub unless_muted : Effect → Op
unless_muted x = reads (λ e. when (not (is_muted e.mute_session_state)) (emit x))

abbrev pub assist_requested : AssistRequest → Op
assist_requested predicted_orbits = modify (λ e. record e { xtra_request_pending = true })
assist_requested r = nothing

-- What loc_eng_ni_callback does, with the muting of a session.
abbrev pub ni_done : List NiEffect → Op
ni_done [] = nothing
ni_done (muted ∷ es) = loc_eng_mute_one_session >> ni_done es
ni_done (x ∷ es) = emit (ni_effect x) >> ni_done es

abbrev pub ni_asked : NiData × List NiEffect → Op
ni_asked (d, es) = modify (λ e. record e { ni = d }) >> ni_done es

abbrev pub ni_requested : World → NiRequest → Op
ni_requested w r =
    reads (λ e. ni_asked (loc_eng_ni_callback w.sizes w.rand w.thread_made e.ni_notify_cb r e.ni))

-- The reports.
abbrev pub process_report : LocEvent → Op
process_report (parsed_position_report n) = unless_muted (location_reported n)
process_report (satellite_report n) = unless_muted (satellites_reported n)
process_report (nmea_report n) = emit (nmea_reported n)
process_report (status_report s) = loc_eng_report_status s
process_report (assistance_data_request r) = assist_requested r
process_report ev = nothing

-- A request for predicted orbits is passed on as soon as there is a callback for it.
abbrev pub pass_xtra_request : Op
pass_xtra_request = reads (λ e.
    when (e.xtra_request_pending && e.download_request_cb)
      (modify (λ d. record d { xtra_request_pending = false }) >> emit xtra_requested))

-- The requests.
abbrev pub process_request : World → LocEvent → Op
process_request w (location_server_request r) = loc_eng_process_conn_request r
process_request w (ni_notify_verify_request r) = ni_requested w r
process_request w ev = nothing

unfoldable pub loc_eng_process_loc_event : World → LocEvent → Op
loc_eng_process_loc_event w ev = process_report ev >> pass_xtra_request >> process_request w ev
