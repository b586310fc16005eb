-- ===== src/Engine/Rounds.antt =====
-- gps/libloc/libloc_api/loc_eng.cpp: the deferred action thread among the calls of the framework and of the
-- modem.
use android_device_generic_m.Base.{
  ℕ, ◌≡◌, refl, Bool, true, false, not, ◌&&◌, Option, none, some, List, [], ◌∷◌, map,
}
use android_device_generic_m.Engine.{
  Flags, AgpsStatus, LocEvent, World, fix_stopped, agps_told, xtra_part, ◌>>◌, emit, modify,
}
use android_device_generic_m.Engine.Status.{is_on}
use android_device_generic_m.Engine.Xtra.{Part, qct_loc_eng_inject_xtra_data}
use android_device_generic_m.Engine.Thread.{
  Work, process_event, injected, loc_eng_inject_xtra_data_in_buffer, loc_eng_ioctl_data_open_status,
  loc_eng_ioctl_data_close_status, conn_is_off, failed_conn, process_data_conn, data_conn_result,
  stop_if_pending, deferred_stop, loc_eng_delete_aiding_data_action, delete_if_off, inject_if_off,
  stop_if_result, loc_eng_process_atl_action, perform,
}
use android_device_generic_m.Engine.Sound.{
  Outside, see_all, Keeps, seq-Keeps, when-Keeps, if-Keeps, moved,
}
use android_device_generic_m.Engine.Calls.{process_event-Keeps}

event-Keeps : (w : World) (ev : Option LocEvent) → Keeps (process_event w ev)
event-Keeps w none e l a = a
event-Keeps w (some ev) e l a = process_event-Keeps w ev e l a

delete-Keeps : (k : Work) → Keeps (delete_if_off k)
delete-Keeps k =
    when-Keeps (not (is_on k.engine_status) && k.aiding_data_for_deletion)
      loc_eng_delete_aiding_data_action (λ e l a. moved a refl refl refl refl refl refl refl refl)

see-parts : (ps : List Part) (l : Outside) → see_all (map xtra_part ps) l ≡ l
see-parts [] l = refl
see-parts (p ∷ ps) l = see-parts ps l

injected-Keeps : (w : World) (bytes : Option (List ℕ)) → Keeps (injected w bytes)
injected-Keeps w none e l a = a
injected-Keeps w (some bytes) e l a =
    rw (see-parts (qct_loc_eng_inject_xtra_data w.xtra_ok bytes).0 l) a

in_buffer-Keeps : (w : World) → Keeps (loc_eng_inject_xtra_data_in_buffer w)
unfolding loc_eng_inject_xtra_data_in_buffer
in_buffer-Keeps w e l a =
    injected-Keeps w e.xtra_data_for_injection (record e { xtra_data_for_injection = none }) l
      (moved a refl refl refl refl refl refl refl refl)

inject-Keeps : (w : World) → Keeps (inject_if_off w)
inject-Keeps w e l a =
    when-Keeps (not (is_on e.engine_status)) (loc_eng_inject_xtra_data_in_buffer w)
      (in_buffer-Keeps w) e l a

open-Keeps : (succeeded : Bool) → Keeps (loc_eng_ioctl_data_open_status succeeded)
unfolding loc_eng_ioctl_data_open_status
open-Keeps succeeded e l a = moved a refl refl refl refl refl refl refl refl

close-Keeps : (succeeded : Bool) → Keeps (loc_eng_ioctl_data_close_status succeeded)
unfolding loc_eng_ioctl_data_close_status
close-Keeps succeeded e l a = a

failed-Keeps : Keeps failed_conn
failed-Keeps e l a =
    if-Keeps e.data_connection_is_on (loc_eng_ioctl_data_open_status false)
      (loc_eng_ioctl_data_close_status false) (open-Keeps false) (close-Keeps false) e l a

data_conn-Keeps : (f : Flags) → Keeps (process_data_conn f)
data_conn-Keeps f =
    if-Keeps f.agps_data_success (loc_eng_ioctl_data_open_status true) _ (open-Keeps true) (
      if-Keeps f.agps_data_closed (loc_eng_ioctl_data_close_status true) _ (close-Keeps true) (
        when-Keeps f.agps_data_failed (failed_conn >> conn_is_off) (
          seq-Keeps failed_conn conn_is_off failed-Keeps
            (λ e l a. moved a refl refl refl refl refl refl refl refl))))

stop-Keeps : (f : Flags) → Keeps (stop_if_result f)
stop-Keeps f = when-Keeps (data_conn_result f) deferred_stop (
    seq-Keeps (modify (λ e. record e { agps_request_pending = false })) stop_if_pending
      (λ e l a. moved a refl refl refl refl refl refl refl refl)
      (λ e l a. when-Keeps e.stop_request_pending (emit fix_stopped) (λ d m b. b) e l a))

atl-Keeps : (s : Option AgpsStatus) → Keeps (loc_eng_process_atl_action s)
atl-Keeps none e l a = a
atl-Keeps (some s) e l a = when-Keeps e.agps_status_cb (emit (agps_told s)) (λ d m b. b) e l a

pub perform-Keeps : (w : World) (k : Work) → Keeps (perform w k)
unfolding perform
perform-Keeps w k =
    let first = process_event w k.loc_event >> delete_if_off k in
    let second = first >> inject_if_off w in
    let third = second >> process_data_conn k.flags in
    let fourth = third >> stop_if_result k.flags in
    seq-Keeps fourth (loc_eng_process_atl_action k.status)
      (seq-Keeps third (stop_if_result k.flags)
        (seq-Keeps second (process_data_conn k.flags)
          (seq-Keeps first (inject_if_off w)
            (seq-Keeps (process_event w k.loc_event) (delete_if_off k) (event-Keeps w k.loc_event)
              (delete-Keeps k))
            (inject-Keeps w))
          (data_conn-Keeps k.flags))
        (stop-Keeps k.flags))
      (atl-Keeps k.status)
