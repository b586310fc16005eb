-- ===== src/Engine/Stop.antt =====
-- gps/libloc/libloc_api/loc_eng.cpp: a stop that is put off until a data connection has a result, and an event
-- that comes before another is taken.
use android_device_generic_m.Base.{
  ℕ, ◌+◌, ◌≡◌, refl, ap, ◌∙◌, Bool, true, false, not, ◌&&◌, Option, none, some, List, [], ◌∷◌, ◌++◌,
  map, if◌then◌else◌, arith,
}
use android_device_generic_m.Engine.{
  Flags, LocEvent, ioctl_report, AgpsStatus, agps_told, Engine, World, Effect, fix_stopped,
  xtra_part, Op, ◌>>◌, emit, when,
}
use android_device_generic_m.Engine.Status.{is_on}
use android_device_generic_m.Engine.Api.{loc_eng_stop}
use android_device_generic_m.Engine.Events.{is_handle, loc_event_cb, event_kept}
use android_device_generic_m.Engine.Xtra.{Part, qct_loc_eng_inject_xtra_data}
use android_device_generic_m.Engine.Thread.{
  Work, work_of, work_taken, process_event, injected, loc_eng_inject_xtra_data_in_buffer,
  loc_eng_ioctl_data_open_status, loc_eng_ioctl_data_close_status, process_data_conn, failed_conn,
  conn_is_off, data_conn_result, delete_if_off, inject_if_off, stop_if_result,
  loc_eng_process_atl_action, perform,
}
use android_device_generic_m.Engine.System.{
  System, Run, IsRight, marked-IsRight, run-marked, run-IsRight,
}

abbrev pub stop_of : Effect → ℕ
stop_of fix_stopped = 1
stop_of x = 0

-- How often the modem is told to stop.
abbrev pub stops : List Effect → ℕ
stops [] = 0
stops (x ∷ xs) = stop_of x + stops xs

stops-append : (xs ys : List Effect) → stops (xs ++ ys) ≡ stops xs + stops ys
stops-append [] ys = omega arith
stops-append (x ∷ xs) ys = omega (arith, stops-append xs ys)

-- A part of a round that leaves the stops alone.
abbrev Apart : Op → Type 0
Apart f =
    (e : Engine) → (stops (f e).1 ≡ 0) × ((f e).0.stop_request_pending ≡ e.stop_request_pending)

seq-Apart : (f g : Op) → Apart f → Apart g → Apart (f >> g)
seq-Apart f g p q e =
    let (a, b) = p e in
    let (c, d) = q (f e).0 in (omega (arith, a, c, stops-append (f e).1 (g (f e).0).1), d ∙ b)

when-Apart : (b : Bool) (f : Op) → Apart f → Apart (when b f)
when-Apart true f p e = p e
when-Apart false f p e = (refl, refl)

if-Apart : (b : Bool) (f g : Op) → Apart f → Apart g → Apart (if b then f else g)
if-Apart true f g p q e = p e
if-Apart false f g p q e = q e

event-Apart : (w : World) (ev : Option LocEvent) → ev ≡ none → Apart (process_event w ev)
event-Apart w ev h e = rw h (refl, refl)

delete-Apart : (k : Work) → Apart (delete_if_off k)
delete-Apart k =
    when-Apart (not (is_on k.engine_status) && k.aiding_data_for_deletion) _ (λ e. (refl, refl))

stops-parts : (ps : List Part) → stops (map xtra_part ps) ≡ 0
stops-parts [] = refl
stops-parts (p ∷ ps) = omega (arith, stops-parts ps)

injected-Apart : (w : World) (bytes : Option (List ℕ)) → Apart (injected w bytes)
injected-Apart w none e = (refl, refl)
injected-Apart w (some bytes) e =
    (stops-parts (qct_loc_eng_inject_xtra_data w.xtra_ok bytes).0, refl)

inject-Apart : (w : World) → Apart (inject_if_off w)
unfolding loc_eng_inject_xtra_data_in_buffer
inject-Apart w e =
    when-Apart (not (is_on e.engine_status)) (loc_eng_inject_xtra_data_in_buffer w)
      (λ d.
        injected-Apart w d.xtra_data_for_injection (record d { xtra_data_for_injection = none }))
      e

conn-Apart : (f : Flags) → Apart (process_data_conn f)
unfolding loc_eng_ioctl_data_open_status loc_eng_ioctl_data_close_status
conn-Apart f =
    if-Apart f.agps_data_success (loc_eng_ioctl_data_open_status true) _ (λ e. (refl, refl))
      (if-Apart f.agps_data_closed (loc_eng_ioctl_data_close_status true) _ (λ e. (refl, refl))
        (when-Apart f.agps_data_failed (failed_conn >> conn_is_off) (
          seq-Apart failed_conn conn_is_off
            (λ e.
              if-Apart e.data_connection_is_on (loc_eng_ioctl_data_open_status false)
                (loc_eng_ioctl_data_close_status false) (λ d. (refl, refl)) (λ d. (refl, refl)) e)
            (λ e. (refl, refl)))))

atl-Apart : (s : Option AgpsStatus) → Apart (loc_eng_process_atl_action s)
atl-Apart none e = (refl, refl)
atl-Apart (some s) e = when-Apart e.agps_status_cb (emit (agps_told s)) (λ d. (refl, refl)) e

-- A stop that waits is done where a data connection has a result, and waits on.
stop_if_result-stops :
    (f : Flags) (e : Engine)
    → data_conn_result f ≡ true
    → e.stop_request_pending ≡ true
    → (stops (stop_if_result f e).1 ≡ 1) × ((stop_if_result f e).0.stop_request_pending ≡ true)
stop_if_result-stops f e h p = rw (h, p) (refl, refl)

round-stops :
    (w : World) (k : Work) (e : Engine)
    → k.loc_event ≡ none
    → data_conn_result k.flags ≡ true
    → e.stop_request_pending ≡ true
    → (stops (perform w k e).1 ≡ 1) × ((perform w k e).0.stop_request_pending ≡ true)
unfolding perform
round-stops w k e n h p =
    let first = process_event w k.loc_event >> delete_if_off k in
    let second = first >> inject_if_off w in
    let third = second >> process_data_conn k.flags in
    let before =
      seq-Apart second (process_data_conn k.flags)
        (seq-Apart first (inject_if_off w)
          (seq-Apart (process_event w k.loc_event) (delete_if_off k) (event-Apart w k.loc_event n)
            (delete-Apart k))
          (inject-Apart w))
        (conn-Apart k.flags) e in
    let d = (third e).0 in
    let (one, still) = stop_if_result-stops k.flags d h (before.1 ∙ p) in
    let g = (stop_if_result k.flags d).0 in
    let (none_more, kept) = atl-Apart k.status g in
    (
      omega (
        arith,
        before.0,
        one,
        none_more,
        stops-append (third e).1 (stop_if_result k.flags d).1,
        stops-append ((third >> stop_if_result k.flags) e).1
            (loc_eng_process_atl_action k.status g).1,
      ),
      kept ∙ still,
    )

-- While a request for a data connection is pending, loc_eng_stop does not stop the modem. The next round
-- without an event that has the result of a data connection does, once.
pub deferred_stop_done :
    (w v : World) (k : Work) (e : Engine)
    → e.inited ≡ true
    → e.agps_request_pending ≡ true
    → k.loc_event ≡ none
    → data_conn_result k.flags ≡ true
    → (stops (loc_eng_stop w e).1 ≡ 0) × (stops (perform v k (loc_eng_stop w e).0).1 ≡ 1)
unfolding loc_eng_stop
deferred_stop_done w v k e i a n h =
    let put_off : loc_eng_stop w e ≡ (record e { stop_request_pending = true }, []) =
      rw (i, a) refl in
    (
      ap (λ (r : Engine × List Effect). stops r.1) put_off,
      ap (λ (r : Engine × List Effect). stops (perform v k r.0).1) put_off
          ∙ (round-stops v k (record e { stop_request_pending = true }) n h refl).0,
    )

-- From a sound state in which a stop is put off, until the engine is initialised again, that stop is never
-- over: whatever is called later, a new start and a cleanup included, every round without an event that has
-- the result of a data connection stops the modem once more.
pub later_stops :
    {s t : System} (w : World) (k : Work)
    → Run s t
    → IsRight s
    → s.engine.stop_request_pending ≡ true
    → k.loc_event ≡ none
    → data_conn_result k.flags ≡ true
    → (stops (perform w k t.engine).1 ≡ 1) × ((perform w k t.engine).0.stop_request_pending ≡ true)
later_stops {t = t} w k run r d n h =
    let right = run-IsRight (run-marked run) (marked-IsRight r d) in
    round-stops w k t.engine n h (right.sound.stuck refl)

abbrev pub IsQueued : LocEvent → Type 0
IsQueued ioctl_report = ⊥
IsQueued ev = Unit

event_cb-kept : (h : ℕ) (ev : LocEvent) → IsQueued ev → loc_event_cb h ev ≡ event_kept h ev
unfolding loc_event_cb
event_cb-kept h ioctl_report q = absurd q
event_cb-kept h ev q = refl

kept_only :
    (h : ℕ) (ev : LocEvent) (e : Engine)
    → e.inited ≡ true
    → is_handle h e.client_handle ≡ true
    → (event_kept h ev e).0 ≡ record e {
      loc_event = some ev;
      deferred_action_flags = record e.deferred_action_flags { event = true };
    }
kept_only h ev e i c = rw (i, c) refl

kept_twice :
    (h : ℕ) (ev ev' : LocEvent) (e : Engine)
    → e.inited ≡ true
    → is_handle h e.client_handle ≡ true
    → ((event_kept h ev >> event_kept h ev') e).0 ≡ record e {
      loc_event = some ev';
      deferred_action_flags = record e.deferred_action_flags { event = true };
    }
kept_twice h ev ev' e i c =
    ap (λ d. (event_kept h ev' d).0) (kept_only h ev e i c)
    ∙ kept_only h ev'
        (record e {
          loc_event = some ev;
          deferred_action_flags = record e.deferred_action_flags { event = true };
        })
        i c

-- There is room for one event: where two that are no ioctl reports come to an engine that is initialised, for
-- its client, before the thread takes the first, the round finds the second with its flag, and leaves none
-- for the next round.
pub first_event_lost :
    (client_handle : ℕ) (ev ev' : LocEvent) (e : Engine)
    → IsQueued ev
    → IsQueued ev'
    → e.inited ≡ true
    → is_handle client_handle e.client_handle ≡ true
    → ((work_of ((loc_event_cb client_handle ev >> loc_event_cb client_handle ev') e).0).loc_event
        ≡ some ev')
      × ((work_of
            ((loc_event_cb client_handle ev >> loc_event_cb client_handle ev') e).0).flags.event
          ≡ true)
      × ((work_taken
            ((loc_event_cb client_handle ev >> loc_event_cb client_handle ev') e).0).loc_event
          ≡ none)
unfolding work_taken
first_event_lost h ev ev' e q q' i c =
    let both : ((loc_event_cb h ev >> loc_event_cb h ev') e).0
        ≡ ((event_kept h ev >> event_kept h ev') e).0 =
      rw (event_cb-kept h ev q, event_cb-kept h ev' q') refl in
    let after = both ∙ kept_twice h ev ev' e i c in
    (ap (λ d. d.loc_event) after, ap (λ d. d.deferred_action_flags.event) after, refl)
