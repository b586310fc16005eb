-- ===== src/Engine/Sound.antt =====
-- gps/libloc/libloc_api/loc_eng.cpp: an invariant of the engine, of what a listener of the status callback knows,
-- and of the wake lock, and that the parts of an operation keep it.
use android_device_generic_m.Base.{
  ◌≡◌, refl, sym, ◌∙◌, Bool, true, false, List, [], ◌∷◌, ◌++◌, if◌then◌else◌, arith,
}
use android_device_generic_m.Engine.{
  GpsStatusValue, status_none, session_begin, session_end, engine_on, engine_off, any_flag,
  StatusEvent, engine_state, fix_session_state, other_status, Engine, Effect, told,
  wakelock_acquired, wakelock_released, signalled, Op, ◌>>◌, modify, when, raise,
}
use android_device_generic_m.Engine.Status.{
  is_on, is_off, is_begin, is_end, is_some, loc_inform_gps_status, loc_eng_report_status,
  status_taken, tell_changes, data_waits, wake_for_data, mute_stepped,
}
use android_device_generic_m.Engine.Api.{session_ended}

-- What stands outside of the engine: what a listener knows of the engine and of the fix session, whether
-- the wake lock is held, and whether a signal waits for the deferred thread or it does not sleep. The last
-- three are what no operation changes: that the thread is at work, that it has not ended, and that a stop
-- was put off.
pub record Outside : Type 0 where
  pub engine : GpsStatusValue
  pub session : GpsStatusValue
  pub wakelock : Bool
  pub signal : Bool
  pub working : Bool
  pub alive : Bool
  pub stop_deferred : Bool

-- An engine that goes off ends the session, and a session that begins has the engine on.
abbrev pub hear : GpsStatusValue → Outside → Outside
hear status_none l = l
hear session_begin l = record l { engine = engine_on; session = session_begin }
hear session_end l = record l { session = session_end }
hear engine_on l = record l { engine = engine_on }
hear engine_off l = record l { engine = engine_off; session = session_end }

abbrev pub see : Effect → Outside → Outside
see (told s) l = hear s l
see wakelock_acquired l = record l { wakelock = true }
see wakelock_released l = record l { wakelock = false }
see signalled l = record l { signal = true }
see x l = l

abbrev pub see_all : List Effect → Outside → Outside
see_all [] l = l
see_all (x ∷ xs) l = see_all xs (see x l)

-- The listener is right about both, and the engine is on in a session. An event or a request waits where
-- its flag is set, and a flag has the wake lock and wakes the thread, until it ends.
pub record IsSound (e : Engine) (l : Outside) : Type 0 where
  pub heard : e.status_cb ≡ true
  pub engine : l.engine ≡ e.engine_status
  pub session : l.session ≡ e.fix_session_status
  pub begun_on : is_begin e.fix_session_status ≡ true → is_on e.engine_status ≡ true
  pub off_ended : is_off e.engine_status ≡ true → is_end e.fix_session_status ≡ true
  pub last_begun_on : is_begin e.last_status ≡ true → is_on e.engine_status ≡ true
  pub event_flagged : is_some e.loc_event ≡ e.deferred_action_flags.event
  pub agps_flagged : is_some e.agps_status ≡ e.deferred_action_flags.agps_status
  pub held : l.alive ≡ true → any_flag e.deferred_action_flags ≡ true → l.wakelock ≡ true
  pub woken : l.alive ≡ true → any_flag e.deferred_action_flags ≡ true → l.signal ≡ true
  pub busy : l.working ≡ true → l.wakelock ≡ true
  pub stuck : l.stop_deferred ≡ true → e.stop_request_pending ≡ true

abbrev pub Keeps : Op → Type 0
Keeps f = (e : Engine) (l : Outside) → IsSound e l → IsSound (f e).0 (see_all (f e).1 l)

see_all-append :
    (xs ys : List Effect) (l : Outside) → see_all (xs ++ ys) l ≡ see_all ys (see_all xs l)
see_all-append [] ys l = refl
see_all-append (x ∷ xs) ys l = see_all-append xs ys (see x l)

pub seq-at :
    (f g : Op) (e : Engine) (l : Outside)
    → IsSound (f e).0 (see_all (f e).1 l)
    → Keeps g
    → IsSound ((f >> g) e).0 (see_all ((f >> g) e).1 l)
seq-at f g e l a q = rw (see_all-append (f e).1 (g (f e).0).1 l) (q (f e).0 (see_all (f e).1 l) a)

pub seq-Keeps : (f g : Op) → Keeps f → Keeps g → Keeps (f >> g)
seq-Keeps f g p q e l a = seq-at f g e l (p e l a) q

pub when-Keeps : (b : Bool) (f : Op) → Keeps f → Keeps (when b f)
when-Keeps true f p e l a = p e l a
when-Keeps false f p e l a = a

pub if-Keeps : (b : Bool) (f g : Op) → Keeps f → Keeps g → Keeps (if b then f else g)
if-Keeps true f g p q e l a = p e l a
if-Keeps false f g p q e l a = q e l a

-- An engine that differs in other fields only.
pub moved :
    {e d : Engine} {l : Outside}
    → IsSound e l
    → d.status_cb ≡ e.status_cb
    → d.engine_status ≡ e.engine_status
    → d.fix_session_status ≡ e.fix_session_status
    → d.last_status ≡ e.last_status
    → d.loc_event ≡ e.loc_event
    → d.agps_status ≡ e.agps_status
    → d.deferred_action_flags ≡ e.deferred_action_flags
    → d.stop_request_pending ≡ e.stop_request_pending
    → IsSound d l
moved {e} {d} {l} a p q r s t u v w = record {
  heard = p ∙ a.heard;
  engine = a.engine ∙ sym q;
  session = a.session ∙ sym r;
  begun_on = rw (q, r) a.begun_on;
  off_ended = rw (q, r) a.off_ended;
  last_begun_on = rw (q, s) a.last_begun_on;
  event_flagged = rw (t, v) a.event_flagged;
  agps_flagged = rw (u, v) a.agps_flagged;
  held = rw v a.held;
  woken = rw v a.woken;
  busy = a.busy;
  stuck = rw w a.stuck;
}

pub delete-Keeps : Keeps (raise (λ f. record f { delete_aiding = true }))
delete-Keeps e l a = ground arith

wake_for_data-Keeps : Keeps wake_for_data
wake_for_data-Keeps e l a =
    when-Keeps (data_waits e) (raise (λ f. record f { delete_aiding = true })) delete-Keeps e l a

on-Keeps : Keeps (λ e. tell_changes e (status_taken (engine_state true) e))
unfolding loc_inform_gps_status
on-Keeps e l a = ground arith

off-Keeps : Keeps (λ e. tell_changes e (status_taken (engine_state false) e))
unfolding loc_inform_gps_status
off-Keeps e l a = ground arith

begin-Keeps : Keeps (λ e. tell_changes e (status_taken (fix_session_state true) e))
unfolding loc_inform_gps_status
begin-Keeps e l a = ground arith

-- Nothing has changed.
same-told : Keeps (λ e. tell_changes e e)
unfolding loc_inform_gps_status
same-told e l a = ground arith

report-Keeps : (s : StatusEvent) → Keeps (λ e. tell_changes e (status_taken s e))
report-Keeps (engine_state true) e l a = on-Keeps e l a
report-Keeps (engine_state false) e l a = off-Keeps e l a
report-Keeps (fix_session_state true) e l a = begin-Keeps e l a
report-Keeps (fix_session_state false) e l a = same-told e l a
report-Keeps other_status e l a = same-told e l a

pub session_ended-Keeps : Keeps session_ended
unfolding loc_inform_gps_status
session_ended-Keeps e l a = ground arith

pub loc_eng_report_status-Keeps : (s : StatusEvent) → Keeps (loc_eng_report_status s)
unfolding loc_eng_report_status
loc_eng_report_status-Keeps s e l a =
    let told_of = modify (status_taken s) >> tell_changes e in
    let muted = modify mute_stepped in
    seq-at (told_of >> muted) wake_for_data e l
      (seq-at told_of muted e l (report-Keeps s e l a)
        (λ d m b. moved b refl refl refl refl refl refl refl refl))
      wake_for_data-Keeps
