-- ===== src/Engine/System.antt =====
-- gps/libloc/libloc_api/loc_eng.cpp: the engine among its threads. A call of the framework or of the modem is a
-- step, and so is each of the two halves of a round of the deferred action thread.
use android_device_generic_m.Base.{
  ℕ, ◌≡◌, refl, sym, ap, ◌∙◌, Bool, true, false, not, ◌||◌, Option, List, [], ◌∷◌, arith,
}
use mathlib.Core.Path.{subst}
use android_device_generic_m.Ni.{UserResponse}
use android_device_generic_m.Engine.{
  any_flag, LocEvent, Engine, World, Effect, told, status_none, session_begin, session_end,
  engine_on, engine_off, wakelock_acquired, Op,
}
use android_device_generic_m.Engine.Api.{
  loc_eng_start, loc_eng_stop, loc_eng_delete_aiding_data, loc_eng_data_conn_open,
  loc_eng_data_conn_closed, loc_eng_data_conn_failed, qct_loc_eng_inject_xtra_data_proxy,
  thread_gone, cleanup_begun, agps_callback_set, qct_loc_eng_xtra_init, ni_initialised, ni_answered,
}
use android_device_generic_m.Engine.Events.{loc_event_cb}
use android_device_generic_m.Engine.Thread.{Work, work_of, work_taken, perform}
use android_device_generic_m.Engine.Sound.{Outside, IsSound, see, see_all, Keeps}
use android_device_generic_m.Engine.Calls.{
  start-Keeps, stop-Keeps, delete_aiding-Keeps, conn_open-Keeps, conn_closed-Keeps,
  conn_failed-Keeps, inject-Keeps, event_cb-Keeps, thread_gone-Keeps, cleanup-Keeps,
  agps_init-Keeps, xtra_init-Keeps, ni_init-Keeps, ni_respond-Keeps,
}
use android_device_generic_m.Engine.Rounds.{perform-Keeps}

-- The calls that other threads make and that change the engine, but loc_eng_init; of loc_eng_cleanup the part
-- before pthread_join.
pub data Call : Type 0 where
  start stop : World → Call
  delete_aiding_data : (any : Bool) → Call
  data_conn_open : Option (List ℕ) → Call
  data_conn_closed data_conn_failed : Call
  inject_xtra_data : (malloc_ok : Bool) → List ℕ → Call
  event_comes : (client_handle : ℕ) → LocEvent → Call
  agps_init xtra_init ni_init : (callback : Bool) → Call
  ni_respond : (notif_id : ℕ) → UserResponse → Call
  cleanup : World → Call

abbrev pub op_of : Call → Op
op_of (start w) = loc_eng_start w
op_of (stop w) = loc_eng_stop w
op_of (delete_aiding_data any) = loc_eng_delete_aiding_data any
op_of (data_conn_open apn) = loc_eng_data_conn_open apn
op_of data_conn_closed = loc_eng_data_conn_closed
op_of data_conn_failed = loc_eng_data_conn_failed
op_of (inject_xtra_data malloc_ok bytes) = qct_loc_eng_inject_xtra_data_proxy malloc_ok bytes
op_of (event_comes h ev) = loc_event_cb h ev
op_of (agps_init callback) = agps_callback_set callback
op_of (xtra_init callback) = qct_loc_eng_xtra_init callback
op_of (ni_init callback) = ni_initialised callback
op_of (ni_respond id r) = ni_answered id r
op_of (cleanup w) = cleanup_begun w

op_of-Keeps : (c : Call) → Keeps (op_of c)
op_of-Keeps (start w) = start-Keeps w
op_of-Keeps (stop w) = stop-Keeps w
op_of-Keeps (delete_aiding_data any) = delete_aiding-Keeps any
op_of-Keeps (data_conn_open apn) = conn_open-Keeps apn
op_of-Keeps data_conn_closed = conn_closed-Keeps
op_of-Keeps data_conn_failed = conn_failed-Keeps
op_of-Keeps (inject_xtra_data malloc_ok bytes) = inject-Keeps malloc_ok bytes
op_of-Keeps (event_comes h ev) = event_cb-Keeps h ev
op_of-Keeps (agps_init callback) = agps_init-Keeps callback
op_of-Keeps (xtra_init callback) = xtra_init-Keeps callback
op_of-Keeps (ni_init callback) = ni_init-Keeps callback
op_of-Keeps (ni_respond id r) = ni_respond-Keeps id r
op_of-Keeps (cleanup w) = cleanup-Keeps w

-- The deferred thread: at the top of its loop, in pthread_cond_wait, with what it has taken, or at its end.
pub data DeferredThread : Type 0 where
  ready asleep ended : DeferredThread
  working : Work → DeferredThread

pub record System : Type 0 where
  pub engine : Engine
  pub outside : Outside
  pub thread : DeferredThread

-- After a round took its work.
abbrev pub taken : Engine → Outside → System
taken e l = record {
  engine = work_taken e;
  outside = record l { wakelock = true; signal = true; working = true };
  thread = working (work_of e);
}

-- The thread releases the wake lock at its end.
abbrev pub has_quit : Engine → Outside → System
has_quit e l = record {
  engine = record e { deferred_action_thread = false };
  outside = record l { wakelock = false; alive = false };
  thread = ended;
}

-- The thread wakes for a signal or for no reason, and loc_eng_cleanup goes on where it has ended.
pub data Step : System → System → Type 0 where
  calls :
      (s : System) (c : Call)
      → Step s (record s {
        engine = (op_of c s.engine).0;
        outside = see_all (op_of c s.engine).1 s.outside;
      })
  sleeps :
      (e : Engine) (l : Outside)
      → any_flag e.deferred_action_flags ≡ false
      → Step
          (record { engine = e; outside = l; thread = ready })
          (record {
            engine = e;
            outside = record l { wakelock = false; signal = false };
            thread = asleep;
          })
  wakes :
      (e : Engine) (l : Outside)
      → e.deferred_action_flags.quit ≡ false
      → Step (record { engine = e; outside = l; thread = asleep }) (taken e l)
  takes :
      (e : Engine) (l : Outside)
      → any_flag e.deferred_action_flags ≡ true
      → e.deferred_action_flags.quit ≡ false
      → Step
          (record { engine = e; outside = l; thread = ready })
          (record {
            engine = work_taken e;
            outside = record l { working = true };
            thread = working (work_of e);
          })
  quits :
      (e : Engine) (l : Outside)
      → e.deferred_action_flags.quit ≡ true
      → Step (record { engine = e; outside = l; thread = asleep }) (has_quit e l)
  quits_ready :
      (e : Engine) (l : Outside)
      → e.deferred_action_flags.quit ≡ true
      → Step (record { engine = e; outside = l; thread = ready }) (has_quit e l)
  joins :
      (e : Engine) (l : Outside)
      → Step
          (record { engine = e; outside = l; thread = ended })
          (record {
            engine = (thread_gone e).0;
            outside = see_all (thread_gone e).1 l;
            thread = ended;
          })
  performs :
      (w : World) (e : Engine) (l : Outside) (k : Work)
      → Step
          (record { engine = e; outside = l; thread = working k })
          (record {
            engine = (perform w k e).0;
            outside = record (see_all (perform w k e).1 l) { working = false };
            thread = ready;
          })

pub data Run : System → System → Type 0 where
  here : {s : System} → Run s s
  next : {s t u : System} → Step s t → Run t u → Run s u

abbrev pub works : DeferredThread → Bool
works (working k) = true
works t = false

abbrev pub lives : DeferredThread → Bool
lives ended = false
lives t = true

-- `working` is true exactly while the thread has work, and `alive` until it has ended.
abbrev pub IsAt : DeferredThread → Outside → Type 0
IsAt t l = (l.working ≡ works t) × (l.alive ≡ lives t)

pub record IsRight (s : System) : Type 0 where
  pub sound : IsSound s.engine s.outside
  pub at : IsAt s.thread s.outside

-- Neither the facts of before nor where the thread is changes by what an operation does.
abbrev SameFacts : Outside → Outside → Type 0
SameFacts l m = (m.working ≡ l.working) × (m.alive ≡ l.alive) × (m.stop_deferred ≡ l.stop_deferred)

see-SameFacts : (x : Effect) (l : Outside) → SameFacts l (see x l)
see-SameFacts (told status_none) l = (refl, refl, refl)
see-SameFacts (told session_begin) l = (refl, refl, refl)
see-SameFacts (told session_end) l = (refl, refl, refl)
see-SameFacts (told engine_on) l = (refl, refl, refl)
see-SameFacts (told engine_off) l = (refl, refl, refl)
see-SameFacts wakelock_acquired l = (refl, refl, refl)
see-SameFacts x l = (refl, refl, refl)

see_all-SameFacts : (xs : List Effect) (l : Outside) → SameFacts l (see_all xs l)
see_all-SameFacts [] l = (refl, refl, refl)
see_all-SameFacts (x ∷ xs) l =
    let (p, q, u) = see-SameFacts x l in
    let (r, s, v) = see_all-SameFacts xs (see x l) in (r ∙ p, s ∙ q, v ∙ u)

IsAt-same : (t : DeferredThread) (l m : Outside) → SameFacts l m → IsAt t l → IsAt t m
IsAt-same t l m (p, q, u) (a, b) = (p ∙ a, q ∙ b)

idle-IsSound : {e : Engine} {l : Outside} → IsSound e l → IsSound e (record l { working = false })
idle-IsSound a = ground arith

quit-IsSound :
    {e : Engine} {l : Outside}
    → IsSound e l
    → l.working ≡ false
    → IsSound
        (record e { deferred_action_thread = false })
        (record l { wakelock = false; alive = false })
quit-IsSound a h = ground arith

stop-IsSound :
    {e : Engine} {l : Outside}
    → IsSound e l
    → e.stop_request_pending ≡ true
    → IsSound e (record l { stop_deferred = true })
stop-IsSound a h = ground arith

step-IsRight : {s t : System} → Step s t → IsRight s → IsRight t
unfolding work_taken
step-IsRight (calls s c) r = record {
  sound = op_of-Keeps c s.engine s.outside r.sound;
  at =
      IsAt-same s.thread s.outside (see_all (op_of c s.engine).1 s.outside)
        (see_all-SameFacts (op_of c s.engine).1 s.outside) r.at;
}
step-IsRight (sleeps e l h) r =
    let a = r.sound in let p = r.at in record { sound = ground arith; at = p }
step-IsRight (wakes e l h) r =
    let a = r.sound in let p = r.at in record { sound = ground arith; at = (refl, p.1) }
step-IsRight (takes e l h n) r =
    let a = r.sound in let p = r.at in record { sound = ground arith; at = (refl, p.1) }
step-IsRight (quits e l h) r =
    let p = r.at in record { sound = quit-IsSound r.sound p.0; at = (p.0, refl) }
step-IsRight (quits_ready e l h) r =
    let p = r.at in record { sound = quit-IsSound r.sound p.0; at = (p.0, refl) }
step-IsRight (joins e l) r = record { sound = thread_gone-Keeps e l r.sound; at = r.at }
step-IsRight (performs w e l k) r =
    let a = perform-Keeps w k e l r.sound in
    let same = see_all-SameFacts (perform w k e).1 l in
    let p = r.at in record { sound = idle-IsSound a; at = (refl, same.1 ∙ p.1) }

-- A stop was put off before.
abbrev pub marked : System → System
marked s = record s { outside = record s.outside { stop_deferred = true } }

see-marked :
    (x : Effect) (l : Outside)
    → record (see x l) { stop_deferred = true } ≡ see x (record l { stop_deferred = true })
see-marked (told status_none) l = refl
see-marked (told session_begin) l = refl
see-marked (told session_end) l = refl
see-marked (told engine_on) l = refl
see-marked (told engine_off) l = refl
see-marked wakelock_acquired l = refl
see-marked x l = refl

see_all-marked :
    (xs : List Effect) (l : Outside)
    → record (see_all xs l) { stop_deferred = true }
      ≡ see_all xs (record l { stop_deferred = true })
see_all-marked [] l = refl
see_all-marked (x ∷ xs) l = see_all-marked xs (see x l) ∙ ap (see_all xs) (see-marked x l)

step-marked : {s t : System} → Step s t → Step (marked s) (marked t)
step-marked (calls s c) =
    subst (λ l. Step (marked s) (record s { engine = (op_of c s.engine).0; outside = l }))
      (sym (see_all-marked (op_of c s.engine).1 s.outside)) (calls (marked s) c)
step-marked (sleeps e l h) = sleeps e (record l { stop_deferred = true }) h
step-marked (wakes e l h) = wakes e (record l { stop_deferred = true }) h
step-marked (takes e l h n) = takes e (record l { stop_deferred = true }) h n
step-marked (quits e l h) = quits e (record l { stop_deferred = true }) h
step-marked (quits_ready e l h) = quits_ready e (record l { stop_deferred = true }) h
step-marked (joins e l) = joins e (record l { stop_deferred = true })
step-marked (performs w e l k) =
    subst
      (λ m.
        Step
          (record { engine = e; outside = record l { stop_deferred = true }; thread = working k })
          (record {
            engine = (perform w k e).0;
            outside = record m { working = false };
            thread = ready;
          }))
      (sym (see_all-marked (perform w k e).1 l))
      (performs w e (record l { stop_deferred = true }) k)

pub run-marked : {s t : System} → Run s t → Run (marked s) (marked t)
run-marked here = here
run-marked (next step run) = next (step-marked step) (run-marked run)

pub marked-IsRight :
    {s : System} → IsRight s → s.engine.stop_request_pending ≡ true → IsRight (marked s)
marked-IsRight r h = record { sound = stop-IsSound r.sound h; at = r.at }

pub run-IsRight : {s t : System} → Run s t → IsRight s → IsRight t
run-IsRight here r = r
run-IsRight (next step run) r = run-IsRight run (step-IsRight step r)

-- `b` wherever `a`, as a test.
abbrev pub implies : Bool → Bool → Bool
implies a b = not a || b
