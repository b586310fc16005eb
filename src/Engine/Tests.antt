-- ===== src/Engine/Tests.antt =====
-- The theorems on gps/libloc/libloc_api/loc_eng.cpp for an engine that was just initialised.
use android_device_generic_m.Base.{
  ℕ, ◌≡◌, refl, true, false, none, some, List, [], ◌∷◌, length, arith,
}
use android_device_generic_m.Ni.{NiData, resp_none}
use android_device_generic_m.Engine.{
  Engine, World, no_flags, engine_state, fix_session_state, status_report, status_none, mute_none,
  nmea_report, ◌>>◌,
}
use android_device_generic_m.Engine.Api.{loc_eng_stop}
use android_device_generic_m.Engine.Events.{loc_event_cb}
use android_device_generic_m.Engine.Thread.{Work, work_of, work_taken, perform}
use android_device_generic_m.Engine.Xtra.{qct_loc_eng_inject_xtra_data_one, inject_parts, parts_of}
use android_device_generic_m.Engine.Sound.{Outside, see_all}
use android_device_generic_m.Engine.System
use android_device_generic_m.Engine.System.{System, Call, event_comes, op_of, IsRight}
use android_device_generic_m.Engine.Stop
use android_device_generic_m.Engine.Parts

abbrev ni : NiData
ni = record {
  response_time_left = 0;
  user_response_received = false;
  notif_in_progress = false;
  loc_ni_request = none;
  current_notif_id = none;
  resp = resp_none;
  locked = false;
}

abbrev engine : Engine
engine = record {
  inited = true;
  last_status = status_none;
  ni = ni;
  client_handle = some 3;
  status_cb = true;
  agps_status_cb = true;
  ni_notify_cb = true;
  agps_status = none;
  agps_request_pending = false;
  stop_request_pending = false;
  download_request_cb = false;
  xtra_request_pending = false;
  xtra_data_for_injection = none;
  loc_event = none;
  client_opened = true;
  navigating = false;
  data_connection_is_on = false;
  apn_name = [];
  conn_handle = 0;
  engine_status = status_none;
  fix_session_status = status_none;
  aiding_data_for_deletion = false;
  deferred_action_thread = true;
  deferred_action_flags = no_flags;
  mute_session_state = mute_none;
}

abbrev outside : Outside
outside = record {
  engine = status_none;
  session = status_none;
  wakelock = false;
  signal = true;
  working = false;
  alive = true;
  stop_deferred = false;
}

abbrev world : World
world = record {
  start_fix_ok = true;
  stop_fix_ok = true;
  xtra_ok = λ t p. true;
  sizes = record { short_string = 256; long_string = 2048 };
  rand = 7;
  thread_made = true;
}

abbrev initial : System
initial = record { engine = engine; outside = outside; thread = System.ready }

-- A fix session begins, and the thread takes the event and processes it.
abbrev begins : Call
begins = event_comes 3 (status_report (fix_session_state true))

abbrev called : Engine
called = (op_of begins engine).0

abbrev seen : Outside
seen = see_all (op_of begins engine).1 outside

abbrev at_work : Outside
at_work = record seen { working = true }

abbrev final : System
final = record {
  engine = (perform world (work_of called) (work_taken called)).0;
  outside = record (see_all (perform world (work_of called) (work_taken called)).1 at_work) {
    working = false;
  };
  thread = System.ready;
}

-- The thread has taken the success of a data connection.
abbrev result : Work
result = record {
  loc_event = none;
  flags = record no_flags { agps_data_success = true };
  engine_status = status_none;
  aiding_data_for_deletion = false;
  status = none;
}

abbrev pending : Engine
pending = record engine { agps_request_pending = true }

deferred_stop_done_example :
    (Stop.stops (loc_eng_stop world pending).1 ≡ 0)
    × (Stop.stops (perform world result (loc_eng_stop world pending).0).1 ≡ 1)
deferred_stop_done_example = Stop.deferred_stop_done world world result pending refl refl refl refl

abbrev put_off : System
put_off = record {
  engine = record engine { stop_request_pending = true };
  outside = outside;
  thread = System.ready;
}

put_off-IsRight : IsRight put_off
put_off-IsRight = record {
  sound = record {
    heard = refl;
    engine = refl;
    session = refl;
    begun_on = λ h. cc;
    off_ended = λ h. cc;
    last_begun_on = λ h. cc;
    event_flagged = refl;
    agps_flagged = refl;
    held = λ p h. cc;
    woken = λ p h. cc;
    busy = λ h. cc;
    stuck = λ h. cc;
  };
  at = (refl, refl);
}

-- A new start comes between.
abbrev started : System
started = record put_off {
  engine = (op_of (System.start world) put_off.engine).0;
  outside = see_all (op_of (System.start world) put_off.engine).1 put_off.outside;
}

later_stops_example :
    (Stop.stops (perform world result started.engine).1 ≡ 1)
    × ((perform world result started.engine).0.stop_request_pending ≡ true)
later_stops_example =
    Stop.later_stops world result
      (System.next (System.calls put_off (System.start world)) System.here) put_off-IsRight refl
      refl refl

abbrev two_events : Engine
two_events =
    ((loc_event_cb 3 (status_report (engine_state true)) >> loc_event_cb 3 (nmea_report 5))
      engine).0

first_event_lost_example :
    ((work_of two_events).loc_event ≡ some (nmea_report 5))
    × ((work_of two_events).flags.event ≡ true)
    × ((work_taken two_events).loc_event ≡ none)
first_event_lost_example =
    Stop.first_event_lost 3 (status_report (engine_state true)) (nmea_report 5) engine tt tt refl
      refl

abbrev two_bytes : List ℕ
two_bytes = 1 ∷ 2 ∷ []

injected_whole_example :
    (Parts.joined (qct_loc_eng_inject_xtra_data_one (λ p. true) two_bytes).0 ≡ two_bytes)
    × Parts.Numbered 1 (qct_loc_eng_inject_xtra_data_one (λ p. true) two_bytes).0
    × (length (qct_loc_eng_inject_xtra_data_one (λ p. true) two_bytes).0
        ≡ parts_of (length two_bytes))
    × ((qct_loc_eng_inject_xtra_data_one (λ p. true) two_bytes).1 ≡ true)
unfolding qct_loc_eng_inject_xtra_data_one inject_parts
injected_whole_example =
    Parts.injected_whole (λ p. true) (λ p. true) two_bytes (omega arith) (omega arith) refl
      (λ q. refl)
