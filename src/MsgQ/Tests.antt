-- ===== src/MsgQ/Tests.antt =====
-- The theorems on gps/utils/msg_q.c at concrete queues, over the list of gps/utils/linked_list.c.
use android_device_generic_m.Base.{
  ◌<◌, ◌-◌, ◌≡◌, refl, false, none, some, [], ◌∷◌, arith, ◌==◌, if◌then◌else◌, inr,
}
use android_device_generic_m.Store.{
  Heap, element, update, list_state, load, load_list, free_cell, set_next,
}
use android_device_generic_m.LinkedList.Chain.{cell_at}
use android_device_generic_m.LinkedList.Messages.{Messages, linked_messages}
use android_device_generic_m.LinkedList.{linked_list_add, linked_list_remove, linked_list_empty}
use android_device_generic_m.MsgQ.{rcv_test, success, msg_q_snd}
use android_device_generic_m.MsgQ.System.{Sys, send, resume, sent, received, step, with_threads}
use android_device_generic_m.MsgQ.Spec.{Spec, spec_step}
use android_device_generic_m.MsgQ.Refine
use android_device_generic_m.MsgQ.Refine.{Abstracts, Agree}
use android_device_generic_m.MsgQ.Wakeups.{Live}
use android_device_generic_m.MsgQ.Runs
use android_device_generic_m.MsgQ.Runs.{Run, here, next, After}

abbrev bare : Heap
bare = record {
  cell = λ a. none;
  lists = λ a. if a == 100 then some (list_state 0 0) else none;
  calls = [];
}

abbrev fresh_sys : Sys
fresh_sys = record {
  heap = bare;
  q = record { msg_list = 100; unblocked = false };
  asleep = 1;
  awake = 0;
}

abbrev fresh_spec : Spec
fresh_spec = record { msgs = []; unblocked = false; asleep = 1; awake = 0 }

abbrev busy_spec : Spec
busy_spec = record { msgs = (50, 0) ∷ []; unblocked = false; asleep = 1; awake = 1 }

bare-Messages : Messages bare 100 []
bare-Messages = record {
  cells = [];
  list = record { handle = omega arith; header = refl; chain = tt };
  view = refl;
}

fresh-Abstracts : Abstracts linked_messages fresh_sys fresh_spec
fresh-Abstracts = record { msgs = bare-Messages; unblocked = refl; asleep = refl; awake = refl }

fresh-Live : Live fresh_spec
fresh-Live = record { no_lost = inr (omega arith); quiet = λ e. cc }

-- A send to the one sleeping thread.
step-Agree_example :
    Agree linked_messages
      (step linked_messages (send 1 50 0) fresh_sys)
      (spec_step (send 1 50 0) fresh_spec)
step-Agree_example =
    Refine.step-Agree linked_messages (send 1 50 0) fresh_sys fresh_spec fresh-Abstracts (λ n. refl)

-- One message, a thread asleep and another on its way.
abbrev busy_sys : Sys
busy_sys = record {
  heap = record {
    cell = λ a. if a == 1 then some (element 0 0 50 0) else none;
    lists = λ a. if a == 100 then some (list_state 1 1) else none;
    calls = [];
  };
  q = record { msg_list = 100; unblocked = false };
  asleep = 1;
  awake = 1;
}

busy-Messages : Messages busy_sys.heap 100 ((50, 0) ∷ [])
busy-Messages = record {
  cells = cell_at 1 50 0 ∷ [];
  list = record { handle = omega arith; header = refl; chain = (omega arith, refl, refl, tt) };
  view = refl;
}

busy-Abstracts : Abstracts linked_messages busy_sys busy_spec
busy-Abstracts = record { msgs = busy-Messages; unblocked = refl; asleep = refl; awake = refl }

delivered_next_example :
    (0 < busy_spec.awake)
    × Agree linked_messages (step linked_messages resume busy_sys) (
        some
          (received success (some 50), record busy_spec { msgs = []; awake = busy_spec.awake - 1 }))
delivered_next_example =
    Runs.delivered_next linked_messages busy_sys busy_spec [] (50, 0) busy-Abstracts
      (record { no_lost = inr (omega arith); quiet = λ e. cc }) refl (omega arith)

-- A send, and the thread that it wakes.
abbrev sent_heap : Heap
sent_heap = record {
  cell = update (update bare.cell 1 (some (element 0 0 50 0))) 1 (some (element 0 0 50 0));
  lists = update (update bare.lists 100 (some (list_state 1 0))) 100 (some (list_state 1 1));
  calls = [];
}

abbrev read_heap : Heap
read_heap = record {
  cell = update sent_heap.cell 1 none;
  lists = update (update sent_heap.lists 100 (some (list_state 1 0))) 100 (some (list_state 0 0));
  calls = [];
}

send_step :
    step linked_messages (send 1 50 0) fresh_sys
    ≡ some (sent success, with_threads sent_heap fresh_sys.q (0, 1))
unfolding step msg_q_snd linked_list_add load_list set_next
send_step = refl

resume_step :
    step linked_messages resume (with_threads sent_heap fresh_sys.q (0, 1))
    ≡ some (received success (some 50), with_threads read_heap fresh_sys.q (0, 0))
unfolding step rcv_test linked_list_empty linked_list_remove load load_list free_cell
resume_step = refl

two_steps :
    Run linked_messages fresh_sys
      ((send 1 50 0, sent success) ∷ (resume, received success (some 50)) ∷ [])
      (with_threads read_heap fresh_sys.q (0, 0))
two_steps =
    next _ resume _ ((send 1 50 0, sent success) ∷ [])
      (next fresh_sys (send 1 50 0) (sent success) [] here (λ n. refl) send_step) (λ x. x)
      resume_step

Run-After_example :
    After linked_messages fresh_spec
      ((send 1 50 0, sent success) ∷ (resume, received success (some 50)) ∷ [])
      (with_threads read_heap fresh_sys.q (0, 0))
Run-After_example = Runs.Run-After linked_messages fresh_spec fresh-Abstracts fresh-Live two_steps
