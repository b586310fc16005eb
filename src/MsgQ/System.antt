-- ===== src/MsgQ/System.antt =====
-- The threads that share a queue of gps/utils/msg_q.c, as a step function over the calls that they
-- make and the wake-ups that they get.
use android_device_generic_m.Base.{ℕ, ◌+◌, ◌-◌, true, Option, none, some, ◌==◌, if◌then◌else◌}
use android_device_generic_m.Store.{Ptr, Heap, Outcome, done, crash, spent}
use android_device_generic_m.MsgQ.{
  MsgErr, MsgQ, Signal, silent, one, all, Progress, finished, waiting, msg_q_snd, msg_q_rcv,
  rcv_test, msg_q_flush, msg_q_unblock,
}
use android_device_generic_m.MsgQ.Contract.{MessageList}

-- `asleep` threads wait for a wake-up in pthread_cond_wait; `awake` ones have got it and are to take
-- the mutex again.
pub record Sys : Type 0 where
  pub heap : Heap
  pub q : MsgQ
  pub asleep : ℕ
  pub awake : ℕ

-- A call by some thread, a wake-up without a signal, or the return of one thread from the wait.
pub data Event : Type 0 where
  send : (fresh msg_obj dealloc : Ptr) → Event
  receive : Event
  spurious : Event
  resume : Event
  flush_all : (fuel : ℕ) → Event
  unblock : Event

pub data Reply : Type 0 where
  sent : MsgErr → Reply
  received : MsgErr → Option Ptr → Reply
  sleeps : Reply
  woken : Reply
  flushed : MsgErr → Reply
  released : MsgErr → Reply

-- pthread_cond_signal wakes one waiting thread, pthread_cond_broadcast all of them.
unfoldable pub wake : Signal → ℕ × ℕ → ℕ × ℕ
wake silent p = p
wake one (asleep, awake) = if asleep == 0 then (0, awake) else (asleep - 1, awake + 1)
wake all (asleep, awake) = (0, awake + asleep)

abbrev pub with_threads : Heap → MsgQ → ℕ × ℕ → Sys
with_threads h q (a, w) = record { heap = h; q = q; asleep = a; awake = w }

-- What a receive leaves, given the threads without it.
abbrev pub settle : MsgQ → ℕ → ℕ → Progress → Heap → Reply × Sys
settle q a w (finished r out) h = (received r out, with_threads h q (a, w))
settle q a w waiting h = (sleeps, with_threads h q (a + 1, w))

-- A crash, and a loop without fuel, have no next state.
abbrev pub turn {ℓ} : {A : Type ℓ} → Outcome A → (A → Heap → Reply × Sys) → Option (Reply × Sys)
turn (done a h) k = some (k a h)
turn crash k = none
turn spent k = none

abbrev pub released_queue : MsgErr × Option MsgQ × Signal → Sys → Option (Reply × Sys)
released_queue (r, none, g) s = none
released_queue (r, some q, g) s =
    some (released r, with_threads s.heap q (wake g (s.asleep, s.awake)))

module _ (L : MessageList) where
  unfoldable pub step : Event → Sys → Option (Reply × Sys)
  unfolding wake
  step (send fresh obj dealloc) s =
      turn (msg_q_snd L fresh (some s.q) obj dealloc s.heap)
        λ (r, g) h. (sent r, with_threads h s.q (wake g (s.asleep, s.awake)))
  step receive s = turn (msg_q_rcv L (some s.q) true s.heap) (settle s.q s.asleep s.awake)
  step spurious s =
      if s.asleep == 0
      then none
      else some (woken, record s { asleep = s.asleep - 1; awake = s.awake + 1 })
  step resume s =
      if s.awake == 0
      then none
      else turn (rcv_test L s.q s.heap) (settle s.q s.asleep (s.awake - 1))
  step (flush_all fuel) s =
      turn (msg_q_flush L fuel (some s.q) s.heap)
        λ r h. (flushed r, with_threads h s.q (s.asleep, s.awake))
  step unblock s = released_queue (msg_q_unblock (some s.q)) s
