-- ===== src/MsgQ/Wakeups.antt =====
-- No wake-up is lost, and nobody waits on an unblocked queue (gps/utils/msg_q.c).
use android_device_generic_m.Base.{
  suc, ◌+◌, ◌-◌, ◌<◌, ◌≤◌, ◌≡◌, refl, ◌≢◌, ◌⊎◌, true, none, some, List, [], ◌∷◌, ◌++◌, arith,
  length, length-append, inl, inr,
}
use android_device_generic_m.MsgQ.{success}
use android_device_generic_m.MsgQ.Contract.{Message}
use android_device_generic_m.MsgQ.System.{
  Event, send, receive, spurious, resume, flush_all, unblock, Reply, sent, received, sleeps,
}
use android_device_generic_m.MsgQ.Spec.{
  Spec, spec_step, spec_take, spec_send, pop_oldest, pop_oldest-snoc, Oldest-cases,
}

-- If somebody sleeps, there is a thread on its way for each message; and nobody sleeps when unblocked.
pub record Live (p : Spec) : Type 0 where
  pub no_lost : (p.asleep ≡ 0) ⊎ (length p.msgs ≤ p.awake)
  pub quiet : p.unblocked ≡ true → p.asleep ≡ 0

spec_take-Live :
    (p : Spec) (r : Reply) (p' : Spec)
    → (length p.msgs ≤ suc p.awake) ⊎ (p.asleep ≡ 0)
    → (p.unblocked ≡ true → p.asleep ≡ 0)
    → spec_take p ≡ (r, p')
    → Live p'
unfolding spec_take
spec_take-Live p r p' v w h = elim (Oldest-cases p.msgs) [
  | inl e ↦
      let f : length p.msgs ≡ 0 = rw e in let g : pop_oldest p.msgs ≡ none = rw e in ground arith
  | inr (rest, m, o) ↦ let f = o.count in let g = o.pops in ground arith
]

-- Every step of the specification keeps this: while some thread sleeps there is an awake thread for
-- each queued message, and nobody sleeps on an unblocked queue.
pub spec_step-Live :
    (e : Event) (p : Spec) (r : Reply) (p' : Spec) → Live p → spec_step e p ≡ some (r, p') → Live p'
unfolding spec_step spec_send
spec_step-Live (send fresh obj dealloc) p r p' v h = ground arith
spec_step-Live receive p r p' v h = ground (arith, spec_take-Live p r p')
spec_step-Live spurious p r p' v h = ground arith
spec_step-Live resume p r p' v h =
    ground (arith, spec_take-Live (record p { awake = p.awake - 1 }) r p')
spec_step-Live (flush_all fuel) p r p' v h = ground arith
spec_step-Live unblock p r p' v h = ground arith

-- In a state with the invariant, where a message is queued and a thread asleep, some thread is awake,
-- and when it resumes it receives the oldest message and takes it off.
pub delivery :
    (p : Spec) (ms : List Message) (m : Message)
    → Live p
    → p.msgs ≡ ms ++ m ∷ []
    → 0 < p.asleep
    → (0 < p.awake)
      × (spec_step resume p
          ≡ some (received success (some m.0), record p { msgs = ms; awake = p.awake - 1 }))
unfolding spec_step spec_take
delivery p ms m v e s =
    let n : length p.msgs ≡ length ms + 1 = rw (e, length-append) refl in
    let g : pop_oldest p.msgs ≡ some (ms, m) = rw (e, pop_oldest-snoc) in
    (ground arith, ground arith)

-- On an unblocked queue no step puts a thread to sleep or accepts a message, and the queue stays
-- unblocked.
pub released_for_good :
    (e : Event) (p : Spec) (r : Reply) (p' : Spec)
    → p.unblocked ≡ true
    → spec_step e p ≡ some (r, p')
    → (p'.unblocked ≡ true) × (r ≢ sleeps) × (r ≢ sent success)
unfolding spec_step spec_send spec_take
released_for_good (send fresh obj dealloc) p r p' v h = (ground arith, ground arith, ground arith)
released_for_good receive p r p' v h = (ground arith, ground arith, ground arith)
released_for_good spurious p r p' v h = (ground arith, ground arith, ground arith)
released_for_good resume p r p' v h = (ground arith, ground arith, ground arith)
released_for_good (flush_all fuel) p r p' v h = (ground arith, ground arith, ground arith)
released_for_good unblock p r p' v h = (ground arith, ground arith, ground arith)
