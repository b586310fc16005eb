-- ===== src/MsgQ/Spec.antt =====
-- What a queue of gps/utils/msg_q.c promises: a list of messages, newest first, that is read from its
-- end, and a flag that ends all waiting for good.
use android_device_generic_m.Base.{
  ℕ, suc, length, ap, ◌⊎◌, inl, inr, ◌+◌, ◌-◌, ◌≡◌, refl, Bool, true, Option, none, some, List, [],
  ◌∷◌, ◌++◌, ◌==◌, if◌then◌else◌,
}
use android_device_generic_m.Store.{Ptr, null}
use android_device_generic_m.MsgQ.{
  one, all, success, failure_general, invalid_parameter, unavailable_resource,
}
use android_device_generic_m.MsgQ.Contract.{Message}
use android_device_generic_m.MsgQ.System.{
  Event, send, receive, spurious, resume, flush_all, unblock, Reply, sent, received, sleeps, woken,
  flushed, released, wake,
}

pub record Spec : Type 0 where
  pub msgs : List Message
  pub unblocked : Bool
  pub asleep : ℕ
  pub awake : ℕ

-- The oldest message, and the others.
unfoldable pub pop_oldest : List Message → Option (List Message × Message)
pop_oldest [] = none
pop_oldest (m ∷ ms) = elim (pop_oldest ms) [
  | none ↦ some ([], m)
  | some (rest, x) ↦ some (m ∷ rest, x)
]

pub pop_oldest-snoc : (ms : List Message) (m : Message) → pop_oldest (ms ++ m ∷ []) ≡ some (ms, m)
unfolding pop_oldest
pop_oldest-snoc [] m = refl
pop_oldest-snoc (x ∷ ms) m = rw (pop_oldest-snoc ms m)

-- A list is empty, or its last entry is the oldest message.
pub record Oldest (ms rest : List Message) (m : Message) : Type 0 where
  pub parts : ms ≡ rest ++ m ∷ []
  pub count : length ms ≡ suc (length rest)
  pub pops : pop_oldest ms ≡ some (rest, m)

pub Oldest-cases :
    (ms : List Message) → (ms ≡ []) ⊎ ((rest : List Message) × (m : Message) × Oldest ms rest m)
unfolding pop_oldest
Oldest-cases [] = inl refl
Oldest-cases (x ∷ ms) = elim (Oldest-cases ms) [
  | inl e ↦ inr ([], x, record { parts = ap (λ t. x ∷ t) e; count = rw e; pops = rw e })
  | inr (rest, m, o) ↦ inr (
    x ∷ rest,
    m,
    record { parts = ap (λ t. x ∷ t) o.parts; count = ap suc o.count; pops = rw o.pops },
  )
]

abbrev pub threads : ℕ × ℕ → Spec → Spec
threads (a, w) p = record p { asleep = a; awake = w }

-- A receiver at the test of its loop, given the threads without it.
unfoldable pub spec_take : Spec → Reply × Spec
unfolding pop_oldest
spec_take p = elim (pop_oldest p.msgs) [
  | none ↦
      if p.unblocked
      then (received unavailable_resource none, p)
      else (sleeps, record p { asleep = p.asleep + 1 })
  | some (rest, m) ↦ (received success (some m.0), record p { msgs = rest })
]

unfoldable pub spec_send : (fresh msg_obj dealloc : Ptr) → Spec → Reply × Spec
unfolding wake
spec_send fresh obj dealloc p =
    if obj == null
    then (sent invalid_parameter, p)
    else if p.unblocked
    then (sent unavailable_resource, p)
    else if fresh == null
    then (sent failure_general, threads (wake one (p.asleep, p.awake)) p)
    else (
      sent success,
      threads (wake one (p.asleep, p.awake)) (record p { msgs = (obj, dealloc) ∷ p.msgs }),
    )

unfoldable pub spec_step : Event → Spec → Option (Reply × Spec)
unfolding spec_send spec_take wake
spec_step (send fresh obj dealloc) p = some (spec_send fresh obj dealloc p)
spec_step receive p =
    if p.unblocked then some (received unavailable_resource none, p) else some (spec_take p)
spec_step spurious p =
    if p.asleep == 0
    then none
    else some (woken, record p { asleep = p.asleep - 1; awake = p.awake + 1 })
spec_step resume p =
    if p.awake == 0 then none else some (spec_take (record p { awake = p.awake - 1 }))
spec_step (flush_all fuel) p = some (flushed success, record p { msgs = [] })
spec_step unblock p =
    if p.unblocked
    then some (released unavailable_resource, p)
    else some
        (released success, threads (wake all (p.asleep, p.awake)) (record p { unblocked = true }))
