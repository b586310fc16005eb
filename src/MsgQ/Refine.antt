-- ===== src/MsgQ/Refine.antt =====
-- Every step of the threads on a queue of gps/utils/msg_q.c is the step that the specification takes.
use android_device_generic_m.Base.{
  ℕ, suc, ◌-◌, ◌<◌, ◌≡◌, refl, ◌≢◌, Bool, true, false, Option, none, some, List, [], ◌∷◌, ◌==◌,
  if◌then◌else◌, arith, length, ne→not_eq, Bool-cases, inl, inr,
}
use android_device_generic_m.Store.{
  Ptr, null, Heap, Outcome, Cmd, follow, pure, done, crash, spent, Returns,
}
use android_device_generic_m.MsgQ.{
  MsgQ, Progress, finished, unavailable_resource, rcv_test, msg_q_snd, msg_q_rcv, msg_q_flush,
  msg_q_unblock, convert_linked_list_err_type,
}
use android_device_generic_m.MsgQ.Contract.{Message, MessageList, is_nil}
use android_device_generic_m.MsgQ.System.{
  Sys, Event, send, receive, spurious, resume, flush_all, unblock, Reply, step, settle, turn,
}
use android_device_generic_m.MsgQ.Spec.{Spec, spec_step, spec_take, spec_send, Oldest-cases}
use mathlib.Core.Path.{subst}
use native.Mathlib.Decide.{ℕ_discrete as dec}

module _ (L : MessageList) where
  open L use {Holds}

  -- The specification's state is that of the threads and the list.
  pub record Abstracts (s : Sys) (p : Spec) : Type 0 where
    pub msgs : Holds s.heap s.q.msg_list p.msgs
    pub unblocked : s.q.unblocked ≡ p.unblocked
    pub asleep : s.asleep ≡ p.asleep
    pub awake : s.awake ≡ p.awake

  -- What the environment owes: the allocator returns free addresses, and a flush has enough rounds.
  abbrev pub Allowed : Event → Sys → Spec → Type 0
  Allowed (send fresh obj dealloc) s p = fresh ≢ null → s.heap.cell fresh ≡ none
  Allowed (flush_all fuel) s p = length p.msgs < fuel
  Allowed receive s p = Unit
  Allowed spurious s p = Unit
  Allowed resume s p = Unit
  Allowed unblock s p = Unit

  -- The same reply and matching states, or no step on either side.
  abbrev pub Agree : Option (Reply × Sys) → Option (Reply × Spec) → Type 0
  Agree none none = Unit
  Agree none (some y) = ⊥
  Agree (some x) none = ⊥
  Agree (some (r, s)) (some (r', p)) = (r ≡ r') × Abstracts s p

  -- A command that returns is a step with what its postcondition says.
  turn-Agree {ℓ κ} :
      {A : Type ℓ} {B : Type κ} {P : A → Heap → Type 0} (o : Outcome A) (c : A → Cmd B)
      (k : B → Heap → Reply × Sys) (y : Reply × Spec)
      → Returns P o
      → ((a : A) (h : Heap) → P a h → Agree (turn (c a h) k) (some y))
      → Agree (turn (follow o c) k) (some y)
  turn-Agree (done a h) c k y r f = f a h r
  turn-Agree crash c k y r f = r
  turn-Agree spent c k y r f = r

  if-Agree :
      (b : Bool) (c d : Cmd Progress) (h : Heap) (k : Progress → Heap → Reply × Sys)
      (y z : Option (Reply × Spec))
      → Agree (turn (c h) k) y
      → Agree (turn (d h) k) z
      → Agree (turn ((if b then c else d) h) k) (if b then y else z)
  if-Agree true c d h k y z p r = p
  if-Agree false c d h k y z p r = r

  not_nil : (ms : List Message) {n : ℕ} → length ms ≡ suc n → is_nil ms ≡ false
  not_nil [] e = absurd (omega arith)
  not_nil (m ∷ ms) e = refl

  module _ (q : MsgQ) (h : Heap) (ms : List Message) (a w : ℕ) where
    abbrev view : Spec
    view = record { msgs = ms; unblocked = q.unblocked; asleep = a; awake = w }

    take-Agree :
        Holds h q.msg_list ms → Agree (turn (rcv_test L q h) (settle q a w)) (some (spec_take view))
    unfolding rcv_test spec_take convert_linked_list_err_type
    take-Agree k = elim (Oldest-cases ms) [
      | inl e ↦ elim (Bool-cases q.unblocked) [
        | inl u ↦
            rw (L.empty_answer q.msg_list h ms k, e, u, L.remove_none q.msg_list h (rw e at k))
              (refl, record { msgs = k; unblocked = refl; asleep = refl; awake = refl })
        | inr u ↦
            rw (L.empty_answer q.msg_list h ms k, e, u)
              (refl, record { msgs = k; unblocked = refl; asleep = refl; awake = refl })
      ]
      | inr (rest, m, o) ↦
          rw (L.empty_answer q.msg_list h ms k, not_nil ms o.count, o.pops)
            (turn-Agree (L.remove q.msg_list true h) _ _ _
              (L.remove_oldest q.msg_list h rest m (rw o.parts at k))
              λ r g (e, hold, calls).
                rw e (refl, record { msgs = hold; unblocked = refl; asleep = refl; awake = refl }))
    ]

    send-Agree :
        (fresh obj dealloc : Ptr)
        → Holds h q.msg_list ms
        → (fresh ≢ null → h.cell fresh ≡ none)
        → Agree
            (step L (send fresh obj dealloc) (record { heap = h; q = q; asleep = a; awake = w }))
            (some (spec_send fresh obj dealloc view))
    unfolding step msg_q_snd spec_send convert_linked_list_err_type
    send-Agree fresh obj dealloc k ok = elim (dec obj null) [
      | yes e ↦ rw e (refl, record { msgs = k; unblocked = refl; asleep = refl; awake = refl })
      | no n ↦ elim (Bool-cases q.unblocked) [
        | inl u ↦
            rw (ne→not_eq n, u)
              (refl, record { msgs = k; unblocked = refl; asleep = refl; awake = refl })
        | inr u ↦ elim (dec fresh null) [
          | yes e ↦
              rw (ne→not_eq n, u, e, L.add_full q.msg_list obj dealloc h ms n k)
                (refl, record { msgs = k; unblocked = refl; asleep = refl; awake = refl })
          | no f ↦
              rw (ne→not_eq n, u, ne→not_eq f)
                (turn-Agree (L.add fresh q.msg_list obj dealloc h) _ _ _
                  (L.add_front fresh q.msg_list obj dealloc h ms f (ok f) n k)
                  λ r g (e, hold, calls).
                    rw e
                      (refl, record { msgs = hold; unblocked = refl; asleep = refl; awake = refl }))
        ]
      ]
    ]

    abbrev sys : Sys
    sys = record { heap = h; q = q; asleep = a; awake = w }

    receive-Agree : Holds h q.msg_list ms → Agree (step L receive sys) (spec_step receive view)
    unfolding step msg_q_rcv spec_step
    receive-Agree k =
        if-Agree q.unblocked (pure (finished unavailable_resource none)) (rcv_test L q) h _ _ _
          (refl, record { msgs = k; unblocked = refl; asleep = refl; awake = refl }) (take-Agree k)

    flush-Agree :
        (fuel : ℕ)
        → Holds h q.msg_list ms
        → length ms < fuel
        → Agree (step L (flush_all fuel) sys) (spec_step (flush_all fuel) view)
    unfolding step msg_q_flush spec_step convert_linked_list_err_type
    flush-Agree fuel k f =
        turn-Agree (L.flush fuel q.msg_list h) _ _ _ (L.flush_all fuel q.msg_list h ms f k)
          λ r g (e, hold, calls).
            rw e (refl, record { msgs = hold; unblocked = refl; asleep = refl; awake = refl })

    unblock-Agree : Holds h q.msg_list ms → Agree (step L unblock sys) (spec_step unblock view)
    unfolding step msg_q_unblock spec_step
    unblock-Agree k = elim (Bool-cases q.unblocked) [
      | inl u ↦ simp u (refl, record { msgs = k; unblocked = u; asleep = refl; awake = refl })
      | inr u ↦ simp u (refl, record { msgs = k; unblocked = refl; asleep = refl; awake = refl })
    ]

    spurious-Agree : Holds h q.msg_list ms → Agree (step L spurious sys) (spec_step spurious view)
    unfolding step spec_step
    spurious-Agree k = elim (Bool-cases (a == 0)) [
      | inl u ↦ rw u tt
      | inr u ↦ rw u (refl, record { msgs = k; unblocked = refl; asleep = refl; awake = refl })
    ]

  resume-Agree :
      (q : MsgQ) (h : Heap) (ms : List Message) (a w : ℕ)
      → Holds h q.msg_list ms
      → Agree (step L resume (sys q h ms a w)) (spec_step resume (view q h ms a w))
  unfolding step spec_step
  resume-Agree q h ms a w k = elim (Bool-cases (w == 0)) [
    | inl u ↦ rw u tt
    | inr u ↦ rw u (take-Agree q h ms a (w - 1) k)
  ]

  -- What the specification sees of a state.
  abbrev seen : Sys → Spec → Spec
  seen s p = view s.q s.heap p.msgs s.asleep s.awake

  seen_lem : (s : Sys) (p : Spec) → Abstracts s p → seen s p ≡ p
  seen_lem s p r = λ i. record {
    msgs = p.msgs;
    unblocked = r.unblocked i;
    asleep = r.asleep i;
    awake = r.awake i;
  }

  seen-Agree :
      (e : Event) (s : Sys) (p : Spec)
      → Abstracts s p
      → Allowed e s p
      → Agree (step L e s) (spec_step e (seen s p))
  unfolding step spec_step
  seen-Agree (send fresh obj dealloc) s p r ok =
      send-Agree s.q s.heap p.msgs s.asleep s.awake fresh obj dealloc r.msgs ok
  seen-Agree receive s p r ok = receive-Agree s.q s.heap p.msgs s.asleep s.awake r.msgs
  seen-Agree spurious s p r ok = spurious-Agree s.q s.heap p.msgs s.asleep s.awake r.msgs
  seen-Agree resume s p r ok = resume-Agree s.q s.heap p.msgs s.asleep s.awake r.msgs
  seen-Agree (flush_all fuel) s p r ok =
      flush-Agree s.q s.heap p.msgs s.asleep s.awake fuel r.msgs ok
  seen-Agree unblock s p r ok = unblock-Agree s.q s.heap p.msgs s.asleep s.awake r.msgs

  -- On related states, and for an event whose memory is fresh and whose fuel is enough, a step of the
  -- threads and the list gives the reply of the specification's step, and related states again.
  pub step-Agree :
      (e : Event) (s : Sys) (p : Spec)
      → Abstracts s p
      → Allowed e s p
      → Agree (step L e s) (spec_step e p)
  step-Agree e s p r ok =
      subst (λ z. Agree (step L e s) (spec_step e z)) (seen_lem s p r) (seen-Agree e s p r ok)
