-- ===== src/MsgQ/Runs.antt =====
-- Whole runs of the threads on a queue of gps/utils/msg_q.c.
use android_device_generic_m.Base.{
  ◌-◌, ◌<◌, ◌≡◌, refl, ap, ◌∙◌, ◌≢◌, Option, none, some, List, [], ◌∷◌, ◌++◌, append-nil,
  append_assoc, arith, inl, inr,
}
use android_device_generic_m.Store.{Ptr, null}
use android_device_generic_m.MsgQ.{MsgErr}
use android_device_generic_m.MsgQ.Contract.{Message, MessageList}
use android_device_generic_m.MsgQ.System.{
  Sys, Event, send, receive, spurious, resume, flush_all, unblock, Reply, sent, received, step,
}
use android_device_generic_m.MsgQ.Spec.{
  Spec, spec_step, pop_oldest, spec_take, spec_send, Oldest-cases,
}
use android_device_generic_m.MsgQ.Refine.{Abstracts, Allowed, Agree, step-Agree}
use android_device_generic_m.MsgQ.Wakeups.{delivery, Live, spec_step-Live}

-- The objects of a queue, the oldest first.
abbrev pub oldest_first : List Message → List Ptr
oldest_first [] = []
oldest_first (m ∷ ms) = oldest_first ms ++ m.0 ∷ []

-- The object that a call puts into the queue, and the one that it hands out.
abbrev pub accepted : Event → Reply → List Ptr
accepted (send fresh obj dealloc) (sent MsgErr.success) = obj ∷ []
accepted _ _ = []

abbrev pub delivered : Reply → List Ptr
delivered (received MsgErr.success (some d)) = d ∷ []
delivered _ = []

abbrev pub all_accepted : List (Event × Reply) → List Ptr
all_accepted [] = []
all_accepted ((e, r) ∷ t) = accepted e r ++ all_accepted t

abbrev pub all_delivered : List (Event × Reply) → List Ptr
all_delivered [] = []
all_delivered ((e, r) ∷ t) = delivered r ++ all_delivered t

-- The messages that a flush throws away are not accounted for.
abbrev pub IsFlush : Event → Type 0
IsFlush (flush_all fuel) = Unit
IsFlush _ = ⊥

oldest_first-snoc :
    (ms : List Message) (m : Message) → oldest_first (ms ++ m ∷ []) ≡ m.0 ∷ oldest_first ms
oldest_first-snoc [] m = refl
oldest_first-snoc (x ∷ ms) m = rw (oldest_first-snoc ms m)

abbrev Balance : Spec → Event → Reply → Spec → Type 0
Balance p e r p' = oldest_first p.msgs ++ accepted e r ≡ delivered r ++ oldest_first p'.msgs

take-Balance :
    (p : Spec) (r : Reply) (p' : Spec)
    → spec_take p ≡ (r, p')
    → oldest_first p.msgs ++ [] ≡ delivered r ++ oldest_first p'.msgs
unfolding spec_take
take-Balance p r p' h = elim (Oldest-cases p.msgs) [
  | inl e ↦
      let f : pop_oldest p.msgs ≡ none = rw e in
      let g : oldest_first p.msgs ++ [] ≡ [] = rw e in ground arith
  | inr (rest, m, o) ↦
      let f = o.pops in
      let g : oldest_first p.msgs ≡ m.0 ∷ oldest_first rest =
        rw o.parts (oldest_first-snoc rest m) in
      let n = append-nil (oldest_first p.msgs) in ground arith
]

step-Balance :
    (e : Event) (p : Spec) (r : Reply) (p' : Spec)
    → ¬ IsFlush e
    → spec_step e p ≡ some (r, p')
    → Balance p e r p'
unfolding spec_step spec_send
step-Balance (send fresh obj dealloc) p r p' nf h = ground (arith, append-nil (oldest_first p.msgs))
step-Balance receive p r p' nf h =
    ground (arith, append-nil (oldest_first p.msgs), take-Balance p r p')
step-Balance spurious p r p' nf h = ground (arith, append-nil (oldest_first p.msgs))
step-Balance resume p r p' nf h =
    ground (
      arith,
      append-nil (oldest_first p.msgs),
      take-Balance (record p { awake = p.awake - 1 }) r p',
    )
step-Balance (flush_all fuel) p r p' nf h = absurd (nf tt)
step-Balance unblock p r p' nf h = ground (arith, append-nil (oldest_first p.msgs))

accepted-append :
    (t : List (Event × Reply)) (e : Event) (r : Reply)
    → all_accepted (t ++ (e, r) ∷ []) ≡ all_accepted t ++ accepted e r
accepted-append [] e r = append-nil (accepted e r)
accepted-append ((d, q) ∷ t) e r = rw (accepted-append t e r, append_assoc)

delivered-append :
    (t : List (Event × Reply)) (e : Event) (r : Reply)
    → all_delivered (t ++ (e, r) ∷ []) ≡ all_delivered t ++ delivered r
delivered-append [] e r = append-nil (delivered r)
delivered-append ((d, q) ∷ t) e r = rw (delivered-append t e r, append_assoc)

module _ (L : MessageList) where
  open L use {Holds}

  -- What the environment owes at a step of the threads.
  abbrev pub Fair : Event → Sys → Type 0
  Fair (send fresh obj dealloc) s = fresh ≢ null → s.heap.cell fresh ≡ none
  Fair e s = ¬ IsFlush e

  -- A run without flushes: the events with their replies, in order.
  pub data Run (s : Sys) : List (Event × Reply) → Sys → Type 0 where
    here : Run s [] s
    next :
        (s' : Sys) (e : Event) (r : Reply) (t : List (Event × Reply)) {s'' : Sys}
        → Run s t s'
        → Fair e s'
        → step L e s' ≡ some (r, s'')
        → Run s (t ++ (e, r) ∷ []) s''

  Fair-Allowed : (e : Event) (s : Sys) (p : Spec) → Fair e s → Allowed L e s p × (¬ IsFlush e)
  Fair-Allowed (send fresh obj dealloc) s p f = (f, λ x. x)
  Fair-Allowed receive s p f = (tt, f)
  Fair-Allowed spurious s p f = (tt, f)
  Fair-Allowed resume s p f = (tt, f)
  Fair-Allowed (flush_all fuel) s p f = absurd (f tt)
  Fair-Allowed unblock s p f = (tt, f)

  matching :
      (o : Option (Reply × Spec)) (r : Reply) (s : Sys)
      → Agree L (some (r, s)) o
      → (p : Spec) × (o ≡ some (r, p)) × Abstracts L s p
  matching none r s a = absurd a
  matching (some (r', p)) r s (e, a) = (p, rw e, a)

  -- The state after a run: what the list holds, no lost wake-up, and every object in its order.
  pub record After (p : Spec) (t : List (Event × Reply)) (s : Sys) : Type 0 where
    pub spec : Spec
    pub abstracts : Abstracts L s spec
    pub live : Live spec
    pub order : oldest_first p.msgs ++ all_accepted t ≡ all_delivered t ++ oldest_first spec.msgs

  -- After any run without a flush, from related states with the wakeup invariant, the states are
  -- related, the invariant holds, and the messages accepted are, in their order and behind those queued
  -- before, the messages delivered followed by those still queued.
  pub Run-After :
      {s s' : Sys} {t : List (Event × Reply)} (p : Spec)
      → Abstracts L s p
      → Live p
      → Run s t s'
      → After p t s'
  Run-After p a v here = record { spec = p; abstracts = a; live = v; order = append-nil _ }
  Run-After p a v (next s' e r t {s''} run f h) =
      let q = Run-After p a v run in
      let (ok, nf) = Fair-Allowed e s' q.spec f in
      let (p', g, b) =
        matching (spec_step e q.spec) r s'' (rw h at (step-Agree L e s' q.spec q.abstracts ok)) in
      record {
        spec = p';
        abstracts = b;
        live = spec_step-Live e q.spec r p' q.live g;
        order =
            simp (accepted-append t e r, ← append_assoc)
              (rw q.order (
                append_assoc (all_delivered t) (oldest_first q.spec.msgs) (accepted e r)
                ∙ ap (λ v. all_delivered t ++ v) (step-Balance e q.spec r p' nf g)
                ∙ simp (delivered-append t e r, append_assoc)));
      }

  -- In related states with the wakeup invariant, where a message is queued and a thread asleep, some
  -- thread is awake, and the return of its wait in msg_q_rcv hands it the oldest message, which leaves
  -- the queue.
  pub delivered_next :
      (s : Sys) (p : Spec) (ms : List Message) (m : Message)
      → Abstracts L s p
      → Live p
      → p.msgs ≡ ms ++ m ∷ []
      → 0 < p.asleep
      → (0 < p.awake)
        × Agree L
            (step L resume s)
            (some (received MsgErr.success (some m.0), record p { msgs = ms; awake = p.awake - 1 }))
  delivered_next s p ms m a v e k =
      let (awake, next_step) = delivery p ms m v e k in
      (awake, rw next_step at (step-Agree L resume s p a tt))
