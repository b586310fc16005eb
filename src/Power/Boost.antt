-- ===== src/Power/Boost.antt =====
-- power/power.c: the descriptors that are opened and closed.
use android_device_generic_m.Base.{
  ℕ, zero, suc, ◌+◌, ◌≡◌, refl, ap, Bool, true, false, Option, none, some, List, [], ◌∷◌, ◌++◌,
  ◌==◌, length, if◌then◌else◌, Bool-cases, inl, inr, arith,
}
use android_device_generic_m.Power.{
  Node, Event, stored, opened, pulsed, closed, World, Power, sysfs_read, sysfs_write, write_to,
  governor_read, get_scaling_governor, configure_governor, starts_with, ondemand, interactive,
  boost_opened, governor_known, boost_kept, boostpulse_open, Hint, interaction, cpu_boost, vsync,
  other_hint, pulse, boost, and_then, duration_of, cm_power_hint, strip, has_boost,
}

abbrev pub one_if : Bool → ℕ
one_if true = 1
one_if false = 0

-- How often a descriptor is opened and closed, and whether the module holds it.
abbrev pub opens : (fd : ℕ) → List Event → ℕ
opens fd [] = 0
opens fd (opened g ∷ es) = one_if (g == fd) + opens fd es
opens fd (stored n v ∷ es) = opens fd es
opens fd (pulsed g d ∷ es) = opens fd es
opens fd (closed g ∷ es) = opens fd es

abbrev pub closes : (fd : ℕ) → List Event → ℕ
closes fd [] = 0
closes fd (opened g ∷ es) = closes fd es
closes fd (stored n v ∷ es) = closes fd es
closes fd (pulsed g d ∷ es) = closes fd es
closes fd (closed g ∷ es) = one_if (g == fd) + closes fd es

abbrev pub held : (fd : ℕ) → Option ℕ → ℕ
held fd none = 0
held fd (some g) = one_if (g == fd)

-- Opened and held before is closed and held after.
abbrev pub Balanced : (fd : ℕ) → Power → Power × List Event → Type 0
Balanced fd cm (cm', es) =
    opens fd es + held fd cm.boostpulse_fd ≡ closes fd es + held fd cm'.boostpulse_fd

module _ (fd : ℕ) where
  opens-append : (es fs : List Event) → opens fd (es ++ fs) ≡ opens fd es + opens fd fs
  opens-append [] fs = omega arith
  opens-append (opened g ∷ es) fs = omega (arith, opens-append es fs)
  opens-append (stored n v ∷ es) fs = opens-append es fs
  opens-append (pulsed g d ∷ es) fs = opens-append es fs
  opens-append (closed g ∷ es) fs = opens-append es fs

  closes-append : (es fs : List Event) → closes fd (es ++ fs) ≡ closes fd es + closes fd fs
  closes-append [] fs = omega arith
  closes-append (opened g ∷ es) fs = closes-append es fs
  closes-append (stored n v ∷ es) fs = closes-append es fs
  closes-append (pulsed g d ∷ es) fs = closes-append es fs
  closes-append (closed g ∷ es) fs = omega (arith, closes-append es fs)

  -- What is opened is closed.
  record Even (es : List Event) : Type 0 where
    even : opens fd es ≡ closes fd es

  Even-append : (es fs : List Event) → Even es → Even fs → Even (es ++ fs)
  Even-append es fs p q = record {
    even = omega (arith, opens-append es fs, closes-append es fs, p.even, q.even);
  }

  if-Even : (b : Bool) (es fs : List Event) → Even es → Even fs → Even (if b then es else fs)
  if-Even true es fs p q = p
  if-Even false es fs p q = q

  write_to-Even : (o : Option ℕ) (ok : Bool) (n : Node) (v : ℕ) → Even (write_to o ok n v)
  write_to-Even none ok n v = record { even = refl }
  write_to-Even (some g) true n v = record { even = refl }
  write_to-Even (some g) false n v = record { even = refl }

  write-Even : (w : World) (n : Node) (v : ℕ) → Even (sysfs_write w n v)
  unfolding sysfs_write
  write-Even w n v = write_to-Even (w.node_fd n) (w.node_ok n) n v

  read-Even : (o : Option ℕ) (file : Option (List ℕ)) (n : ℕ) → Even (sysfs_read o file n).1
  unfolding sysfs_read
  read-Even none file n = record { even = refl }
  read-Even (some g) file n = record { even = refl }

  configure-Even : (w : World) (g : List ℕ) → Even (configure_governor w g)
  unfolding configure_governor
  configure-Even w g =
      let s = write-Even w in
      if-Even (starts_with ondemand g) _ _
        (Even-append _ _ (s _ _)
          (Even-append _ _ (s _ _) (Even-append _ _ (s _ _) (Even-append _ _ (s _ _) (s _ _)))))
        (if-Even (starts_with interactive g) _ _
          (Even-append _ _ (s _ _)
            (Even-append _ _ (s _ _) (Even-append _ _ (s _ _) (Even-append _ _ (s _ _) (s _ _)))))
          (record { even = refl }))

  opened-Balanced :
      (w : World) (cm : Power) (o : Option ℕ)
      → cm.boostpulse_fd ≡ none
      → Balanced fd cm (boost_opened w cm o)
  unfolding boost_opened
  opened-Balanced w cm none e =
      let h : held fd cm.boostpulse_fd ≡ 0 = ap (held fd) e in omega (arith, h)
  opened-Balanced w cm (some zero) e =
      let h : held fd cm.boostpulse_fd ≡ 0 = ap (held fd) e in omega (arith, h)
  opened-Balanced w cm (some (suc g)) e =
      let h : held fd cm.boostpulse_fd ≡ 0 = ap (held fd) e in
      let q = configure-Even w cm.governor in omega (arith, q.even, h)

  and_then-Balanced :
      (es : List Event) (cm : Power) (r : Power × List Event)
      → Even es
      → Balanced fd cm r
      → Balanced fd cm (and_then es r)
  and_then-Balanced es cm (cm', fs) q b =
      omega (arith, opens-append es fs, closes-append es fs, q.even, b)

  known-Balanced :
      (w : World) (cm : Power) (o : Option (List ℕ)) (es : List Event)
      → cm.boostpulse_fd ≡ none
      → Even es
      → Balanced fd cm (governor_known w (governor_read cm (o, es)))
  known-Balanced w cm none es e q = omega (arith, q.even)
  known-Balanced w cm (some g) es e q =
      let named = record cm { governor = strip (length g) g } in
      let file = if has_boost named.governor then w.boost_file else none in
      and_then-Balanced es named (boost_opened w named file) q (opened-Balanced w named file e)

  kept-Balanced :
      (w : World) (cm : Power) (o : Option ℕ)
      → cm.boostpulse_fd ≡ o
      → Balanced fd cm (boost_kept w cm o)
  unfolding get_scaling_governor
  kept-Balanced w cm none e =
      let r = sysfs_read w.governor_fd w.governor_file 20 in
      known-Balanced w cm r.0 r.1 e (read-Even w.governor_fd w.governor_file 20)
  kept-Balanced w cm (some g) e = refl

  open-Balanced : (w : World) (cm : Power) → Balanced fd cm (boostpulse_open w cm)
  unfolding boostpulse_open
  open-Balanced w cm = kept-Balanced w cm cm.boostpulse_fd refl

  pulse-Balanced :
      (w : World) (d : ℕ) (cm : Power) (o : Option ℕ)
      → cm.boostpulse_fd ≡ o
      → Balanced fd cm (pulse w d cm o)
  pulse-Balanced w d cm none e = refl
  pulse-Balanced w d cm (some g) e = elim (Bool-cases w.pulse_ok) [
    | inl y ↦ simp y
    | inr n ↦
        let h : held fd cm.boostpulse_fd ≡ one_if (g == fd) = ap (held fd) e in
        simp n (omega (arith, h))
  ]

  boost-Balanced :
      (w : World) (d : ℕ) (cm : Power) (r : Power × List Event)
      → Balanced fd cm r
      → Balanced fd cm (boost w d r)
  boost-Balanced w d cm (cm', es) b =
      let p = pulse-Balanced w d cm' cm'.boostpulse_fd refl in
      let fs = (pulse w d cm' cm'.boostpulse_fd).1 in
      omega (arith, opens-append es fs, closes-append es fs, b, p)

-- In every hint and for every descriptor: as often as it is opened, and once more where the module holds
-- it before, it is closed, and once more where the module holds it after. None is lost, closed twice or
-- kept unopened, those of the governor's files included.
pub hint-Balanced :
    (w : World) (h : Hint) (hint_data : Option ℕ) (cm : Power) (fd : ℕ)
    → Balanced fd cm (cm_power_hint w h hint_data cm)
unfolding cm_power_hint
hint-Balanced w interaction a cm fd =
    boost-Balanced fd w (duration_of a) cm (boostpulse_open w cm) (open-Balanced fd w cm)
hint-Balanced w cpu_boost a cm fd =
    boost-Balanced fd w (duration_of a) cm (boostpulse_open w cm) (open-Balanced fd w cm)
hint-Balanced w vsync a cm fd = refl
hint-Balanced w other_hint a cm fd = refl
