-- ===== src/LocCfg/Trim.antt =====
-- gps/utils/loc_cfg.cpp: trim_space against the functions that drop spaces at one end of a list.
use android_device_generic_m.Base.{
  ℕ, zero, suc, ◌+◌, ◌<◌, ◌≡◌, ◌≢◌, inl, inr, refl, sym, ap, ◌∙◌, Bool, true, false, Option, none,
  some, List, [], ◌∷◌, ◌++◌, length, set, Bool-cases, append_assoc, append-nil, length-append,
  ne→not_eq, if◌then◌else◌, arith,
}
use android_device_generic_m.Power.{c_string}
use android_device_generic_m.Power.Governor.{NoNul}
use android_device_generic_m.LocCfg.{scan_step, scan_all, cut, finish, trim_space}
use android_device_generic_m.LocCfg.Copying.{
  shifts, last_of, copying, skipping, get_or-append, snoc, length-snoc, get_or-between,
  scan_all-more, scan_all-stop, scan_all-copying,
}

-- What a list is without the spaces that it begins with.
abbrev pub drop_leading : (isspace : ℕ → Bool) → List ℕ → List ℕ
drop_leading isspace [] = []
drop_leading isspace (c ∷ cs) = if isspace c then drop_leading isspace cs else c ∷ cs

-- A list with one more element before it, which stands unless it is a space with nothing behind it.
abbrev pub kept_before : (space : Bool) → (c : ℕ) → List ℕ → List ℕ
kept_before true c [] = []
kept_before false c [] = c ∷ []
kept_before space c (d ∷ ds) = c ∷ d ∷ ds

-- What a list is without the spaces that it ends in.
abbrev pub drop_trailing : (isspace : ℕ → Bool) → List ℕ → List ℕ
drop_trailing isspace [] = []
drop_trailing isspace (c ∷ cs) = kept_before (isspace c) c (drop_trailing isspace cs)

-- A string without its spaces at both ends; a string of spaces only stays as it is.
abbrev pub trimmed : (s : List ℕ) → (from_first : List ℕ) → (isspace : ℕ → Bool) → List ℕ
trimmed s [] isspace = s
trimmed s (c ∷ cs) isspace = drop_trailing isspace (c ∷ cs)

-- What the last pointer is, in terms of the string without its last spaces.
abbrev behind : (w : ℕ) → List ℕ → Option ℕ → Option ℕ
behind w [] l = l
behind w (c ∷ cs) l = some (w + suc (length cs))

behind-kept_before :
    (space : Bool) (w c : ℕ) (r : List ℕ) (l : Option ℕ)
    → behind (suc w) r (if space then l else some (suc w)) ≡ behind w (kept_before space c r) l
behind-kept_before true w c [] l = refl
behind-kept_before false w c [] l = ap some (omega arith)
behind-kept_before true w c (d ∷ ds) l = ap some (omega arith)
behind-kept_before false w c (d ∷ ds) l = ap some (omega arith)

last_of-drop_trailing :
    (isspace : ℕ → Bool) (w : ℕ) (u : List ℕ) (l : Option ℕ)
    → last_of isspace w u l ≡ behind w (drop_trailing isspace u) l
last_of-drop_trailing isspace w [] l = refl
last_of-drop_trailing isspace w (c ∷ u) l =
    last_of-drop_trailing isspace (suc w) u (if isspace c then l else some (suc w))
    ∙ behind-kept_before (isspace c) w c (drop_trailing isspace u) l

c_string-stop : (s : List ℕ) → c_string (0 ∷ s) ≡ []
unfolding c_string
c_string-stop s = refl

c_string-more : (c : ℕ) (r : List ℕ) → c ≢ 0 → c_string (c ∷ r) ≡ c ∷ c_string r
unfolding c_string
c_string-more c r h = ap (λ b. if b then [] else c ∷ c_string r) (ne→not_eq h)

c_string-append : (u t : List ℕ) → NoNul u → c_string (u ++ 0 ∷ t) ≡ u
c_string-append [] t k = c_string-stop t
c_string-append (c ∷ u) t (k, ks) =
    c_string-more c (u ++ 0 ∷ t) k ∙ ap (λ l. c ∷ l) (c_string-append u t ks)

-- The NUL that is written behind the last non-space ends the string there.
c_string-kept_before :
    (space : Bool) (c : ℕ) (v r : List ℕ)
    → c ≢ 0
    → c_string (set v (length r) 0) ≡ r
    → c_string (set (c ∷ v) (length (kept_before space c r)) 0) ≡ kept_before space c r
c_string-kept_before true c v [] k h = c_string-stop v
c_string-kept_before false c v [] k h = c_string-more c (set v 0 0) k ∙ ap (λ l. c ∷ l) h
c_string-kept_before true c v (d ∷ ds) k h =
    c_string-more c (set v (suc (length ds)) 0) k ∙ ap (λ l. c ∷ l) h
c_string-kept_before false c v (d ∷ ds) k h =
    c_string-more c (set v (suc (length ds)) 0) k ∙ ap (λ l. c ∷ l) h

c_string-cut :
    (isspace : ℕ → Bool) (u m t : List ℕ)
    → NoNul u
    → c_string (set (u ++ (m ++ 0 ∷ t)) (length (drop_trailing isspace u)) 0)
      ≡ drop_trailing isspace u
c_string-cut isspace [] [] t k = c_string-stop t
c_string-cut isspace [] (c ∷ m) t k = c_string-stop (m ++ 0 ∷ t)
c_string-cut isspace (c ∷ u) m t (k, ks) =
    c_string-kept_before (isspace c) c (u ++ (m ++ 0 ∷ t)) (drop_trailing isspace u) k
      (c_string-cut isspace u m t ks)

NoNul-snoc : (p : List ℕ) (c : ℕ) → NoNul p → c ≢ 0 → NoNul (p ++ c ∷ [])
NoNul-snoc [] c k h = (h, tt)
NoNul-snoc (x ∷ p) c (k, ks) h = (k, NoNul-snoc p c ks h)

-- The round at a space, and the one at the first byte that is none.
scan_step-space :
    (isspace : ℕ → Bool) (p : List ℕ) (c : ℕ) (r : List ℕ)
    → isspace c ≡ true
    → scan_step isspace (skipping p (c ∷ r)) ≡ skipping (p ++ c ∷ []) r
scan_step-space isspace p c r e = simp (get_or-append p c r, e, sym (snoc p c r), length-snoc p c)

scan_step-first :
    (isspace : ℕ → Bool) (p : List ℕ) (c : ℕ) (r : List ℕ)
    → isspace c ≡ false
    → scan_step isspace (skipping p (c ∷ r))
      ≡ scan_step isspace (copying (length p) [] p (c ∷ r) none)
scan_step-first isspace p c r e =
    let z : 0 + length p ≡ length p = omega arith in simp (get_or-append p c r, e, z)

behind-first :
    (space : Bool) (c : ℕ) (r : List ℕ)
    → space ≡ false
    → behind 0 (kept_before space c r) none ≡ some (length (kept_before space c r))
behind-first true c r e = absurd (ground arith)
behind-first false c [] e = refl
behind-first false c (d ∷ ds) e = ap some (omega arith)

finish-copying :
    (isspace : ℕ → Bool) (first : ℕ) (m : List ℕ) (c : ℕ) (u t : List ℕ)
    → isspace c ≡ false
    → NoNul (c ∷ u)
    → c_string (finish (copying first (c ∷ u) m (0 ∷ t) (last_of isspace 0 (c ∷ u) none)))
      ≡ drop_trailing isspace (c ∷ u)
finish-copying isspace first m c u t e k =
    ap (λ l. c_string (cut l (c ∷ (u ++ (m ++ 0 ∷ t)))))
      (last_of-drop_trailing isspace 0 (c ∷ u) none
        ∙ behind-first (isspace c) c (drop_trailing isspace u) e)
    ∙ c_string-cut isspace (c ∷ u) m t k

finish-skipping :
    (isspace : ℕ → Bool) (fuel : ℕ) (p u t : List ℕ)
    → NoNul p
    → NoNul u
    → length u < fuel
    → c_string (finish (scan_all isspace fuel (skipping p (u ++ 0 ∷ t))))
      ≡ trimmed (p ++ u) (drop_leading isspace u) isspace
finish-skipping isspace zero p u t kp k h = absurd (omega arith)
finish-skipping isspace (suc fuel) p [] t kp k h =
    ap (λ x. c_string (finish x))
      (scan_all-stop isspace fuel (skipping p (0 ∷ t)) (get_or-append p 0 t))
    ∙ c_string-append p t kp
    ∙ sym (append-nil p)
finish-skipping isspace (suc fuel) p (c ∷ u) t kp (k, ks) h =
    let r = u ++ 0 ∷ t in
    let more =
      scan_all-more isspace fuel (skipping p (c ∷ r)) (λ z. k (sym (get_or-append p c r) ∙ z)) in
    elim (Bool-cases (isspace c)) [
      | inl e ↦
          ap (λ x. c_string (finish x))
            (more ∙ ap (scan_all isspace fuel) (scan_step-space isspace p c r e))
          ∙ finish-skipping isspace fuel (p ++ c ∷ []) u t (NoNul-snoc p c kp k) ks (omega arith)
          ∙ ap (λ l. trimmed l (drop_leading isspace u) isspace) (append_assoc p (c ∷ []) u)
          ∙ ap (λ b. trimmed (p ++ c ∷ u) (if b then drop_leading isspace u else c ∷ u) isspace)
              (sym e)
      | inr e ↦
          let f = length p in
          let again =
            scan_all-more isspace fuel (copying f [] p (c ∷ r) none)
              (λ z. k (sym (get_or-between [] p c r) ∙ z)) in
          ap (λ x. c_string (finish x))
            (more
              ∙ ap (scan_all isspace fuel) (scan_step-first isspace p c r e)
              ∙ sym again
              ∙ scan_all-copying isspace f (suc fuel) [] p (c ∷ u) t none (k, ks) h)
          ∙ finish-copying isspace f (shifts p (c ∷ u)) c u t e (k, ks)
          ∙ ap (λ b. trimmed (p ++ c ∷ u) (if b then drop_leading isspace u else c ∷ u) isspace)
              (sym e)
    ]

-- Whatever isspace calls a space, and whatever follows the string in its buffer, trim_space leaves there
-- the string without the spaces it begins with and those it ends in; a string of spaces only is left as it is.
pub trim_space-trimmed :
    (isspace : ℕ → Bool) (s t : List ℕ)
    → NoNul s
    → c_string (trim_space isspace (s ++ 0 ∷ t)) ≡ trimmed s (drop_leading isspace s) isspace
unfolding trim_space
trim_space-trimmed isspace s t k =
    finish-skipping isspace (length (s ++ 0 ∷ t)) [] s t tt k
      (omega (arith, length-append s (0 ∷ t)))
