-- ===== src/LocCfg/Copying.antt =====
-- gps/utils/loc_cfg.cpp: the loop of trim_space once it has found the first non-space.
use android_device_generic_m.Base.{
  ℕ, zero, suc, ◌+◌, ◌<◌, ◌≡◌, ◌≢◌, refl, sym, ap, ◌∙◌, Bool, Option, none, some, List, [], ◌∷◌,
  ◌++◌, length, get_or, set, append_assoc, append-nil, length-append, ◌==◌, ne→not_eq,
  if◌then◌else◌, arith,
}
use android_device_generic_m.Power.Governor.{NoNul}
use android_device_generic_m.LocCfg.{Scan, scanned, scan_step, scan_all}

-- The bytes between the two pointers once the byte behind them is copied.
abbrev pub shift : List ℕ → ℕ → List ℕ
shift [] c = []
shift (m ∷ ms) c = ms ++ c ∷ []

abbrev pub shifts : List ℕ → List ℕ → List ℕ
shifts m [] = m
shifts m (c ∷ cs) = shifts (shift m c) cs

-- `last_nonspace` after the bytes are copied.
abbrev pub last_of : (isspace : ℕ → Bool) → (w : ℕ) → List ℕ → Option ℕ → Option ℕ
last_of isspace w [] l = l
last_of isspace w (c ∷ cs) l = last_of isspace (suc w) cs (if isspace c then l else some (suc w))

-- The loop with `w` written, `m` between the pointers and `r` unread.
abbrev pub copying : (first : ℕ) → (w m r : List ℕ) → Option ℕ → Scan
copying first w m r l = record {
  org_string = w ++ (m ++ r);
  scan_ptr = length w + length m;
  write_ptr = length w;
  first_nonspace = some first;
  last_nonspace = l;
}

-- The loop before it has found anything.
abbrev pub skipping : (p r : List ℕ) → Scan
skipping p r = record {
  org_string = p ++ r;
  scan_ptr = length p;
  write_ptr = 0;
  first_nonspace = none;
  last_nonspace = none;
}

pub get_or-append : (p : List ℕ) (c : ℕ) (r : List ℕ) → get_or (p ++ c ∷ r) (length p) 0 ≡ c
get_or-append [] c r = refl
get_or-append (x ∷ p) c r = get_or-append p c r

set-append : (w : List ℕ) (m : ℕ) (r : List ℕ) (c : ℕ) → set (w ++ m ∷ r) (length w) c ≡ w ++ c ∷ r
set-append [] m r c = refl
set-append (x ∷ w) m r c = ap (λ l. x ∷ l) (set-append w m r c)

pub snoc : (w : List ℕ) (c : ℕ) (r : List ℕ) → w ++ c ∷ r ≡ (w ++ c ∷ []) ++ r
snoc w c r = sym (append_assoc w (c ∷ []) r)

pub length-snoc : (w : List ℕ) (c : ℕ) → length (w ++ c ∷ []) ≡ suc (length w)
length-snoc w c = omega (arith, length-append w (c ∷ []))

set-shift :
    (w m : List ℕ) (c : ℕ) (r : List ℕ)
    → set (w ++ (m ++ c ∷ r)) (length w) c ≡ (w ++ c ∷ []) ++ (shift m c ++ r)
set-shift w [] c r = set-append w c r c ∙ snoc w c r
set-shift w (m ∷ ms) c r =
    set-append w m (ms ++ c ∷ r) c
    ∙ snoc w c (ms ++ c ∷ r)
    ∙ ap (λ l. (w ++ c ∷ []) ++ l) (snoc ms c r)

length-shift : (m : List ℕ) (c : ℕ) → length (shift m c) ≡ length m
length-shift [] c = refl
length-shift (m ∷ ms) c = length-snoc ms c

pub get_or-between :
    (w m : List ℕ) (c : ℕ) (r : List ℕ) → get_or (w ++ (m ++ c ∷ r)) (length w + length m) 0 ≡ c
get_or-between w m c r =
    ap (λ l. get_or l (length w + length m) 0) (sym (append_assoc w m (c ∷ r)))
    ∙ ap (λ i. get_or ((w ++ m) ++ c ∷ r) i 0) (sym (length-append w m))
    ∙ get_or-append (w ++ m) c r

pub scan_step-copying :
    (isspace : ℕ → Bool) (first : ℕ) (w m : List ℕ) (c : ℕ) (r : List ℕ) (l : Option ℕ)
    → scan_step isspace (copying first w m (c ∷ r) l)
      ≡ copying first (w ++ c ∷ []) (shift m c) r (if isspace c then l else some (suc (length w)))
scan_step-copying isspace first w m c r l =
    let e = get_or-between w m c r in
    let s = set-shift w m c r in
    let n = length-snoc w c in
    let a : suc (length w + length m) ≡ length (w ++ c ∷ []) + length (shift m c) =
      omega (arith, n, length-shift m c) in
    simp (e, s, n, a)

pub scan_all-more :
    (isspace : ℕ → Bool) (fuel : ℕ) (t : Scan)
    → scanned t ≢ 0
    → scan_all isspace (suc fuel) t ≡ scan_all isspace fuel (scan_step isspace t)
unfolding scan_all
scan_all-more isspace fuel t h =
    ap (λ b. if b then t else scan_all isspace fuel (scan_step isspace t)) (ne→not_eq h)

pub scan_all-stop :
    (isspace : ℕ → Bool) (fuel : ℕ) (t : Scan) → scanned t ≡ 0 → scan_all isspace (suc fuel) t ≡ t
unfolding scan_all
scan_all-stop isspace fuel t h =
    ap (λ c. if c == 0 then t else scan_all isspace fuel (scan_step isspace t)) h

-- The loop copies the rest of the string.
pub scan_all-copying :
    (isspace : ℕ → Bool) (first fuel : ℕ) (w m u t : List ℕ) (l : Option ℕ)
    → NoNul u
    → length u < fuel
    → scan_all isspace fuel (copying first w m (u ++ 0 ∷ t) l)
      ≡ copying first (w ++ u) (shifts m u) (0 ∷ t) (last_of isspace (length w) u l)
scan_all-copying isspace first zero w m u t l k h = absurd (omega arith)
scan_all-copying isspace first (suc fuel) w m [] t l k h =
    scan_all-stop isspace fuel (copying first w m (0 ∷ t) l) (get_or-between w m 0 t)
    ∙ ap (λ v. copying first v m (0 ∷ t) l) (sym (append-nil w))
scan_all-copying isspace first (suc fuel) w m (c ∷ u) t l (k, ks) h =
    let e = get_or-between w m c (u ++ 0 ∷ t) in
    let v = w ++ c ∷ [] in
    let n = if isspace c then l else some (suc (length w)) in
    scan_all-more isspace fuel (copying first w m (c ∷ (u ++ 0 ∷ t)) l) (λ z. k (sym e ∙ z))
    ∙ ap (scan_all isspace fuel) (scan_step-copying isspace first w m c (u ++ 0 ∷ t) l)
    ∙ scan_all-copying isspace first fuel v (shift m c) u t n ks (omega arith)
    ∙ ap (λ x. copying first x (shifts (shift m c) u) (0 ∷ t) (last_of isspace (length v) u n))
        (append_assoc w (c ∷ []) u)
    ∙ ap (λ i. copying first (w ++ c ∷ u) (shifts (shift m c) u) (0 ∷ t) (last_of isspace i u n))
        (length-snoc w c)
