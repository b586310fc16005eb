-- ===== src/Power/Governor.antt =====
-- power/power.c: the name of the governor that get_scaling_governor keeps.
use android_device_generic_m.Base.{
  ℕ, zero, suc, ◌≤◌, ◌≡◌, ◌≢◌, refl, sym, ap, ◌∙◌, true, false, some, List, [], ◌∷◌, ◌++◌, length,
  append_assoc, append-nil, length-append, take, get_or, ne→not_eq, if◌then◌else◌, arith,
}
use android_device_generic_m.Power.{
  opened, closed, World, Power, c_string, sysfs_read, is_newline, strip, governor_read,
  get_scaling_governor,
}

abbrev pub AllNewlines : List ℕ → Type 0
AllNewlines [] = Unit
AllNewlines (c ∷ cs) = (is_newline c ≡ true) × AllNewlines cs

abbrev pub NoNul : List ℕ → Type 0
NoNul [] = Unit
NoNul (c ∷ cs) = (c ≢ 0) × NoNul cs

-- A name that does not end in a newline character.
pub data Bare : List ℕ → Type 0 where
  empty : Bare []
  ending : (r : List ℕ) (c : ℕ) → is_newline c ≡ false → Bare (r ++ c ∷ [])

get_or-last : (r : List ℕ) (c : ℕ) → get_or (r ++ c ∷ []) (length r) 0 ≡ c
get_or-last [] c = refl
get_or-last (x ∷ r) c = get_or-last r c

take-append : (r s : List ℕ) → take (length r) (r ++ s) ≡ r
take-append [] s = refl
take-append (x ∷ r) s = ap (λ l. x ∷ l) (take-append r s)

strip_last :
    (r : List ℕ) (c : ℕ)
    → strip (length (r ++ c ∷ [])) (r ++ c ∷ [])
      ≡ (if is_newline c then strip (length r) r else r ++ c ∷ [])
unfolding strip
strip_last r c =
    let n : length (r ++ c ∷ []) ≡ suc (length r) = omega (arith, length-append r (c ∷ [])) in
    simp (n, get_or-last r c, take-append r (c ∷ []))

strip_newlines :
    (s t : List ℕ) → AllNewlines t → strip (length (s ++ t)) (s ++ t) ≡ strip (length s) s
strip_newlines s [] k = ap (λ l. strip (length l) l) (append-nil s)
strip_newlines s (c ∷ t) (k, ks) =
    let e : s ++ c ∷ t ≡ (s ++ c ∷ []) ++ t = sym (append_assoc s (c ∷ []) t) in
    ap (λ l. strip (length l) l) e
    ∙ strip_newlines (s ++ c ∷ []) t ks
    ∙ strip_last s c
    ∙ ap (λ b. if b then strip (length s) s else s ++ c ∷ []) k

strip-Bare : (s : List ℕ) → Bare s → strip (length s) s ≡ s
unfolding strip
strip-Bare _ empty = refl
strip-Bare _ (ending r c k) =
    strip_last r c ∙ ap (λ b. if b then strip (length r) r else r ++ c ∷ []) k

take_all : (n : ℕ) (s : List ℕ) → length s ≤ n → take n s ≡ s
take_all zero [] h = refl
take_all zero (c ∷ s) h = absurd (omega arith)
take_all (suc n) [] h = refl
take_all (suc n) (c ∷ s) h = ap (λ l. c ∷ l) (take_all n s (omega arith))

c_string-NoNul : (s : List ℕ) → NoNul s → c_string s ≡ s
unfolding c_string
c_string-NoNul [] k = refl
c_string-NoNul (c ∷ s) (k, ks) = simp (ne→not_eq k) (ap (λ l. c ∷ l) (c_string-NoNul s ks))

-- When the governor file can be opened and has a name that does not end in a newline, followed by newline characters,
-- without a NUL and 19 bytes in all at most, get_scaling_governor succeeds and keeps exactly the name.
pub governor_name :
    (w : World) (cm : Power) (s t : List ℕ) (fd : ℕ)
    → w.governor_fd ≡ some fd
    → w.governor_file ≡ some (s ++ t)
    → NoNul (s ++ t)
    → length (s ++ t) ≤ 19
    → AllNewlines t
    → Bare s
    → get_scaling_governor w cm ≡ (true, record cm { governor = s }, opened fd ∷ (closed fd ∷ []))
unfolding get_scaling_governor sysfs_read
governor_name w cm s t fd opening file k short newlines bare =
    let name : strip (length (s ++ t)) (s ++ t) ≡ s =
      strip_newlines s t newlines ∙ strip-Bare s bare in
    let events = opened fd ∷ (closed fd ∷ []) in
    ap (λ o. governor_read cm (sysfs_read o w.governor_file 20)) opening
    ∙ ap (λ f. governor_read cm (sysfs_read (some fd) f 20)) file
    ∙ ap (λ l. governor_read cm (some (c_string l), events)) (take_all 19 (s ++ t) short)
    ∙ ap (λ l. governor_read cm (some l, events)) (c_string-NoNul (s ++ t) k)
    ∙ ap (λ l. (true, record cm { governor = l }, events)) name
