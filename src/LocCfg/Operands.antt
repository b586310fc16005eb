-- ===== src/LocCfg/Operands.antt =====
-- gps/utils/loc_cfg.cpp: the name and the value that are read from a line of gps.conf.
use android_device_generic_m.Base.{
  ℕ, ◌≡◌, ◌≢◌, refl, ap, ◌∙◌, some, List, [], ◌∷◌, ◌++◌, ◌==◌, ne→not_eq, if◌then◌else◌,
}
use android_device_generic_m.Power.Governor.{NoNul}
use android_device_generic_m.LocCfg.Trim.{drop_leading, trimmed, trim_space-trimmed}
use android_device_generic_m.LocCfg.Conf.{
  Clib, skip_delims, token_of, behind_token, token_in, strtok_r, trimmed_token, value_token,
  name_token, operands,
}

-- No '=' is among the bytes.
abbrev pub NoDelim : List ℕ → Type 0
NoDelim [] = Unit
NoDelim (b ∷ bs) = (b ≢ 61) × NoDelim bs

-- A token as it is meant: without the spaces at its ends.
abbrev pub clean : Clib → List ℕ → List ℕ
clean c s = trimmed s (drop_leading c.isspace s) c.isspace

if-not : {A : Type 0} (b : ℕ) (x y : A) → b ≢ 61 → (if b == 61 then x else y) ≡ y
if-not b x y h = ap (λ t. if t then x else y) (ne→not_eq h)

token_of-plain : (s : List ℕ) → NoDelim s → token_of s ≡ s
token_of-plain [] h = refl
token_of-plain (b ∷ bs) (h, hs) =
    if-not b [] (b ∷ token_of bs) h ∙ ap (λ l. b ∷ l) (token_of-plain bs hs)

token_of-append : (s r : List ℕ) → NoDelim s → token_of (s ++ 61 ∷ r) ≡ s
token_of-append [] r h = refl
token_of-append (b ∷ bs) r (h, hs) =
    if-not b [] (b ∷ token_of (bs ++ 61 ∷ r)) h ∙ ap (λ l. b ∷ l) (token_of-append bs r hs)

behind_token-append : (s r : List ℕ) → NoDelim s → behind_token (s ++ 61 ∷ r) ≡ r
behind_token-append [] r h = refl
behind_token-append (b ∷ bs) r (h, hs) =
    if-not b (bs ++ 61 ∷ r) (behind_token (bs ++ 61 ∷ r)) h ∙ behind_token-append bs r hs

skip_delims-plain : (b : ℕ) (bs : List ℕ) → b ≢ 61 → skip_delims (b ∷ bs) ≡ b ∷ bs
skip_delims-plain b bs h = if-not b (skip_delims bs) (b ∷ bs) h

-- The first token of a line, and the second one.
strtok_r-name :
    (b : ℕ) (bs r : List ℕ) → NoDelim (b ∷ bs) → strtok_r (b ∷ (bs ++ 61 ∷ r)) ≡ some (b ∷ bs, r)
strtok_r-name b bs r h =
    ap token_in (skip_delims-plain b (bs ++ 61 ∷ r) h.0)
    ∙ rw (token_of-append (b ∷ bs) r h, behind_token-append (b ∷ bs) r h) refl

strtok_r-value :
    (c : Clib) (name : List ℕ) (b : ℕ) (bs : List ℕ)
    → NoDelim (b ∷ bs)
    → value_token c name (strtok_r (b ∷ bs)) ≡ some (trimmed_token c name, trimmed_token c (b ∷ bs))
strtok_r-value c name b bs h =
    ap (λ s. value_token c name (token_in s)) (skip_delims-plain b bs h.0)
    ∙ ap (λ t. some (trimmed_token c name, trimmed_token c t)) (token_of-plain (b ∷ bs) h)

-- A line of a name, '=' and a value, neither empty nor with another '=', has both as its operands, without
-- the spaces at their ends; a name or a value of spaces only is left as it is.
pub operands_trimmed :
    (c : Clib) (n : ℕ) (ns : List ℕ) (v : ℕ) (vs : List ℕ)
    → NoDelim (n ∷ ns)
    → NoDelim (v ∷ vs)
    → NoNul (n ∷ ns)
    → NoNul (v ∷ vs)
    → operands c ((n ∷ ns) ++ 61 ∷ (v ∷ vs)) ≡ some (clean c (n ∷ ns), clean c (v ∷ vs))
unfolding operands
operands_trimmed c n ns v vs dn dv kn kv =
    ap (name_token c) (strtok_r-name n ns (v ∷ vs) dn)
    ∙ strtok_r-value c (n ∷ ns) v vs dv
    ∙ rw (trim_space-trimmed c.isspace (n ∷ ns) [] kn, trim_space-trimmed c.isspace (v ∷ vs) [] kv)
        refl
