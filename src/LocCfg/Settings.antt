-- ===== src/LocCfg/Settings.antt =====
-- gps/utils/loc_cfg.cpp: which line, as fgets reads it, of gps.conf a parameter of type 'n' has its value from.
use android_device_generic_m.Base.{
  ℕ, ◌≡◌, refl, sym, ap, ◌∙◌, Bool, true, false, ◌&&◌, Option, none, some, List, [], ◌∷◌, ◌==◌,
  if◌then◌else◌, first_some, Bool-cases, inl, inr, arith,
}
use mathlib.Core.Bool.{false≢true}
use android_device_generic_m.LocCfg.Conf.{
  ParamType, number, LocParam, loc_parameter_table, loc_default_parameters, Clib, Reader, operands,
  int_of, double_of, same_string, typed, assign, set_operands, read_line, read_lines,
  loc_read_gps_conf,
}

-- The parameter of a name, the first of them.
abbrev pub field : (name : List ℕ) → List LocParam → List ℕ → Option ℕ
field n [] vs = none
field n (e ∷ es) [] = none
field n (e ∷ es) (v ∷ vs) =
    let rest = field n es vs in if same_string e.param_name n then some v else rest

abbrev pub type_in : (name : List ℕ) → List LocParam → Option ParamType
type_in n [] = none
type_in n (e ∷ es) =
    let rest = type_in n es in if same_string e.param_name n then some e.param_type else rest

and-false : (b : Bool) → (b && false) ≡ false
and-false true = refl
and-false false = refl

-- Digits of base 16 behind "0x" or "0X", and a decimal number else; '0' is 48 and 'x' 120.
abbrev pub number_meant : Clib → (value : List ℕ) → ℕ
number_meant c [] = c.atoi []
number_meant c (a ∷ []) = c.atoi (a ∷ [])
number_meant c (a ∷ (b ∷ digits)) =
    if a == 48 && c.tolower b == 120 then c.strtol16 digits else c.atoi (a ∷ (b ∷ digits))

-- The source reads the byte behind a value too, the NUL, which is no 'x' in lower case.
int_of-meant : (c : Clib) (value : List ℕ) → c.tolower 0 ≡ 0 → int_of c value ≡ number_meant c value
int_of-meant c [] h = refl
int_of-meant c (a ∷ []) h =
    let no_x : (a == 48 && c.tolower 0 == 120) ≡ false = rw h (and-false (a == 48)) in
    ap (λ b. if b then c.strtol16 [] else c.atoi (a ∷ [])) no_x
int_of-meant c (a ∷ (b ∷ digits)) h = refl

abbrev named_value : Clib → (n : List ℕ) → Option (List ℕ × List ℕ) → Option ℕ
named_value c n none = none
named_value c n (some (name, value)) =
    if same_string n name then some (number_meant c value) else none

-- The number that a line sets a name to.
abbrev pub setting : Clib → (name line : List ℕ) → Option ℕ
setting c n l = named_value c n (operands c l)

-- The number of the last line that has the name.
abbrev pub latest : Clib → (name : List ℕ) → List (List ℕ) → Option ℕ
latest c n [] = none
latest c n (l ∷ ls) = first_some (latest c n ls) (setting c n l)

abbrev pub set_to : Option ℕ → Option ℕ → Option ℕ
set_to new none = none
set_to none (some v) = some v
set_to (some i) (some v) = some i

==-eq : (a b : ℕ) → (a == b) ≡ true → a ≡ b
==-eq a b h = ground arith

and-both : (a b : Bool) → (a && b) ≡ true → (a ≡ true) × (b ≡ true)
and-both true b h = (refl, h)
and-both false b h = absurd (false≢true h)

same_string-eq : (xs ys : List ℕ) → same_string xs ys ≡ true → xs ≡ ys
same_string-eq [] [] h = refl
same_string-eq [] (y ∷ ys) h = ground arith
same_string-eq (x ∷ xs) [] h = ground arith
same_string-eq (x ∷ xs) (y ∷ ys) h =
    let (p, q) = and-both (x == y) (same_string xs ys) h in
    rw (==-eq x y p, same_string-eq xs ys q) refl

if-true {ℓ} : {A : Type ℓ} {b : Bool} (x y : A) → b ≡ true → (if b then x else y) ≡ x
if-true x y e = ap (λ b. if b then x else y) e

if-false {ℓ} : {A : Type ℓ} {b : Bool} (x y : A) → b ≡ false → (if b then x else y) ≡ y
if-false x y e = ap (λ b. if b then x else y) e

some-number : (ty : ParamType) → some ty ≡ some number → ty ≡ number
some-number ty h = ground arith

number_set :
    (b : Bool) (ty : ParamType) (i d v : ℕ)
    → ty ≡ number
    → some (if b then typed ty i d else v) ≡ set_to (if b then some i else none) (some v)
number_set true ty i d v e = ap (λ t. some (typed t i d)) e
number_set false ty i d v e = refl

field-assign :
    (n m : List ℕ) (i d : ℕ) (es : List LocParam) (vs : List ℕ)
    → type_in n es ≡ some number
    → field n es (assign m i d es vs)
      ≡ set_to (if same_string n m then some i else none) (field n es vs)
unfolding assign
field-assign n m i d [] vs h = refl
field-assign n m i d (e ∷ es) [] h = refl
field-assign n m i d (e ∷ es) (v ∷ vs) h =
    let new = if same_string e.param_name m then typed e.param_type i d else v in
    let asked = if same_string n m then some i else none in
    elim (Bool-cases (same_string e.param_name n)) [
      | inl p ↦
          if-true (some new) (field n es (assign m i d es vs)) p
          ∙ ap (λ k. some (if same_string k m then typed e.param_type i d else v))
              (same_string-eq e.param_name n p)
          ∙ number_set (same_string n m) e.param_type i d v
              (some-number e.param_type (sym (if-true (some e.param_type) (type_in n es) p) ∙ h))
          ∙ sym (ap (set_to asked) (if-true (some v) (field n es vs) p))
      | inr q ↦
          if-false (some new) (field n es (assign m i d es vs)) q
          ∙ field-assign n m i d es vs (sym (if-false (some e.param_type) (type_in n es) q) ∙ h)
          ∙ sym (ap (set_to asked) (if-false (some v) (field n es vs) q))
    ]

set_to-none : (o : Option ℕ) → o ≡ set_to none o
set_to-none none = refl
set_to-none (some v) = refl

set_to-set_to : (x y o : Option ℕ) → set_to x (set_to y o) ≡ set_to (first_some x y) o
set_to-set_to x y none = refl
set_to-set_to none none (some v) = refl
set_to-set_to none (some j) (some v) = refl
set_to-set_to (some i) none (some v) = refl
set_to-set_to (some i) (some j) (some v) = refl

operands_set :
    (c : Clib) (n : List ℕ) (es : List LocParam) (o : Option (List ℕ × List ℕ)) (r : Reader)
    → c.tolower 0 ≡ 0
    → type_in n es ≡ some number
    → field n es (set_operands c es o r).gps_conf.params
      ≡ set_to (named_value c n o) (field n es r.gps_conf.params)
operands_set c n es none r z h = set_to-none (field n es r.gps_conf.params)
operands_set c n es (some (name, value)) r z h =
    field-assign n name (int_of c value) (double_of c value r.param_double_value) es
      r.gps_conf.params h
    ∙ ap (λ v. set_to (if same_string n name then some v else none) (field n es r.gps_conf.params))
        (int_of-meant c value z)

read_lines_lem :
    (c : Clib) (n : List ℕ) (es : List LocParam) (ls : List (List ℕ)) (r : Reader)
    → c.tolower 0 ≡ 0
    → type_in n es ≡ some number
    → field n es (read_lines c es ls r).gps_conf.params
      ≡ set_to (latest c n ls) (field n es r.gps_conf.params)
unfolding read_lines read_line
read_lines_lem c n es [] r z h = set_to-none (field n es r.gps_conf.params)
read_lines_lem c n es (l ∷ ls) r z h =
    read_lines_lem c n es ls (read_line c es l r) z h
    ∙ ap (set_to (latest c n ls)) (operands_set c n es (operands c l) r z h)
    ∙ set_to-set_to (latest c n ls) (setting c n l) (field n es r.gps_conf.params)

-- For a name of the table of type 'n', and whatever pieces of at most 79 bytes fgets reads from the file: the
-- parameter holds the number of the last piece that has that name and a value, hexadecimal behind 0x and
-- decimal otherwise, and its default where there is none. The NUL is its own lower case.
pub last_line_counts :
    (c : Clib) (ls : List (List ℕ)) (n : List ℕ)
    → c.tolower 0 ≡ 0
    → type_in n loc_parameter_table ≡ some number
    → field n loc_parameter_table (loc_read_gps_conf c (some ls)).params
      ≡ set_to (latest c n ls) (field n loc_parameter_table loc_default_parameters.params)
unfolding loc_read_gps_conf
last_line_counts c ls n z h = read_lines_lem c n loc_parameter_table ls _ z h
