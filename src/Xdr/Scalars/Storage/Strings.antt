-- ===== src/Xdr/Scalars/Storage/Strings.antt =====
-- gps/libloc/librpc/xdr.c: strings, and optional objects, as one side sends and the other receives them.
use android_device_generic_m.Base.{
  ℕ, zero, suc, ◌+◌, ◌-◌, ◌%◌, ◌^◌, ◌≤◌, ◌<◌, ◌≡◌, refl, ap, ◌∙◌, true, false, Option, none, some,
  List, [], ◌∷◌, ◌++◌, length, length-append, take, set, ◌==◌, ltb, if◌then◌else◌, arith,
}
use mathlib.Core.Path.{ap₂}
use android_device_generic_m.Xdr.{Xdr, encode, decode, free, be32, emit, add32, put}
use android_device_generic_m.Xdr.Wire.{
  Room, Pending, Carried, skip, length-be32, emit-append, Pending-split, Room-split, put-Pending,
}
use android_device_generic_m.Xdr.Opaque.{length-padded}
use android_device_generic_m.Xdr.Scalars.{xdr_u_int, xdr_opaque}
use android_device_generic_m.Xdr.Scalars.Exact.{words_carried, opaque_carried, opaque_wire}
use android_device_generic_m.Xdr.Scalars.Storage.{
  drop, strlen, xdr_string, string_op, string_out, string_in, string_into, string_free, coded_for,
  filled,
}

-- Bytes with a NUL behind them, none among them.
abbrev pub terminated : List ℕ → List ℕ
terminated bs = bs ++ 0 ∷ []

abbrev pub IsText : List ℕ → Type 0
IsText bs = strlen (terminated bs) ≡ length bs

-- The length and the bytes without the NUL.
abbrev pub string_wire : List ℕ → List ℕ
string_wire bs = be32 (length bs) ++ opaque_wire bs

take-append : (xs ys : List ℕ) → take (length xs) (xs ++ ys) ≡ xs
take-append [] ys = refl
take-append (x ∷ xs) ys = ap (λ l. x ∷ l) (take-append xs ys)

length-take-set : (n : ℕ) (m : List ℕ) → length m ≡ suc n → length (take n (set m n 0)) ≡ n
length-take-set zero m h = refl
length-take-set (suc n) [] h = absurd (omega (arith, h))
length-take-set (suc n) (b ∷ m) h = ap suc (length-take-set n m (omega (arith, h)))

drop-set : (n : ℕ) (m : List ℕ) → length m ≡ suc n → drop n (set m n 0) ≡ 0 ∷ []
drop-set zero [] h = absurd (omega (arith, h))
drop-set zero (b ∷ []) h = refl
drop-set zero (b ∷ c ∷ m) h = absurd (omega (arith, h))
drop-set (suc n) [] h = absurd (omega (arith, h))
drop-set (suc n) (b ∷ m) h = drop-set n m (omega (arith, h))

pub not_longer : (n maxsize : ℕ) → n ≤ maxsize → ltb maxsize n ≡ false
not_longer n maxsize h = ground (arith, h)

pub word-whole : (v : ℕ) → length (be32 v) % 4 ≡ 0
word-whole v = omega (arith, length-be32 v)

opaque_longer : (bs : List ℕ) → length bs ≤ length (opaque_wire bs)
opaque_longer [] = omega arith
opaque_longer (b ∷ bs) = omega (arith, length-padded (b ∷ bs))

string_encodes :
    (bs : List ℕ) (maxsize : ℕ) (x : Xdr)
    → IsText bs
    → length bs ≤ maxsize
    → x.x_op ≡ encode
    → Room x (length (string_wire bs))
    → xdr_string none maxsize (some (terminated bs)) x
      ≡ (true, some (terminated bs), emit (string_wire bs) x)
unfolding xdr_string
string_encodes bs maxsize x t h e room =
    let n = length bs in
    let s = terminated bs in
    let (r, q) = Room-split x (be32 n) (opaque_wire bs) (word-whole n) room in
    let small : n < 2 ^ 32 = omega (arith, q.inside, opaque_longer bs) in
    let y = emit (be32 n) x in
    ap (λ o. string_op o none maxsize (some s) x) e
    ∙ ap (λ k. string_out maxsize s (xdr_u_int k x)) t
    ∙ ap (string_out maxsize s) (words_carried.1.encodes n x small e r)
    ∙ ap (λ b. if b then (false, some s, y) else coded_for (some s) (xdr_opaque (take n s) y))
        (not_longer n maxsize h)
    ∙ ap (λ l. coded_for (some s) (xdr_opaque l y)) (take-append bs (0 ∷ []))
    ∙ ap (coded_for (some s)) (opaque_carried.encodes bs y tt e q)
    ∙ ap (λ w. (true, some s, w)) (emit-append (be32 n) (opaque_wire bs) x)

string_decodes :
    (bs m : List ℕ) (maxsize : ℕ) (z : Xdr)
    → length bs ≤ maxsize
    → length m ≡ suc (length bs)
    → z.x_op ≡ decode
    → Pending z (string_wire bs)
    → xdr_string (some m) maxsize none z
      ≡ (true, some (terminated bs), skip (length (string_wire bs)) z)
unfolding xdr_string
string_decodes bs m maxsize z h l e p =
    let n = length bs in
    let (w, v) = Pending-split z (be32 n) (opaque_wire bs) (word-whole n) p in
    let small : n < 2 ^ 32 - 1 = omega (arith, v.inside, v.small, opaque_longer bs) in
    let y = skip (length (be32 n)) z in
    let s = set m n 0 in
    let more : (add32 n 1 == 0) ≡ false = ground (arith, small) in
    let step : z.in_next + length (be32 n) + length (opaque_wire bs)
        ≡ z.in_next + length (string_wire bs) =
      omega (arith, length-append (be32 n) (opaque_wire bs)) in
    ap (λ o. string_op o (some m) maxsize none z) e
    ∙ ap (string_in (some m) maxsize none)
        (words_carried.1.decodes n 0 z (omega (arith, small)) tt e w)
    ∙ ap
        (λ b.
          if b
          then (false, none, y)
          else if add32 n 1 == 0
          then (true, none, y)
          else string_into n (some m) y)
        (not_longer n maxsize h)
    ∙ ap (λ b. if b then (true, none, y) else string_into n (some m) y) more
    ∙ ap (filled s) (opaque_carried.decodes bs (take n s) y tt (length-take-set n m l) e v)
    ∙ ap₂ (λ r k. (true, some (bs ++ r), record z { in_next = k })) (drop-set n m l) step

-- A NUL-terminated string of at most `maxsize` bytes is sent as its length and its bytes, padded, and
-- the receiver of that message, given storage for one byte more than the length, reads the same string
-- with its NUL, and nothing more of the message.
pub string_roundtrip :
    (bs m : List ℕ) (maxsize : ℕ) (x z : Xdr)
    → IsText bs
    → length bs ≤ maxsize
    → length m ≡ suc (length bs)
    → x.x_op ≡ encode
    → z.x_op ≡ decode
    → Room x (length (string_wire bs))
    → Carried x (xdr_string none maxsize (some (terminated bs)) x).2 z
    → ((xdr_string none maxsize (some (terminated bs)) x).0 ≡ true)
      × (xdr_string (some m) maxsize none z
          ≡ (true, some (terminated bs), record z { in_next = z.in_len }))
string_roundtrip bs m maxsize x z t h l encoding decoding room carried =
    let ws = string_wire bs in
    let e = string_encodes bs maxsize x t h encoding room in
    let msg : z.in_msg ≡ put x.out_msg x.out_next ws = carried.bytes ∙ ap (λ o. o.2.out_msg) e in
    let stop : z.in_len ≡ x.out_next + length ws = carried.stop ∙ ap (λ o. o.2.out_next) e in
    let end : z.in_next + length ws ≡ z.in_len = omega (arith, carried.start, stop) in
    (
      ap (λ o. o.0) e,
      string_decodes bs m maxsize z h l decoding (put-Pending x z ws room msg carried.start stop)
          ∙ ap (λ n. (true, some (terminated bs), record z { in_next = n })) end,
    )

-- A string of at most `maxsize` bytes is freed; a longer one is not, and the answer is FALSE.
pub string_freed :
    (m : List ℕ) (mem_alloc : Option (List ℕ)) (maxsize : ℕ) (x : Xdr)
    → strlen m < 2 ^ 32
    → x.x_op ≡ free
    → xdr_string mem_alloc maxsize (some m) x
      ≡ (if ltb maxsize (strlen m) then (false, some m, x) else (true, none, x))
unfolding xdr_string
string_freed m mem_alloc maxsize x h e =
    ap (λ o. string_op o mem_alloc maxsize (some m) x) e
    ∙ ap (string_free maxsize m) (words_carried.1.frees (strlen m) x h e)
