-- ===== src/Xdr/Wire/Buffer.antt =====
-- gps/libloc/librpc: bytes that are put into a message buffer, and windows of one.
use android_device_generic_m.Base.{
  ℕ, zero, suc, ◌+◌, ◌^◌, ◌<◌, ◌≡◌, refl, sym, ap, ◌∙◌, List, [], ◌∷◌, ◌++◌, length, length-append,
  arith,
}
use mathlib.Core.Path.{ap₂}
use android_device_generic_m.Xdr.{Bytes, Xdr, poke, put, window, be32, word_at, emit}

pub put-append :
    (b : Bytes) (i : ℕ) (xs ys : List ℕ) → put b i (xs ++ ys) ≡ put (put b i xs) (i + length xs) ys
unfolding put
put-append b i [] ys = let e : i ≡ i + 0 = omega arith in ap (λ k. put b k ys) e
put-append b i (x ∷ xs) ys =
    let e : suc i + length xs ≡ i + suc (length xs) = omega arith in
    put-append (poke b i x) (suc i) xs ys ∙ ap (λ k. put (put (poke b i x) (suc i) xs) k ys) e

-- Appending twice is appending once.
pub emit-append : (xs ys : List ℕ) (x : Xdr) → emit ys (emit xs x) ≡ emit (xs ++ ys) x
emit-append xs ys x =
    ap₂ (λ m n. record x { out_msg = m; out_next = n })
      (sym (put-append x.out_msg x.out_next xs ys)) (omega (arith, length-append xs ys))

put-outside : (b : Bytes) (i j : ℕ) (xs : List ℕ) → j < i → put b i xs j ≡ b j
unfolding put
put-outside b i j [] h = refl
put-outside b i j (x ∷ xs) h = put-outside (poke b i x) (suc i) j xs (omega arith) ∙ ground arith

-- What was put there is read there.
pub window-put : (b : Bytes) (i : ℕ) (xs : List ℕ) → window (put b i xs) i (length xs) ≡ xs
unfolding put window
window-put b i [] = refl
window-put b i (x ∷ xs) =
    ap₂ (λ v vs. v ∷ vs) (put-outside (poke b i x) (suc i) i xs (omega arith) ∙ ground arith)
      (window-put (poke b i x) (suc i) xs)

pub length-window : (b : Bytes) (i n : ℕ) → length (window b i n) ≡ n
unfolding window
length-window b i zero = refl
length-window b i (suc n) = ap suc (length-window b (suc i) n)

pub window-split :
    (b : Bytes) (i : ℕ) (xs ys : List ℕ)
    → window b i (length (xs ++ ys)) ≡ xs ++ ys
    → (window b i (length xs) ≡ xs) × (window b (i + length xs) (length ys) ≡ ys)
unfolding window
window-split b i [] ys e = (refl, let f : i + 0 ≡ i = omega arith in rw f e)
window-split b i (x ∷ xs) ys e =
    let (p, q) = window-split b (suc i) xs ys (cc) in
    let f : i + suc (length xs) ≡ suc i + length xs = omega arith in
    let head : b i ≡ x = cc in (rw (head, p), rw f q)

-- The word that four bytes in network order stand for.
pub word_at-be32 : (b : Bytes) (i v : ℕ) → v < 2 ^ 32 → window b i 4 ≡ be32 v → word_at b i ≡ v
unfolding window be32 word_at
word_at-be32 b i v h e = ground arith
