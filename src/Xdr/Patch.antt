-- ===== src/Xdr/Patch.antt =====
-- The outgoing buffer of gps/libloc/librpc: bytes written over the head of a message.
use android_device_generic_m.Base.{
  ℕ, zero, suc, ◌+◌, ◌≤◌, ◌≡◌, refl, ap, ◌∙◌, List, [], ◌∷◌, ◌++◌, length, length-append, arith,
}
use mathlib.Core.Path.{ap₂}
use android_device_generic_m.Xdr.{Bytes, poke, put, window}
use android_device_generic_m.Xdr.Wire.{window-put, window-split}

pub window-append :
    (b : Bytes) (i m n : ℕ) → window b i (m + n) ≡ window b i m ++ window b (i + m) n
unfolding window
window-append b i zero n =
    let e : 0 + n ≡ n = omega arith in
    let f : i ≡ i + 0 = omega arith in ap (window b i) e ∙ ap (λ k. window b k n) f
window-append b i (suc m) n =
    let e : suc m + n ≡ suc (m + n) = omega arith in
    let f : suc i + m ≡ i + suc m = omega arith in
    ap (window b i) e
    ∙ ap (λ vs. b i ∷ vs)
        (window-append b (suc i) m n ∙ ap (λ k. window b (suc i) m ++ window b k n) f)

put-past : (b : Bytes) (i j : ℕ) (xs : List ℕ) → i + length xs ≤ j → put b i xs j ≡ b j
unfolding put
put-past b i j [] h = refl
put-past b i j (x ∷ xs) h =
    put-past (poke b i x) (suc i) j xs (omega (arith, h)) ∙ ground (arith, h)

pub window-past :
    (b : Bytes) (i k n : ℕ) (xs : List ℕ)
    → i + length xs ≤ k
    → window (put b i xs) k n ≡ window b k n
unfolding window
window-past b i k zero xs h = refl
window-past b i k (suc n) xs h =
    ap₂ (λ v vs. v ∷ vs) (put-past b i k xs h) (window-past b i (suc k) n xs (omega (arith, h)))

-- Bytes over the head of a message of the same length leave the rest.
pub window-patch :
    (b : Bytes) (h h' r : List ℕ)
    → length h ≡ length h'
    → window (put (put b 0 (h ++ r)) 0 h') 0 (length (h' ++ r)) ≡ h' ++ r
window-patch b h h' r e =
    let m = put b 0 (h ++ r) in
    let start : 0 + length h' ≤ length h' = omega arith in
    let same : length h' ≡ 0 + length h = omega (arith, e) in
    let at : 0 + length h' ≡ length h' = omega arith in
    ap (window (put m 0 h') 0) (length-append h' r)
    ∙ window-append (put m 0 h') 0 (length h') (length r)
    ∙ ap₂ (λ u v. u ++ v) (window-put m 0 h')
        (ap (λ k. window (put m 0 h') k (length r)) at
          ∙ window-past m 0 (length h') (length r) h' start
          ∙ ap (λ k. window m k (length r)) same
          ∙ (window-split m 0 h r (window-put b 0 (h ++ r))).1)
