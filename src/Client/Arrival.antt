-- ===== src/Client/Arrival.antt =====
-- gps/libloc/librpc: a message that one side wrote and the other side has read into its buffer.
use android_device_generic_m.Base.{
  ℕ, ◌+◌, ◌%◌, ◌≤◌, ◌≡◌, sym, ap, ◌∙◌, List, ◌++◌, length, length-append, arith,
}
use android_device_generic_m.Xdr.{Bytes, Xdr, window, be32, word_at}
use android_device_generic_m.Xdr.Wire.{Pending, length-be32, window-split, word_at-be32}
use android_device_generic_m.Rpc.RoundTrip.{IsWord}
use android_device_generic_m.Rpc.CallHeader.{Message}

-- The outgoing message of `x`, read whole into `z`.
pub record Delivered (x z : Xdr) : Type 0 where
  pub bytes : z.in_msg ≡ x.out_msg
  pub stop : z.in_len ≡ x.out_next

-- The message that was read into `z`.
pub record Arrived (z : Xdr) (bs : List ℕ) : Type 0 where
  pub stop : z.in_len ≡ length bs
  pub bytes : window z.in_msg 0 (length bs) ≡ bs

pub arrive : (x z : Xdr) (bs : List ℕ) → Message x bs → Delivered x z → Arrived z bs
arrive x z bs m d = record {
  stop = d.stop ∙ m.stop;
  bytes = ap (λ b. window b 0 (length bs)) d.bytes ∙ m.bytes;
}

-- What is left of a message behind its head.
pub Arrived-Pending :
    (z : Xdr) (head rest : List ℕ)
    → Arrived z (head ++ rest)
    → z.in_next ≡ length head
    → z.in_next % 4 ≡ 0
    → length (head ++ rest) ≤ 18432
    → Pending z rest
Arrived-Pending z head rest m e al h =
    let s = (window-split z.in_msg 0 head rest m.bytes).1 in
    let n = length-append head rest in
    let f : 0 + length head ≡ z.in_next = omega (arith, e) in
    record {
      aligned = al;
      bytes = ap (λ k. window z.in_msg k (length rest)) (sym f) ∙ s;
      inside = omega (arith, m.stop, n, e);
      small = omega (arith, m.stop, h);
    }

-- A word in front of the rest of a window.
pub word_front :
    (b : Bytes) (i v : ℕ) (r : List ℕ)
    → IsWord v
    → window b i (length (be32 v ++ r)) ≡ be32 v ++ r
    → (word_at b i ≡ v) × (window b (i + 4) (length r) ≡ r)
word_front b i v r w e =
    let (p, q) = window-split b i (be32 v) r e in
    let n = length-be32 v in
    (
      word_at-be32 b i v w (sym (ap (window b i) n) ∙ p),
      sym (ap (λ k. window b (i + k) (length r)) n) ∙ q,
    )
