-- ===== src/Xdr/Opaque.antt =====
-- gps/libloc/librpc/svc_clnt_common.c: byte strings on the wire, padded to whole words, and the two
-- length tests of xdr_std_send_bytes and xdr_std_recv_bytes.
use android_device_generic_m.Base.{
  ℕ, zero, suc, ◌+◌, ◌-◌, ◌*◌, ◌/◌, ◌%◌, ◌^◌, ◌≤◌, ◌<◌, ◌≡◌, refl, ap, ◌∙◌, true, false, some, List,
  [], ◌∷◌, ◌++◌, length, length-append, ne→not_eq, ◌≢◌, replicate, ltb, arith,
}
use mathlib.Core.Path.{ap₂}
use android_device_generic_m.Xdr.{Bytes, Xdr, msgsize_max, int_lt, add32, window, put, emit}
use android_device_generic_m.Xdr.Transport.{pad, send_bytes, recv_bytes}
use android_device_generic_m.Xdr.Wire.{Sends, Receives, emit-append, length-window, window-split}

-- The zeros behind `n` bytes.
abbrev pub gap : ℕ → ℕ
gap n = (4 - n % 4) % 4

abbrev pub padded : List ℕ → List ℕ
padded bs = bs ++ replicate (gap (length bs)) 0

pub length-replicate : {A : Type 0} (n : ℕ) (a : A) → length (replicate n a) ≡ n
length-replicate zero a = refl
length-replicate (suc n) a = ap suc (length-replicate n a)

pad_done : (k : ℕ) (x : Xdr) → x.out_next % 4 ≡ 0 → pad k x ≡ x
unfolding pad
pad_done zero x e = refl
pad_done (suc k) x e = ground arith

pad_step : (k : ℕ) (x : Xdr) → x.out_next % 4 ≢ 0 → pad (suc k) x ≡ pad k (emit (0 ∷ []) x)
unfolding pad
pad_step k x e = simp (ne→not_eq e) refl

-- As many zeros as are missing to the next word, in `k` rounds or more.
pad_lem :
    (n k : ℕ) (x : Xdr)
    → n ≤ k
    → n < 4
    → (x.out_next + n) % 4 ≡ 0
    → pad k x ≡ emit (replicate n 0) x
unfolding put
pad_lem zero k x h b aligned =
    let e : x.out_next ≡ x.out_next + 0 = omega arith in
    pad_done k x (omega arith) ∙ ap (λ m. record x { out_next = m }) e
pad_lem (suc n) zero x h b e = elim h [ ]
pad_lem (suc n) (suc k) x h b e =
    pad_step k x (omega arith)
    ∙ pad_lem n k (emit (0 ∷ []) x) (omega arith) (omega arith) (omega arith)
    ∙ emit-append (0 ∷ []) (replicate n 0) x

pub length-padded : (bs : List ℕ) → length (padded bs) ≡ length bs + gap (length bs)
length-padded bs =
    length-append bs (replicate (gap (length bs)) 0)
    ∙ ap (λ k. length bs + k) (length-replicate (gap (length bs)) 0)

pub padded-whole : (bs : List ℕ) → length (padded bs) % 4 ≡ 0
padded-whole bs = omega (arith, length-padded bs)

-- What xdr_std_send_bytes writes.
pub send_bytes-Sends : (buf : Bytes) (n : ℕ) → Sends (send_bytes buf n) (padded (window buf 0 n))
unfolding send_bytes
send_bytes-Sends buf n = record {
  whole = padded-whole (window buf 0 n);
  sends = λ x r.
      let bs = window buf 0 n in
      let l : length bs ≡ n = length-window buf 0 n in
      let p = length-padded bs in
      let fits : ltb msgsize_max (add32 x.out_next n) ≡ false = ground (arith, l, p, r.inside) in
      let zeros : pad 3 (emit bs x) ≡ emit (replicate (gap (length bs)) 0) (emit bs x) =
        pad_lem (gap (length bs)) 3 (emit bs x) (omega arith) (omega arith)
          (omega (arith, r.aligned)) in
      rw (fits, zeros, emit-append bs (replicate (gap (length bs)) 0) x) refl;
}

-- What xdr_std_recv_bytes takes.
pub recv_bytes-Receives : (bs : List ℕ) → Receives (recv_bytes (length bs)) (padded bs) bs
unfolding recv_bytes
recv_bytes-Receives bs = record {
  whole = padded-whole bs;
  receives = λ x w.
      let n = length-padded bs in
      let passes : int_lt x.in_len (add32 x.in_next (length bs)) ≡ false =
        ground (arith, n, w.inside, w.small) in
      let (u, v) = window-split x.in_msg x.in_next bs (replicate (gap (length bs)) 0) w.bytes in
      let step : add32 (add32 x.in_next (length bs)) 3 / 4 * 4 ≡ x.in_next + length (padded bs) =
        omega (arith, n, w.inside, w.small, w.aligned) in
      rw passes (ap₂ (λ b k. (some b, record x { in_next = k })) u step);
}

send_bytes_wraps :
    (buf : Bytes) (n : ℕ) (x : Xdr)
    → 2 ^ 32 ≤ x.out_next + n
    → x.out_next + n ≤ 2 ^ 32 + msgsize_max
    → (send_bytes buf n x).0 ≡ true
unfolding send_bytes
send_bytes_wraps buf n x h k = ground arith

recv_bytes_wraps :
    (n : ℕ) (x : Xdr)
    → x.in_len ≤ msgsize_max
    → 2 ^ 31 ≤ x.in_next + n
    → x.in_next + n < 2 ^ 32
    → (recv_bytes n x).0 ≡ some (window x.in_msg x.in_next n)
unfolding recv_bytes
recv_bytes_wraps n x small h k =
    let passes : int_lt x.in_len (add32 x.in_next n) ≡ false = ground arith in rw passes refl

-- Neither length test holds back every length that is too long. The one of xdr_std_send_bytes adds
-- without a carry, so a length `n` that takes the sum past 2 ^ 32 passes, whatever the buffer can hold.
-- The one of xdr_std_recv_bytes compares signed numbers, so a length `k` that takes the sum to 2 ^ 31 or
-- more, below 2 ^ 32, passes, however short the message is.
pub bytes_wrap :
    (buf : Bytes) (n k : ℕ) (x : Xdr)
    → 2 ^ 32 ≤ x.out_next + n
    → x.out_next + n ≤ 2 ^ 32 + msgsize_max
    → x.in_len ≤ msgsize_max
    → 2 ^ 31 ≤ x.in_next + k
    → x.in_next + k < 2 ^ 32
    → ((send_bytes buf n x).0 ≡ true) × ((recv_bytes k x).0 ≡ some (window x.in_msg x.in_next k))
bytes_wrap buf n k x long end small far near =
    (send_bytes_wraps buf n x long end, recv_bytes_wraps k x small far near)
