-- ===== src/Xdr/Scalars.antt =====
-- gps/libloc/librpc/xdr.c: the coders, which send, receive or free by `x_op`. A coder takes what its
-- pointer points at and yields what is there after it. A long is 32 bits and a char unsigned, as on
-- the device.
pub mod Codec
pub mod Exact
pub mod Vectors
pub mod Storage
mod Tests
use android_device_generic_m.Base.{
  ℕ, suc, ◌+◌, ◌-◌, ◌*◌, ◌/◌, ◌%◌, ◌^◌, Bool, true, false, Option, none, some, List, [], ◌∷◌,
  length, ◌==◌, get_or, if◌then◌else◌,
}
use android_device_generic_m.Xdr.{
  Bytes, Xdr, XdrOp, encode, decode, free, Send, Recv, got, ◌>>=◌, ◌&&&◌,
}
use android_device_generic_m.Xdr.Transport.{
  send_uint32, send_int32, send_bytes, recv_uint32, recv_int32, recv_bytes, sign_extend,
}

abbrev pub Coder : Type 0 → Type 0
Coder A = A → Xdr → Bool × A × Xdr

abbrev pub sent {ℓ} : {A : Type ℓ} → A → Bool × Xdr → Bool × A × Xdr
sent a (ok, x) = (ok, a, x)

abbrev pub received {ℓ} : {A : Type ℓ} → A → Option A × Xdr → Bool × A × Xdr
received a (some b, x) = (true, b, x)
received a (none, x) = (false, a, x)

-- `switch (xdr->x_op)` with TRUE for XDR_FREE.
abbrev pub on_op {ℓ} : {A : Type ℓ} → XdrOp → Send → Recv A → A → Xdr → Bool × A × Xdr
on_op encode s r a x = sent a (s x)
on_op decode s r a x = received a (r x)
on_op free s r a x = (true, a, x)

abbrev pub by_op {ℓ} : {A : Type ℓ} → (A → Send) → Recv A → A → Xdr → Bool × A × Xdr
by_op s r a x = on_op x.x_op (s a) r a x

unfoldable pub xdr_enum : Coder ℕ
xdr_enum = by_op send_int32 recv_int32

unfoldable pub xdr_u_int : Coder ℕ
xdr_u_int = by_op send_uint32 recv_uint32

unfoldable pub xdr_long : Coder ℕ
xdr_long = by_op send_int32 recv_int32

unfoldable pub xdr_u_long : Coder ℕ
xdr_u_long = by_op send_uint32 recv_uint32

unfoldable pub xdr_int : Coder ℕ
xdr_int = by_op send_int32 recv_int32

-- The result of a coder for a wider type, stored in a byte.
abbrev pub to_byte : ℕ → Bool × ℕ × Xdr → Bool × ℕ × Xdr
to_byte c (true, u, x) = (true, u % 2 ^ 8, x)
to_byte c (false, u, x) = (false, c, x)

unfoldable pub xdr_u_char : Coder ℕ
xdr_u_char c x = to_byte c (xdr_u_int c x)

unfoldable pub xdr_char : Coder ℕ
xdr_char c x = to_byte c (xdr_int c x)

unfoldable pub xdr_u_hyper : Coder ℕ
xdr_u_hyper =
    by_op (λ v. send_int32 (v / 2 ^ 32 % 2 ^ 32) &&& send_int32 (v % 2 ^ 32))
      (do t1 ← recv_int32; t2 ← recv_int32; got (t1 * 2 ^ 32 + t2))

unfoldable pub xdr_u_quad_t : Coder ℕ
xdr_u_quad_t = xdr_u_hyper

unfoldable pub xdr_quad_t : Coder ℕ
xdr_quad_t = xdr_u_quad_t

unfoldable pub xdr_u_short : Coder ℕ
xdr_u_short = by_op send_uint32 (do l ← recv_uint32; got (l % 2 ^ 16))

unfoldable pub xdr_short : Coder ℕ
xdr_short = by_op (λ s. send_int32 (sign_extend 16 s)) (do l ← recv_int32; got (l % 2 ^ 16))

unfoldable pub xdr_bool : Coder ℕ
xdr_bool =
    by_op (λ b. send_uint32 (if b == 0 then 0 else 1))
      (do lb ← recv_uint32; got (if lb == 0 then 0 else 1))

unfoldable pub xdr_void : Bool
xdr_void = true

-- The bytes at `cp`, `cnt` of them.
unfoldable pub xdr_opaque : Coder (List ℕ)
xdr_opaque [] x = (true, [], x)
xdr_opaque (b ∷ bs) x =
    by_op (λ cp. send_bytes (λ i. get_or cp i 0) (length cp)) (recv_bytes (length (b ∷ bs)))
      (b ∷ bs) x

module _ {A : Type 0} (xdr_elem : Coder A) where
  abbrev pub cons_result : A → Bool × List A × Xdr → Bool × List A × Xdr
  cons_result a (ok, bs, x) = (ok, a ∷ bs, x)

  -- The elements at `basep`: the first failure ends the loop.
  unfoldable pub xdr_vector : Coder (List A)
  xdr_vector [] x = (true, [], x)
  xdr_vector (a ∷ bs) x =
      let (ok, b, y) = xdr_elem a x in
      let rest = xdr_vector bs y in if ok then cons_result b rest else (false, b ∷ bs, y)
