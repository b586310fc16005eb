-- ===== src/Xdr.antt =====
-- The XDR of gps/libloc/librpc: the message buffers of struct xdr_struct (rpc/types.h) and the two
-- kinds of operations on them. An int or an unsigned int is its 32-bit pattern.
pub mod Transport
pub mod Wire
pub mod Opaque
pub mod Scalars
pub mod Patch
use android_device_generic_m.Base.{
  ℕ, zero, suc, ◌+◌, ◌-◌, ◌*◌, ◌/◌, ◌%◌, ◌^◌, Bool, true, false, Option, none, some, List, [], ◌∷◌,
  length, ◌==◌, ltb, if◌then◌else◌,
}

-- The bytes at a buffer.
abbrev pub Bytes : Type 0
Bytes = ℕ → ℕ

-- `enum xdr_op`
pub data XdrOp : Type 0 where
  encode decode free : XdrOp

-- `struct xdr_struct`, without the operation table, the descriptor and the verifier.
pub record Xdr : Type 0 where
  pub x_op : XdrOp
  pub x_prog : ℕ
  pub x_vers : ℕ
  pub x_proc : ℕ
  pub xid : ℕ
  pub out_msg : Bytes
  pub out_next : ℕ
  pub in_msg : Bytes
  pub in_next : ℕ
  pub in_len : ℕ
  pub xdr_err : ℕ

-- RPCROUTER_MSGSIZE_MAX
abbrev pub msgsize_max : ℕ
msgsize_max = 18432

-- RPC_OFFSET
abbrev pub rpc_offset : ℕ
rpc_offset = 0

-- Signed comparison of two patterns.
abbrev pub int_lt : ℕ → ℕ → Bool
int_lt a b = ltb ((a + 2 ^ 31) % 2 ^ 32) ((b + 2 ^ 31) % 2 ^ 32)

abbrev pub add32 : ℕ → ℕ → ℕ
add32 a b = (a + b) % 2 ^ 32

-- -1
abbrev pub minus_one : ℕ
minus_one = 2 ^ 32 - 1

abbrev pub poke : Bytes → ℕ → ℕ → Bytes
poke b i v j = if j == i then v else b j

-- Writing bytes from an index on, and reading `n` of them.
unfoldable pub put : Bytes → ℕ → List ℕ → Bytes
put b i [] = b
put b i (v ∷ vs) = put (poke b i v) (suc i) vs

unfoldable pub window : Bytes → ℕ → ℕ → List ℕ
window b i zero = []
window b i (suc n) = b i ∷ window b (suc i) n

-- `htonl` and `ntohl`: the bytes of a word in network order.
unfoldable pub be32 : ℕ → List ℕ
be32 v = v / 2 ^ 24 % 256 ∷ (v / 2 ^ 16 % 256) ∷ (v / 2 ^ 8 % 256) ∷ (v % 256) ∷ []

unfoldable pub word_at : Bytes → ℕ → ℕ
word_at b i = ((b i * 256 + b (suc i)) * 256 + b (suc (suc i))) * 256 + b (suc (suc (suc i)))

-- The state after `bs` was put at the end of the outgoing message.
abbrev pub emit : List ℕ → Xdr → Xdr
emit bs x = record x { out_msg = put x.out_msg x.out_next bs; out_next = x.out_next + length bs }

-- A send answers TRUE or FALSE.
abbrev pub Send : Type 0
Send = Xdr → Bool × Xdr

-- `s && t`
abbrev pub both : Bool × Xdr → Send → Bool × Xdr
both (true, x) t = t x
both (false, x) t = (false, x)

infixr 35 ◌&&&◌
abbrev pub ◌&&&◌ : Send → Send → Send
◌&&&◌ s t x = both (s x) t

abbrev pub refuse : Send
refuse x = (false, x)

abbrev pub accept : Send
accept x = (true, x)

-- A receive yields a value (TRUE), or none (FALSE).
abbrev pub Recv {ℓ} : Type ℓ → Type ℓ
Recv A = Xdr → Option A × Xdr

abbrev pub got {ℓ} : {A : Type ℓ} → A → Recv A
got a x = (some a, x)

abbrev pub fail {ℓ} : {A : Type ℓ} → Recv A
fail x = (none, x)

abbrev pub after {ℓ κ} : {A : Type ℓ} {B : Type κ} → Option A × Xdr → (A → Recv B) → Option B × Xdr
after (some a, x) f = f a x
after (none, x) f = (none, x)

infixl 5 ◌>>=◌
abbrev pub ◌>>=◌ {ℓ κ} : {A : Type ℓ} {B : Type κ} → Recv A → (A → Recv B) → Recv B
◌>>=◌ r f x = after (r x) f
