-- ===== src/Xdr/Scalars/Exact.antt =====
-- gps/libloc/librpc/xdr.c: which values each coder carries unchanged, and the bytes they become.
use android_device_generic_m.Base.{
  ℕ, suc, ◌+◌, ◌*◌, ◌/◌, ◌%◌, ◌^◌, ◌<◌, ◌≡◌, refl, ap, ◌∙◌, true, List, [], ◌∷◌, ◌++◌, length,
  get_or, ◌==◌, if◌then◌else◌, arith,
}
use mathlib.Core.Path.{ap₂}
use android_device_generic_m.Xdr.{Bytes, Xdr, encode, decode, free, window, be32, emit, got, put}
use android_device_generic_m.Xdr.Transport.{
  sign_extend, send_uint32, recv_uint32, send_int32, recv_int32, recv_bytes, send_bytes,
}
use android_device_generic_m.Xdr.Wire.{
  Receives-then, Sends, Room, Pending, send_uint32-Sends, recv_uint32-Receives, Sends-both,
  Receives-bind, skip,
}
use android_device_generic_m.Xdr.Opaque.{
  padded, padded-whole, send_bytes-Sends, recv_bytes-Receives,
}
use android_device_generic_m.Xdr.Scalars.{
  Coder, on_op, sent, received, xdr_enum, xdr_u_int, xdr_long, xdr_u_long, xdr_int, to_byte,
  xdr_u_char, xdr_char, xdr_u_hyper, xdr_u_quad_t, xdr_quad_t, xdr_u_short, xdr_short, xdr_bool,
  xdr_opaque,
}
use android_device_generic_m.Xdr.Scalars.Codec.{Codec, Anything, by_op-Codec}

abbrev pub IsBelow : (bound v : ℕ) → Type 0
IsBelow bound v = v < bound

-- A coder carries the numbers below `bound` as the words `wire`.
abbrev pub Carries : Coder ℕ → (ℕ → List ℕ) → (bound : ℕ) → Type 0
Carries c wire bound = Codec c wire (IsBelow bound) Anything

word_coder : Carries xdr_u_int be32 (2 ^ 32)
unfolding xdr_u_int
word_coder =
    by_op-Codec send_uint32 recv_uint32 be32 (IsBelow (2 ^ 32)) (λ v k. send_uint32-Sends v)
      recv_uint32-Receives

int_coder : Carries xdr_int be32 (2 ^ 32)
unfolding xdr_int send_int32 recv_int32
int_coder =
    by_op-Codec send_int32 recv_int32 be32 (IsBelow (2 ^ 32)) (λ v k. send_uint32-Sends v)
      recv_uint32-Receives

-- xdr_enum, xdr_u_int, xdr_long, xdr_u_long and xdr_int carry every 32-bit pattern as one word.
pub words_carried :
    Carries xdr_enum be32 (2 ^ 32)
    × Carries xdr_u_int be32 (2 ^ 32)
    × Carries xdr_long be32 (2 ^ 32)
    × Carries xdr_u_long be32 (2 ^ 32)
    × Carries xdr_int be32 (2 ^ 32)
unfolding xdr_enum xdr_u_int xdr_long xdr_u_long xdr_int
words_carried = (int_coder, word_coder, int_coder, word_coder, int_coder)

narrow : (c : Coder ℕ) → Carries c be32 (2 ^ 32) → Carries (λ v x. to_byte v (c v x)) be32 (2 ^ 8)
narrow c p = record {
  whole = λ v k. p.whole v (omega arith);
  encodes = λ v x k e room.
      ap (to_byte v) (p.encodes v x (omega arith) e room)
      ∙ (let m : v % 2 ^ 8 ≡ v = omega arith in ap (λ u. (true, u, emit (be32 v) x)) m);
  decodes = λ v b x k f e w.
      ap (to_byte b) (p.decodes v b x (omega arith) tt e w)
      ∙ (let m : v % 2 ^ 8 ≡ v = omega arith in ap (λ u. (true, u, skip (length (be32 v)) x)) m);
  frees = λ v x k e.
      ap (to_byte v) (p.frees v x (omega arith) e)
      ∙ (let m : v % 2 ^ 8 ≡ v = omega arith in ap (λ u. (true, u, x)) m);
}

-- xdr_u_char and xdr_char carry every byte as a word, zero-extended.
pub bytes_carried : Carries xdr_u_char be32 (2 ^ 8) × Carries xdr_char be32 (2 ^ 8)
unfolding xdr_u_char xdr_char
bytes_carried = (narrow xdr_u_int word_coder, narrow xdr_int int_coder)

-- xdr_u_short carries every 16-bit pattern zero-extended, and xdr_short sign-extended, as a word.
pub shorts_carried :
    Carries xdr_u_short be32 (2 ^ 16) × Carries xdr_short (λ v. be32 (sign_extend 16 v)) (2 ^ 16)
unfolding xdr_u_short xdr_short send_int32 recv_int32
shorts_carried = (
  by_op-Codec _ _ be32 (IsBelow (2 ^ 16)) (λ v k. send_uint32-Sends v)
      (λ v k.
        let e : v % 2 ^ 16 ≡ v = omega arith in
        Receives-then _ (recv_uint32-Receives v (omega arith)) (ap got e)),
  by_op-Codec _ _ (λ v. be32 (sign_extend 16 v)) (IsBelow (2 ^ 16))
      (λ v k. send_uint32-Sends (sign_extend 16 v))
      (λ v k.
        let small : sign_extend 16 v < 2 ^ 32 = ground arith in
        let e : sign_extend 16 v % 2 ^ 16 ≡ v = ground arith in
        Receives-then _ (recv_uint32-Receives (sign_extend 16 v) small) (ap got e)),
)

abbrev pub hyper_wire : ℕ → List ℕ
hyper_wire v = be32 (v / 2 ^ 32 % 2 ^ 32) ++ be32 (v % 2 ^ 32)

-- xdr_u_hyper, xdr_u_quad_t and xdr_quad_t carry every 64-bit pattern as two words, the high one first.
pub hypers_carried :
    Carries xdr_u_hyper hyper_wire (2 ^ 64)
    × Carries xdr_u_quad_t hyper_wire (2 ^ 64)
    × Carries xdr_quad_t hyper_wire (2 ^ 64)
unfolding xdr_u_hyper xdr_u_quad_t xdr_quad_t send_int32 recv_int32
hypers_carried =
    let p : Carries xdr_u_hyper hyper_wire (2 ^ 64) =
      by_op-Codec _ _ hyper_wire (IsBelow (2 ^ 64))
        (λ v k.
          Sends-both (send_uint32-Sends (v / 2 ^ 32 % 2 ^ 32)) (send_uint32-Sends (v % 2 ^ 32)))
        (λ v k.
          let e : v / 2 ^ 32 % 2 ^ 32 * 2 ^ 32 + v % 2 ^ 32 ≡ v = omega arith in
          Receives-bind _ (recv_uint32-Receives (v / 2 ^ 32 % 2 ^ 32) (omega arith))
            (Receives-then _ (recv_uint32-Receives (v % 2 ^ 32) (omega arith)) (ap got e))) in
    (p, p, p)

-- xdr_bool carries FALSE and TRUE as the words 0 and 1.
pub bool_carried : Carries xdr_bool be32 2
unfolding xdr_bool
bool_carried =
    by_op-Codec _ _ be32 (IsBelow 2)
      (λ v k. let e : (if v == 0 then 0 else 1) ≡ v = ground arith in rw e (send_uint32-Sends v))
      (λ v k.
        let e : (if v == 0 then 0 else 1) ≡ v = ground arith in
        Receives-then _ (recv_uint32-Receives v (omega arith)) (ap got e))

-- As many bytes.
abbrev pub SameLength : List ℕ → List ℕ → Type 0
SameLength a b = length b ≡ length a

abbrev pub opaque_wire : List ℕ → List ℕ
opaque_wire [] = []
opaque_wire (b ∷ bs) = padded (b ∷ bs)

-- The bytes of a list, read back from memory.
window-get :
    (bs : List ℕ) (i : ℕ) (m : Bytes)
    → ((j : ℕ) → m (i + j) ≡ get_or bs j 0)
    → window m i (length bs) ≡ bs
unfolding window
window-get [] i m h = refl
window-get (b ∷ bs) i m h =
    let first : i ≡ i + 0 = omega arith in
    ap₂ (λ v vs. v ∷ vs) (ap m first ∙ h 0)
      (window-get bs (suc i) m
        (λ j. let next : suc i + j ≡ i + suc j = omega arith in ap m next ∙ h (suc j)))

opaque-Sends : (bs : List ℕ) → Sends (send_bytes (λ i. get_or bs i 0) (length bs)) (padded bs)
opaque-Sends bs =
    let m : Bytes = λ i. get_or bs i 0 in
    let e : window m 0 (length bs) ≡ bs =
      window-get bs 0 m (λ j. let z : 0 + j ≡ j = omega arith in ap m z) in
    rw e at (send_bytes-Sends m (length bs))

opaque_whole : (bs : List ℕ) → length (opaque_wire bs) % 4 ≡ 0
opaque_whole [] = refl
opaque_whole (b ∷ bs) = padded-whole (b ∷ bs)

opaque_encodes :
    (bs : List ℕ) (x : Xdr)
    → x.x_op ≡ encode
    → Room x (length (opaque_wire bs))
    → xdr_opaque bs x ≡ (true, bs, emit (opaque_wire bs) x)
unfolding xdr_opaque put
opaque_encodes [] x e room =
    let z : x.out_next ≡ x.out_next + 0 = omega arith in
    ap (λ n. (true, [], record x { out_next = n })) z
opaque_encodes (b ∷ bs) x e room =
    let l = b ∷ bs in
    ap (λ o. on_op o (send_bytes (λ i. get_or l i 0) (length l)) (recv_bytes (length l)) l x) e
    ∙ ap (sent l) ((opaque-Sends l).sends x room)

opaque_decodes :
    (bs ds : List ℕ) (x : Xdr)
    → SameLength bs ds
    → x.x_op ≡ decode
    → Pending x (opaque_wire bs)
    → xdr_opaque ds x ≡ (true, bs, skip (length (opaque_wire bs)) x)
unfolding xdr_opaque
opaque_decodes [] [] x f e w =
    let z : x.in_next ≡ x.in_next + 0 = omega arith in
    ap (λ n. (true, [], record x { in_next = n })) z
opaque_decodes [] (d ∷ ds) x f e w = absurd (omega arith)
opaque_decodes (b ∷ bs) [] x f e w = absurd (omega arith)
opaque_decodes (b ∷ bs) (d ∷ ds) x f e w =
    let l = d ∷ ds in
    ap (λ o. on_op o (send_bytes (λ i. get_or l i 0) (length l)) (recv_bytes (length l)) l x) e
    ∙ ap (λ n. received l (recv_bytes n x)) f
    ∙ ap (received l) ((recv_bytes-Receives (b ∷ bs)).receives x w)

opaque_frees : (bs : List ℕ) (x : Xdr) → x.x_op ≡ free → xdr_opaque bs x ≡ (true, bs, x)
unfolding xdr_opaque
opaque_frees [] x e = refl
opaque_frees (b ∷ bs) x e =
    let l = b ∷ bs in
    ap (λ o. on_op o (send_bytes (λ i. get_or l i 0) (length l)) (recv_bytes (length l)) l x) e

-- xdr_opaque carries every string of bytes, padded with zeros to whole words, and nothing at all for none.
pub opaque_carried : Codec xdr_opaque opaque_wire (λ bs. Unit) SameLength
opaque_carried = record {
  whole = λ bs k. opaque_whole bs;
  encodes = λ bs x k. opaque_encodes bs x;
  decodes = λ bs ds x k. opaque_decodes bs ds x;
  frees = λ bs x k. opaque_frees bs x;
}

-- The thirteen scalar coders carry every value of their type: xdr_enum,
-- xdr_u_int, xdr_long, xdr_u_long and xdr_int a 32-bit pattern as one word; xdr_u_char, xdr_char and
-- xdr_u_short a shorter one zero-extended and xdr_short sign-extended; xdr_u_hyper, xdr_u_quad_t and
-- xdr_quad_t a 64-bit one as two words, the high one first; xdr_bool FALSE and TRUE as 0 and 1.
pub scalars_carried :
    (Carries xdr_enum be32 (2 ^ 32)
      × Carries xdr_u_int be32 (2 ^ 32)
      × Carries xdr_long be32 (2 ^ 32)
      × Carries xdr_u_long be32 (2 ^ 32)
      × Carries xdr_int be32 (2 ^ 32))
    × (Carries xdr_u_char be32 (2 ^ 8) × Carries xdr_char be32 (2 ^ 8))
    × (Carries xdr_u_short be32 (2 ^ 16)
        × Carries xdr_short (λ v. be32 (sign_extend 16 v)) (2 ^ 16))
    × (Carries xdr_u_hyper hyper_wire (2 ^ 64)
        × Carries xdr_u_quad_t hyper_wire (2 ^ 64)
        × Carries xdr_quad_t hyper_wire (2 ^ 64))
    × Carries xdr_bool be32 2
scalars_carried = (words_carried, bytes_carried, shorts_carried, hypers_carried, bool_carried)
