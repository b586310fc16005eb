-- ===== src/Xdr/Scalars/Codec.antt =====
-- gps/libloc/librpc/xdr.c: what a coder promises, and that a vector of coded elements keeps it.
use android_device_generic_m.Base.{
  ℕ, ◌+◌, ◌%◌, ◌≡◌, refl, ap, ◌∙◌, true, List, [], ◌∷◌, ◌++◌, length, length-append, arith,
}
use android_device_generic_m.Xdr.{Xdr, encode, decode, free, put, emit, Send, Recv}
use android_device_generic_m.Xdr.Wire.{
  Sends, Receives, Room, Pending, put-Pending, Carried, skip, emit-append, window-split,
}
use android_device_generic_m.Xdr.Scalars.{
  Coder, by_op, on_op, sent, received, xdr_vector, cons_result,
}

-- A coder writes `wire a` for a value `a` that is Ok, reads that back over any value that fits, and has
-- nothing to free.
pub record Codec {A : Type 0} (c : Coder A) (wire : A → List ℕ) (Ok : A → Type 0)
    (Fits : A → A → Type 0) : Type 0 where
  pub whole : (a : A) → Ok a → length (wire a) % 4 ≡ 0
  pub encodes :
      (a : A) (x : Xdr)
      → Ok a
      → x.x_op ≡ encode
      → Room x (length (wire a))
      → c a x ≡ (true, a, emit (wire a) x)
  pub decodes :
      (a b : A) (x : Xdr)
      → Ok a
      → Fits a b
      → x.x_op ≡ decode
      → Pending x (wire a)
      → c b x ≡ (true, a, skip (length (wire a)) x)
  pub frees : (a : A) (x : Xdr) → Ok a → x.x_op ≡ free → c a x ≡ (true, a, x)

abbrev pub Anything : {A : Type 0} → A → A → Type 0
Anything a b = Unit

-- A switch over a send and a receive.
pub by_op-Codec :
    {A : Type 0} (s : A → Send) (r : Recv A) (wire : A → List ℕ) (Ok : A → Type 0)
    → ((a : A) → Ok a → Sends (s a) (wire a))
    → ((a : A) → Ok a → Receives r (wire a) a)
    → Codec (by_op s r) wire Ok Anything
by_op-Codec s r wire Ok p q = record {
  whole = λ a k. (p a k).whole;
  encodes = λ a x k e room. ap (λ o. on_op o (s a) r a x) e ∙ ap (sent a) ((p a k).sends x room);
  decodes =
      λ a b x k f e w. ap (λ o. on_op o (s b) r b x) e ∙ ap (received b) ((q a k).receives x w);
  frees = λ a x k e. ap (λ o. on_op o (s a) r a x) e;
}

-- What one side encodes the other side decodes.
pub codec_roundtrip :
    {A : Type 0} {c : Coder A} {wire : A → List ℕ} {Ok : A → Type 0} {Fits : A → A → Type 0}
    → Codec c wire Ok Fits
    → (a b : A) (x z : Xdr) → Ok a
    → Fits a b
    → x.x_op ≡ encode
    → z.x_op ≡ decode
    → Room x (length (wire a))
    → Carried x (c a x).2 z
    → ((c a x).0 ≡ true) × (c b z ≡ (true, a, record z { in_next = z.in_len }))
codec_roundtrip {A} {c} {wire} p a b x z k f encoding decoding room carried =
    let bs = wire a in
    let e : c a x ≡ (true, a, emit bs x) = p.encodes a x k encoding room in
    let msg : z.in_msg ≡ put x.out_msg x.out_next bs = carried.bytes ∙ ap (λ o. o.2.out_msg) e in
    let stop : z.in_len ≡ x.out_next + length bs = carried.stop ∙ ap (λ o. o.2.out_next) e in
    let pending = put-Pending x z bs room msg carried.start stop in
    let end : z.in_next + length bs ≡ z.in_len = omega (arith, carried.start, stop) in
    (
      ap (λ o. o.0) e,
      p.decodes a b z k f decoding pending ∙ ap (λ n. (true, a, record z { in_next = n })) end,
    )

abbrev pub vector_wire : {A : Type 0} → (A → List ℕ) → List A → List ℕ
vector_wire wire [] = []
vector_wire wire (a ∷ l) = wire a ++ vector_wire wire l

abbrev pub All : {A : Type 0} → (A → Type 0) → List A → Type 0
All Ok [] = Unit
All Ok (a ∷ l) = Ok a × All Ok l

-- As many elements, and each fits.
abbrev pub AllFit : {A : Type 0} → (A → A → Type 0) → List A → List A → Type 0
AllFit Fits [] [] = Unit
AllFit Fits [] (b ∷ bs) = ⊥
AllFit Fits (a ∷ l) [] = ⊥
AllFit Fits (a ∷ l) (b ∷ bs) = Fits a b × AllFit Fits l bs

module _ {A : Type 0} {c : Coder A} {wire : A → List ℕ} {Ok : A → Type 0} {Fits : A → A → Type 0}
    (p : Codec c wire Ok Fits) where
  vector_whole : (l : List A) → All Ok l → length (vector_wire wire l) % 4 ≡ 0
  vector_whole [] k = refl
  vector_whole (a ∷ l) (k, ks) =
      omega (arith, length-append (wire a) (vector_wire wire l), p.whole a k, vector_whole l ks)

  vector_encodes :
      (l : List A) (x : Xdr)
      → All Ok l
      → x.x_op ≡ encode
      → Room x (length (vector_wire wire l))
      → xdr_vector c l x ≡ (true, l, emit (vector_wire wire l) x)
  unfolding xdr_vector put
  vector_encodes [] x k e room =
      let z : x.out_next ≡ x.out_next + 0 = omega arith in
      ap (λ n. (true, [], record x { out_next = n })) z
  vector_encodes (a ∷ l) x (k, ks) e room =
      let n = length-append (wire a) (vector_wire wire l) in
      let y = emit (wire a) x in
      let here : Room x (length (wire a)) = record {
        aligned = room.aligned;
        inside = omega (arith, n, room.inside);
      } in
      let there : Room y (length (vector_wire wire l)) = record {
        aligned = omega (arith, room.aligned, p.whole a k);
        inside = omega (arith, n, room.inside);
      } in
      let tail : xdr_vector c l y ≡ (true, l, emit (wire a ++ vector_wire wire l) x) =
        vector_encodes l y ks e there
        ∙ ap (λ z. (true, l, z)) (emit-append (wire a) (vector_wire wire l) x) in
      rw (p.encodes a x k e here) (ap (cons_result c a) tail)

  vector_decodes :
      (l bs : List A) (x : Xdr)
      → All Ok l
      → AllFit Fits l bs
      → x.x_op ≡ decode
      → Pending x (vector_wire wire l)
      → xdr_vector c bs x ≡ (true, l, skip (length (vector_wire wire l)) x)
  unfolding xdr_vector
  vector_decodes [] [] x k f e w =
      let z : x.in_next ≡ x.in_next + 0 = omega arith in
      ap (λ n. (true, [], record x { in_next = n })) z
  vector_decodes [] (b ∷ bs) x k f e w = absurd f
  vector_decodes (a ∷ l) [] x k f e w = absurd f
  vector_decodes (a ∷ l) (b ∷ bs) x (k, ks) (f, fs) e w =
      let n = length-append (wire a) (vector_wire wire l) in
      let (u, v) = window-split x.in_msg x.in_next (wire a) (vector_wire wire l) w.bytes in
      let here : Pending x (wire a) = record {
        aligned = w.aligned;
        bytes = u;
        inside = omega (arith, n, w.inside);
        small = w.small;
      } in
      let there : Pending (skip (length (wire a)) x) (vector_wire wire l) = record {
        aligned = omega (arith, w.aligned, p.whole a k);
        bytes = v;
        inside = omega (arith, n, w.inside);
        small = w.small;
      } in
      let step : x.in_next + length (wire a) + length (vector_wire wire l)
          ≡ x.in_next + length (wire a ++ vector_wire wire l) =
        omega (arith, n) in
      rw (p.decodes a b x k f e here) (
        ap (cons_result c a) (vector_decodes l bs (skip (length (wire a)) x) ks fs e there)
        ∙ ap (λ m. (true, a ∷ l, record x { in_next = m })) step)

  vector_frees : (l : List A) (x : Xdr) → All Ok l → x.x_op ≡ free → xdr_vector c l x ≡ (true, l, x)
  unfolding xdr_vector
  vector_frees [] x k e = refl
  vector_frees (a ∷ l) x (k, ks) e =
      rw (p.frees a x k e) (ap (cons_result c a) (vector_frees l x ks e))

  -- A vector of values of a coder that keeps its promise keeps it too: the elements one after the other.
  pub vector-Codec : Codec (xdr_vector c) (vector_wire wire) (All Ok) (AllFit Fits)
  vector-Codec = record {
    whole = vector_whole;
    encodes = vector_encodes;
    decodes = vector_decodes;
    frees = vector_frees;
  }
