-- ===== src/Xdr/Scalars/Storage/Pointers.antt =====
-- gps/libloc/librpc/xdr.c: optional objects and counted arrays, as one side sends and the other receives
-- them, and the size of the storage that an array asks for.
use android_device_generic_m.Base.{
  ℕ, ◌+◌, ◌*◌, ◌%◌, ◌^◌, ◌≤◌, ◌<◌, ◌≡◌, ap, ◌∙◌, true, false, not, ◌&&◌, Option, none, some, List,
  ◌++◌, length, length-append, ◌==◌, if◌then◌else◌, arith,
}
use android_device_generic_m.Xdr.{Xdr, encode, decode, be32, emit}
use android_device_generic_m.Xdr.Wire.{
  Room, Pending, skip, length-be32, emit-append, Pending-split, Room-split,
}
use android_device_generic_m.Xdr.Scalars.{Coder}
use android_device_generic_m.Xdr.Scalars.Codec.{Codec}
use android_device_generic_m.Xdr.Scalars.Exact.{words_carried, bool_carried}
use android_device_generic_m.Xdr.Scalars.Storage.{
  xdr_pointer, xdr_reference, reference_op, freed_after, pointer_after, xdr_array, array_sized,
  array_target, array_new, may_be_long,
}
use android_device_generic_m.Xdr.Scalars.Storage.Strings.{word-whole, not_longer}

-- A word that says whether there is an object, and the object.
abbrev pub pointer_wire : {A : Type 0} → (A → List ℕ) → Option A → List ℕ
pointer_wire wire none = be32 0
pointer_wire wire (some a) = be32 1 ++ wire a

abbrev pub Sent : {A : Type 0} → (A → Type 0) → Option A → Type 0
Sent Ok none = Unit
Sent Ok (some a) = Ok a

-- Storage is there for an object, and fits it.
abbrev pub Stored : {A : Type 0} → (A → A → Type 0) → (zeros : A) → Option A → Type 0
Stored Fits zeros none = Unit
Stored Fits zeros (some a) = Fits a zeros

module _ {A : Type 0} {c : Coder A} {wire : A → List ℕ} {Ok : A → Type 0} {Fits : A → A → Type 0}
    (p : Codec c wire Ok Fits) where
  pointer_encodes :
      (o : Option A) (x : Xdr)
      → Sent Ok o
      → x.x_op ≡ encode
      → Room x (length (pointer_wire wire o))
      → xdr_pointer c none o x ≡ some (true, o, emit (pointer_wire wire o) x)
  unfolding xdr_pointer xdr_reference
  pointer_encodes none x k e room =
      ap (pointer_after c none none) (bool_carried.encodes 0 x (omega arith) e room)
  pointer_encodes (some a) x k e room =
      let (r, q) = Room-split x (be32 1) (wire a) (word-whole 1) room in
      let y = emit (be32 1) x in
      ap (pointer_after c none (some a)) (bool_carried.encodes 1 x (omega arith) e r)
      ∙ ap (λ op. reference_op c op none (some a) y) e
      ∙ ap (λ u. some (freed_after c encode u)) (p.encodes a y k e q)
      ∙ ap (λ u. some (true, some a, u)) (emit-append (be32 1) (wire a) x)

  pointer_decodes :
      (o : Option A) (zeros : A) (z : Xdr)
      → Sent Ok o
      → Stored Fits zeros o
      → z.x_op ≡ decode
      → Pending z (pointer_wire wire o)
      → xdr_pointer c (some zeros) none z ≡ some (true, o, skip (length (pointer_wire wire o)) z)
  unfolding xdr_pointer xdr_reference
  pointer_decodes none zeros z k f e w =
      ap (pointer_after c (some zeros) none) (bool_carried.decodes 0 0 z (omega arith) tt e w)
  pointer_decodes (some a) zeros z k f e w =
      let (u, v) = Pending-split z (be32 1) (wire a) (word-whole 1) w in
      let y = skip (length (be32 1)) z in
      let step : z.in_next + length (be32 1) + length (wire a)
          ≡ z.in_next + length (be32 1 ++ wire a) =
        omega (arith, length-append (be32 1) (wire a)) in
      ap (pointer_after c (some zeros) none) (bool_carried.decodes 1 0 z (omega arith) tt e u)
      ∙ ap (λ op. reference_op c op (some zeros) none y) e
      ∙ ap (λ q. some (freed_after c y.x_op q)) (p.decodes a zeros y k f e v)
      ∙ ap (λ op. some (freed_after c op (true, a, skip (length (wire a)) y))) e
      ∙ ap (λ n. some (true, some a, record z { in_next = n })) step

  -- An object behind a pointer, or NULL, is sent as a word and the object, and what was sent is read
  -- into a NULL pointer as the same object, or NULL, if storage that fits is allocated.
  pub pointer_carried :
      (o : Option A) (zeros : A) (x z : Xdr)
      → Sent Ok o
      → Stored Fits zeros o
      → x.x_op ≡ encode
      → z.x_op ≡ decode
      → Room x (length (pointer_wire wire o))
      → Pending z (pointer_wire wire o)
      → (xdr_pointer c none o x ≡ some (true, o, emit (pointer_wire wire o) x))
        × (xdr_pointer c (some zeros) none z
            ≡ some (true, o, skip (length (pointer_wire wire o)) z))
  pointer_carried o zeros x z k f encoding decoding room w =
      (pointer_encodes o x k encoding room, pointer_decodes o zeros z k f decoding w)

-- The storage that is asked for is the number of elements times their size modulo 2^32. Where the
-- product is larger, as many elements as were announced are written into storage for fewer bytes.
pub array_size_wraps :
    {A : Type 0} (c : Coder A) (mem_alloc : ℕ → Option (List A)) (maxsize elsize count : ℕ)
    → (z : Xdr) → count ≤ maxsize
    → 0 < count
    → count < 2 ^ 32
    → 2 ^ 32 ≤ count * elsize
    → z.x_op ≡ decode
    → Pending z (be32 count)
    → (xdr_array c mem_alloc maxsize elsize (none, 0) z
        ≡ some (array_new c count (mem_alloc (count * elsize % 2 ^ 32)) (skip 4 z)))
      × (count * elsize % 2 ^ 32 < count * elsize)
unfolding xdr_array
array_size_wraps c mem_alloc maxsize elsize count z h pos small wraps e w =
    let f = array_sized c mem_alloc maxsize elsize none in
    let y = skip (length (be32 count)) z in
    let here : (count == 0) ≡ false = ground (arith, pos) in
    let n = length-be32 count in
    (
      ap f (words_carried.1.decodes count 0 z small tt e w)
          ∙ ap
              (λ b.
                if b && not (may_be_long c y.x_op)
                then some (false, (none, count), y)
                else array_target c y.x_op mem_alloc elsize count none y)
              (not_longer count maxsize h)
          ∙ ap (λ op. array_target c op mem_alloc elsize count none y) e
          ∙ ap
              (λ b.
                if b
                then some (true, (none, count), y)
                else some (array_new c count (mem_alloc (count * elsize % 2 ^ 32)) y))
              here
          ∙ ap (λ k. some (array_new c count (mem_alloc (count * elsize % 2 ^ 32)) (skip k z))) n,
      omega (arith, wraps),
    )
