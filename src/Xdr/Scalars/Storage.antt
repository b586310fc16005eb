-- ===== src/Xdr/Scalars/Storage.antt =====
-- gps/libloc/librpc/xdr.c: the coders that allocate. A pointer is none where it is NULL, and otherwise
-- what it points at. mem_alloc is an argument, the storage that it returned or none; a list that is
-- written in place is long enough for what is written.
pub mod Strings
pub mod Pointers
mod Tests
use android_device_generic_m.Base.{
  ℕ, zero, suc, ◌+◌, ◌*◌, ◌%◌, ◌^◌, Bool, true, false, not, ◌&&◌, Option, none, some, List, [], ◌∷◌,
  ◌++◌, length, take, set, ◌==◌, ltb, leb, get_or, if◌then◌else◌,
}
use android_device_generic_m.Xdr.{
  Xdr, XdrOp, encode, decode, free, add32, ◌&&&◌, accept, refuse, Bytes,
}
use android_device_generic_m.Xdr.Transport.{send_uint32, send_bytes, recv_uint32, recv_bytes}
use android_device_generic_m.Xdr.Scalars.{Coder, sent, xdr_u_int, xdr_bool, xdr_opaque, xdr_vector}

module _ {ℓ} {A : Type ℓ} where
  abbrev pub drop : ℕ → List A → List A
  drop zero l = l
  drop (suc n) [] = []
  drop (suc n) (a ∷ l) = drop n l

  -- Storage that is there, or is allocated.
  abbrev pub allocated : (mem_alloc : Option A) → Option A → Option A
  allocated mem_alloc none = mem_alloc
  allocated mem_alloc (some m) = some m

unfoldable pub strlen : List ℕ → ℕ
strlen [] = 0
strlen (b ∷ bs) = let rest = strlen bs in if b == 0 then 0 else suc rest

-- The first bytes of the storage are replaced by those that were decoded.
abbrev pub filled : List ℕ → Bool × List ℕ × Xdr → Bool × Option (List ℕ) × Xdr
filled m (ok, bs, x) = (ok, some (bs ++ drop (length bs) m), x)

abbrev pub coded_for : Option (List ℕ) → Bool × List ℕ × Xdr → Bool × Option (List ℕ) × Xdr
coded_for p (ok, bs, x) = (ok, p, x)

abbrev pub string_out : (maxsize : ℕ) → List ℕ → Bool × ℕ × Xdr → Bool × Option (List ℕ) × Xdr
string_out maxsize m (false, size, x) = (false, some m, x)
string_out maxsize m (true, size, x) =
    if ltb maxsize size then (false, some m, x) else coded_for (some m) (xdr_opaque (take size m) x)

abbrev pub string_into : (size : ℕ) → Option (List ℕ) → Xdr → Bool × Option (List ℕ) × Xdr
string_into size none x = (false, none, x)
string_into size (some m) x = filled (set m size 0) (xdr_opaque (take size (set m size 0)) x)

abbrev pub string_in :
    (mem_alloc : Option (List ℕ)) (maxsize : ℕ)
    → Option (List ℕ)
    → Bool × ℕ × Xdr
    → Bool × Option (List ℕ) × Xdr
string_in mem_alloc maxsize p (false, size, x) = (false, p, x)
string_in mem_alloc maxsize p (true, size, x) =
    if ltb maxsize size
    then (false, p, x)
    else if add32 size 1 == 0
    then (true, p, x)
    else string_into size (allocated mem_alloc p) x

abbrev pub string_free : (maxsize : ℕ) → List ℕ → Bool × ℕ × Xdr → Bool × Option (List ℕ) × Xdr
string_free maxsize m (false, size, x) = (false, some m, x)
string_free maxsize m (true, size, x) =
    if ltb maxsize size then (false, some m, x) else (true, none, x)

abbrev pub string_op :
    XdrOp
    → (mem_alloc : Option (List ℕ)) (maxsize : ℕ) → Option (List ℕ)
    → Xdr
    → Bool × Option (List ℕ) × Xdr
string_op encode mem_alloc maxsize none x = (false, none, x)
string_op encode mem_alloc maxsize (some m) x = string_out maxsize m (xdr_u_int (strlen m) x)
string_op decode mem_alloc maxsize p x = string_in mem_alloc maxsize p (xdr_u_int 0 x)
string_op free mem_alloc maxsize none x = (true, none, x)
string_op free mem_alloc maxsize (some m) x = string_free maxsize m (xdr_u_int (strlen m) x)

-- The length that is decoded starts from anything; here from 0.
unfoldable pub xdr_string : (mem_alloc : Option (List ℕ)) (maxsize : ℕ) → Coder (Option (List ℕ))
xdr_string mem_alloc maxsize p x = string_op x.x_op mem_alloc maxsize p x

-- `*cpp` and `*sizep`.
abbrev pub Counted : Type 0
Counted = Option (List ℕ) × ℕ

abbrev pub bytes_got : (size : ℕ) → List ℕ → Option (List ℕ) × Xdr → Bool × Counted × Xdr
bytes_got size m (none, x) = (false, (some m, size), x)
bytes_got size m (some bs, x) = (true, (some (bs ++ drop size m), size), x)

abbrev pub bytes_into : (size : ℕ) → Option (List ℕ) → Xdr → Bool × Counted × Xdr
bytes_into size none x = (false, (none, size), x)
bytes_into size (some m) x = bytes_got size m (recv_bytes size x)

abbrev pub bytes_in :
    (mem_alloc : Option (List ℕ)) (maxsize : ℕ) → Counted → Option ℕ × Xdr → Bool × Counted × Xdr
bytes_in mem_alloc maxsize p (none, x) = (false, p, x)
bytes_in mem_alloc maxsize p (some size, x) =
    if ltb maxsize size
    then (false, (p.0, size), x)
    else if size == 0
    then (true, (p.0, 0), x)
    else bytes_into size (allocated mem_alloc p.0) x

-- The bytes at `*cpp`; a NULL pointer goes with the size 0.
abbrev pub bytes_at : Option (List ℕ) → Bytes
bytes_at none i = 0
bytes_at (some m) i = get_or m i 0

abbrev pub bytes_op :
    XdrOp → (mem_alloc : Option (List ℕ)) (maxsize : ℕ) → Counted → Xdr → Bool × Counted × Xdr
bytes_op encode mem_alloc maxsize (cpp, size) x =
    sent (cpp, size)
      ((send_uint32 size
          &&& (if leb size maxsize then accept else refuse)
          &&& send_bytes (bytes_at cpp) size)
        x)
bytes_op decode mem_alloc maxsize p x = bytes_in mem_alloc maxsize p (recv_uint32 x)
bytes_op free mem_alloc maxsize (cpp, size) x = (true, (none, size), x)

unfoldable pub xdr_bytes : (mem_alloc : Option (List ℕ)) (maxsize : ℕ) → Coder Counted
xdr_bytes mem_alloc maxsize p x = bytes_op x.x_op mem_alloc maxsize p x

module _ {A : Type 0} (proc : Coder A) where
  -- XDR_FREE frees the object behind the pointer.
  abbrev pub freed_after : XdrOp → Bool × A × Xdr → Bool × Option A × Xdr
  freed_after encode (ok, a, x) = (ok, some a, x)
  freed_after decode (ok, a, x) = (ok, some a, x)
  freed_after free (ok, a, x) = (ok, none, x)

  abbrev pub reference_new : (mem_alloc : Option A) → Xdr → Bool × Option A × Xdr
  reference_new none x = (false, none, x)
  reference_new (some zeros) x = freed_after x.x_op (proc zeros x)

  abbrev pub reference_op :
      XdrOp → (mem_alloc : Option A) → Option A → Xdr → Option (Bool × Option A × Xdr)
  reference_op op mem_alloc (some a) x = some (freed_after op (proc a x))
  reference_op encode mem_alloc none x = none
  reference_op decode mem_alloc none x = some (reference_new mem_alloc x)
  reference_op free mem_alloc none x = some (true, none, x)

  -- `mem_alloc` is the storage after memset. None is a call of `proc` on NULL.
  unfoldable pub xdr_reference :
      (mem_alloc : Option A) → Option A → Xdr → Option (Bool × Option A × Xdr)
  xdr_reference mem_alloc p x = reference_op x.x_op mem_alloc p x

  abbrev pub is_there : Option A → ℕ
  is_there none = 0
  is_there (some a) = 1

  abbrev pub pointer_after :
      (mem_alloc : Option A) → Option A → Bool × ℕ × Xdr → Option (Bool × Option A × Xdr)
  pointer_after mem_alloc p (false, more_data, x) = some (false, p, x)
  pointer_after mem_alloc p (true, more_data, x) =
      if more_data == 0 then some (true, none, x) else xdr_reference mem_alloc p x

  unfoldable pub xdr_pointer :
      (mem_alloc : Option A) → Option A → Xdr → Option (Bool × Option A × Xdr)
  xdr_pointer mem_alloc p x = pointer_after mem_alloc p (xdr_bool (is_there p) x)

  -- `*addrp` and `*sizep`.
  abbrev pub ArrayOf : Type 0
  ArrayOf = Option (List A) × ℕ

  abbrev pub array_done : XdrOp → (c : ℕ) → List A → Bool × List A × Xdr → Bool × ArrayOf × Xdr
  array_done encode c l (ok, as', x) = (ok, (some (as' ++ drop c l), c), x)
  array_done decode c l (ok, as', x) = (ok, (some (as' ++ drop c l), c), x)
  array_done free c l (ok, as', x) = (ok, (none, c), x)

  abbrev pub array_elements : (c : ℕ) → List A → Xdr → Bool × ArrayOf × Xdr
  array_elements c l x = array_done x.x_op c l (xdr_vector proc (take c l) x)

  abbrev pub array_new : (c : ℕ) → Option (List A) → Xdr → Bool × ArrayOf × Xdr
  array_new c none x = (false, (none, c), x)
  array_new c (some l) x = array_elements c l x

  abbrev pub array_target :
      XdrOp
      → (mem_alloc : ℕ → Option (List A)) (elsize c : ℕ) → Option (List A)
      → Xdr
      → Option (Bool × ArrayOf × Xdr)
  array_target op mem_alloc elsize c (some l) x = some (array_elements c l x)
  array_target encode mem_alloc elsize c none x = if c == 0 then some (true, (none, c), x) else none
  array_target decode mem_alloc elsize c none x =
      if c == 0
      then some (true, (none, c), x)
      else some (array_new c (mem_alloc (c * elsize % 2 ^ 32)) x)
  array_target free mem_alloc elsize c none x = some (true, (none, c), x)

  abbrev pub may_be_long : XdrOp → Bool
  may_be_long encode = false
  may_be_long decode = false
  may_be_long free = true

  abbrev pub array_sized :
      (mem_alloc : ℕ → Option (List A)) (maxsize elsize : ℕ)
      → Option (List A)
      → Bool × ℕ × Xdr
      → Option (Bool × ArrayOf × Xdr)
  array_sized mem_alloc maxsize elsize p (false, c, x) = some (false, (p, c), x)
  array_sized mem_alloc maxsize elsize p (true, c, x) =
      if ltb maxsize c && not (may_be_long x.x_op)
      then some (false, (p, c), x)
      else array_target x.x_op mem_alloc elsize c p x

  -- `mem_alloc` is the cleared storage for a number of bytes. None is a call of `proc` on NULL.
  unfoldable pub xdr_array :
      (mem_alloc : ℕ → Option (List A)) (maxsize elsize : ℕ)
      → ArrayOf
      → Xdr
      → Option (Bool × ArrayOf × Xdr)
  xdr_array mem_alloc maxsize elsize (p, size) x =
      array_sized mem_alloc maxsize elsize p (xdr_u_int size x)
