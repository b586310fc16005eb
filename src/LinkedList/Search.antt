-- ===== src/LinkedList/Search.antt =====
-- linked_list_search of gps/utils/linked_list.c.
use android_device_generic_m.Base.{
  ℕ, zero, suc, ◌<◌, ◌≡◌, refl, ◌≢◌, Bool, true, false, some, none, Option, List, [], ◌∷◌, ◌++◌,
  arith, ◌==◌, ne→not_eq, length, if◌then◌else◌,
}
use android_device_generic_m.Store.{
  Ptr, null, Heap, done, Returns, Returns-follow, pure, ◌>>◌, load,
}
use android_device_generic_m.LinkedList.{
  ListErr, success, linked_list_search, search_loop, remove_found,
}
use android_device_generic_m.LinkedList.Chain.{
  Cell, first, first-append, last, last-ne-null, Seg, Seg-split, IsList,
}
use android_device_generic_m.LinkedList.Found.{CutWithCalls, found-Cut}
use android_device_generic_m.LinkedList.Steps.{load-done, load_list-done}
use android_device_generic_m.LinkedList.Cut.{Seg-Place}

-- `equal` answers no on every cell.
abbrev pub Misses : (Ptr → Ptr → Bool) → Ptr → List Cell → Type 0
Misses equal d [] = Unit
Misses equal d (c ∷ xs) = (equal d c.payload ≡ false) × Misses equal d xs

module _ (equal : Ptr → Ptr → Bool) (data_0 l : Ptr) (has_out rm : Bool) (h : Heap) where
  -- The loop passes over cells that do not match.
  loop_skip :
      (k : ℕ) (p : Ptr) (xs : List Cell) (s : Ptr)
      → length xs < k
      → Misses equal data_0 xs
      → Seg h.cell p xs s
      → (j : ℕ) × (search_loop equal data_0 l has_out rm k (first xs s) h
          ≡ search_loop equal data_0 l has_out rm (suc j) s h)
  unfolding search_loop load
  loop_skip zero p xs s f m g = absurd (omega arith)
  loop_skip (suc k) p [] s f m g = (k, refl)
  loop_skip (suc k) p (c ∷ xs) s f (no_match, m) (n, at, o, r) =
      let (j, e) = loop_skip k c.addr xs s (omega arith) m r in
      (j, simp (ne→not_eq n, at, no_match) e)

-- The tail of a list with a cell is an address.
tail-ne-null :
    (h : Heap) (xs : List Cell) (c : Cell) (ys : List Cell)
    → Seg h.cell null (xs ++ c ∷ ys) null
    → last null (xs ++ c ∷ ys) ≢ null
tail-ne-null h [] c ys s = last-ne-null h.cell null c ys null s
tail-ne-null h (d ∷ xs) c ys s = last-ne-null h.cell null d (xs ++ c ∷ ys) null s

tail-not_null :
    (h : Heap) (xs : List Cell) → xs ≢ [] → Seg h.cell null xs null → (last null xs == null) ≡ false
tail-not_null h [] ne s = absurd (ne refl)
tail-not_null h (c ∷ xs) ne s = ne→not_eq (last-ne-null h.cell null c xs null s)

-- What the caller of linked_list_search gets for an object `d`.
abbrev pub reported : Bool → Ptr → ListErr × Option Ptr
reported has_out d = (success, if has_out then some d else none)

-- The first match goes, or nothing is written.
abbrev pub Found :
    Ptr
    → (rm has_out : Bool) → List Cell
    → Cell
    → List Cell
    → Heap
    → ListErr × Option Ptr
    → Heap
    → Type 0
Found l true has_out xs c ys h r g =
    (r ≡ reported has_out c.payload) × CutWithCalls l has_out xs c ys h g
Found l false has_out xs c ys h r g = (r ≡ reported has_out c.payload) × (g ≡ h)

module _ (equal : Ptr → Ptr → Bool) (data_0 l : Ptr) (has_out : Bool) (h : Heap) (fuel : ℕ)
    (xs : List Cell) (m : Misses equal data_0 xs) (f : length xs < fuel) where
  -- When a well-formed list has a cell whose object matches behind fewer cells that do not than the fuel,
  -- linked_list_search finds it and reports its object; it cuts the cell out, with the callback where
  -- nothing is handed out, just when removal is asked for.
  pub search-Found :
      (rm : Bool) (c : Cell) (ys : List Cell)
      → equal data_0 c.payload ≡ true
      → IsList h l (xs ++ c ∷ ys)
      → Returns
          (Found l rm has_out xs c ys h)
          (linked_list_search fuel l has_out (some equal) data_0 rm h)
  unfolding linked_list_search search_loop
  search-Found true c ys hit is =
      let (j, e) =
        loop_skip equal data_0 l has_out true h fuel null xs c.addr f m
          (Seg-split h.cell null xs (c ∷ ys) null is.chain).0 in
      let p = Seg-Place h xs c ys is.chain in
      rw
        (
          ne→not_eq is.handle,
          load_list-done h l is.handle is.header,
          ne→not_eq (tail-ne-null h xs c ys is.chain),
          first-append xs (c ∷ ys) null,
          e,
          ne→not_eq p.ne_null,
          load-done h c.addr p.ne_null p.holds,
          hit,
        )
        (Returns-follow (Found l true has_out xs c ys h)
          (((remove_found l c.addr has_out) >> pure (some c.payload)) h) _
          (Returns-follow Half (remove_found l c.addr has_out h) _
            (found-Cut l has_out c h xs ys is) λ _ g k. (refl, k))
          λ r g (q, k). rw q (refl, k))
    where
      Half : Option Ptr → Heap → Type 0
      Half r g = (r ≡ some c.payload) × CutWithCalls l has_out xs c ys h g
  search-Found false c ys hit is =
      let (j, e) =
        loop_skip equal data_0 l has_out false h fuel null xs c.addr f m
          (Seg-split h.cell null xs (c ∷ ys) null is.chain).0 in
      let p = Seg-Place h xs c ys is.chain in
      rw
        (
          ne→not_eq is.handle,
          load_list-done h l is.handle is.header,
          ne→not_eq (tail-ne-null h xs c ys is.chain),
          first-append xs (c ∷ ys) null,
          e,
          ne→not_eq p.ne_null,
          load-done h c.addr p.ne_null p.holds,
          hit,
        )
        (refl, refl)

  -- When no object of a non-empty well-formed list matches, and the fuel is more than its length,
  -- linked_list_search changes nothing and reports NULL.
  pub search_absent :
      xs ≢ []
      → IsList h l xs
      → (rm : Bool)
      → linked_list_search fuel l has_out (some equal) data_0 rm h ≡ done (reported has_out null) h
  unfolding linked_list_search search_loop
  search_absent ne is rm =
      let (j, e) = loop_skip equal data_0 l has_out rm h fuel null xs null f m is.chain in
      rw (
        ne→not_eq is.handle,
        load_list-done h l is.handle is.header,
        tail-not_null h xs ne is.chain,
        e,
      )
