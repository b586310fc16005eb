-- ===== src/LinkedList/Found.antt =====
-- The removal that linked_list_search of gps/utils/linked_list.c makes at the element it has found.
use android_device_generic_m.Base.{
  ◌≡◌, refl, Bool, false, some, List, [], ◌∷◌, ◌++◌, arith, ◌==◌, ne→not_eq, ==_refl,
}
use android_device_generic_m.Store.{
  Ptr, null, list_state, Heap, Returns, load, load_list, free_cell, set_next, set_prev,
}
use android_device_generic_m.LinkedList.{remove_found}
use android_device_generic_m.LinkedList.Callbacks.{dealloc_calls, dealloc_data-done}
use android_device_generic_m.LinkedList.Chain.{
  Cell, has, last, last-ne-null, has-last, last-append, not-eq-last, Seg-last, Seg-split, IsList,
}
use android_device_generic_m.LinkedList.Cut.{Cut, Cut_of, Place, Seg-Place}

-- The cell is cut out, and the callback it owes is made unless its object is copied out.
abbrev pub CutWithCalls : Ptr → Bool → List Cell → Cell → List Cell → Heap → Heap → Type 0
CutWithCalls l has_out xs c ys h g =
    Cut l xs c ys h g × (g.calls ≡ h.calls ++ dealloc_calls has_out c)

second-ne :
    (a : Ptr) (c y : Cell) (ys : List Cell) → has a (c ∷ y ∷ ys) ≡ false → (y.addr == a) ≡ false
second-ne a c y ys o = ground arith

module _ (l : Ptr) (has_out : Bool) (c : Cell) (h : Heap) where
  abbrev pub Goal : List Cell → List Cell → Type 0
  Goal xs ys = Returns (λ _ g. CutWithCalls l has_out xs c ys h g) (remove_found l c.addr has_out h)

  found-single : IsList h l (c ∷ []) → Goal [] []
  unfolding remove_found load_list load set_next set_prev free_cell
  found-single is =
      let p : Place h [] c [] = Seg-Place h [] c [] is.chain in
      simp
        (
          ne→not_eq is.handle,
          is.header,
          ne→not_eq p.ne_null,
          p.holds,
          ==_refl,
          dealloc_data-done has_out c,
        )
        (
          Cut_of h _ l [] c [] is (λ a. ground arith) (simp ==_refl) (λ a n. simp (ne→not_eq n)),
          refl,
        )

  found-first : (y : Cell) (ys : List Cell) → IsList h l (c ∷ y ∷ ys) → Goal [] (y ∷ ys)
  unfolding remove_found load_list load set_next set_prev free_cell
  found-first y ys is =
      let p : Place h [] c (y ∷ ys) = Seg-Place h [] c (y ∷ ys) is.chain in
      let (n, at, o, r) = is.chain.3 in
      let other : (c.addr == y.addr) ≡ false = ground (arith, p.not_right) in
      simp
        (
          ne→not_eq is.handle,
          is.header,
          ne→not_eq p.ne_null,
          p.holds,
          ==_refl,
          dealloc_data-done has_out c,
          ne→not_eq n,
          at,
          other,
        )
        (
          Cut_of h _ l [] c (y ∷ ys) is (λ a. rw at (ground arith)) (simp ==_refl)
              (λ a n. simp (ne→not_eq n)),
          refl,
        )

  found-last : (d : Cell) (xs : List Cell) → IsList h l (d ∷ xs ++ c ∷ []) → Goal (d ∷ xs) []
  unfolding remove_found load_list load set_next set_prev free_cell
  found-last d xs is =
      let p : Place h (d ∷ xs) c [] = Seg-Place h (d ∷ xs) c [] is.chain in
      let front = (Seg-split h.cell null (d ∷ xs) (c ∷ []) null is.chain).0 in
      let n = last-ne-null h.cell null d xs c.addr front in
      let (e, at) = Seg-last h.cell null d xs c.addr front in
      let header : h.lists l ≡ some (list_state d.addr c.addr) =
        rw (last-append d.addr xs (c ∷ [])) at is.header in
      let other : (c.addr == last d.addr xs) ≡ false = not-eq-last c.addr d xs p.not_left in
      simp
        (
          ne→not_eq is.handle,
          header,
          ne→not_eq p.ne_null,
          p.holds,
          ==_refl,
          dealloc_data-done has_out c,
          ne→not_eq n,
          at,
          other,
        )
        (
          Cut_of h _ l (d ∷ xs) c [] is (λ a. rw at (ground arith)) (simp ==_refl)
              (λ a n. simp (ne→not_eq n)),
          refl,
        )

  found-middle :
      (d : Cell) (xs : List Cell) (y : Cell) (ys : List Cell)
      → IsList h l (d ∷ xs ++ c ∷ y ∷ ys)
      → Goal (d ∷ xs) (y ∷ ys)
  unfolding remove_found load_list load set_next set_prev free_cell
  found-middle d xs y ys is =
      let p : Place h (d ∷ xs) c (y ∷ ys) = Seg-Place h (d ∷ xs) c (y ∷ ys) is.chain in
      let (front, (_, _, _, (ny, aty, oy, ry)), apart) =
        Seg-split h.cell null (d ∷ xs) (c ∷ y ∷ ys) null is.chain in
      let n = last-ne-null h.cell null d xs c.addr front in
      let (e, at) = Seg-last h.cell null d xs c.addr front in
      let header : h.lists l ≡ some (list_state d.addr (last y.addr ys)) =
        rw (last-append d.addr xs (c ∷ y ∷ ys)) at is.header in
      let other : (c.addr == last d.addr xs) ≡ false = not-eq-last c.addr d xs p.not_left in
      let right : (c.addr == y.addr) ≡ false = ground (arith, p.not_right) in
      let far : (y.addr == last d.addr xs) ≡ false =
        second-ne (last d.addr xs) c y ys (apart (last d.addr xs) (has-last d xs)) in
      simp
        (
          ne→not_eq is.handle,
          header,
          ne→not_eq p.ne_null,
          p.holds,
          ==_refl,
          dealloc_data-done has_out c,
          ne→not_eq n,
          at,
          other,
          ne→not_eq ny,
          aty,
          right,
          far,
        )
        (
          Cut_of h _ l (d ∷ xs) c (y ∷ ys) is (λ a. rw (far, aty, at) (ground arith)) header
              (λ a n. refl),
          refl,
        )

  pub found-Cut : (xs ys : List Cell) → IsList h l (xs ++ c ∷ ys) → Goal xs ys
  found-Cut [] [] is = found-single is
  found-Cut [] (y ∷ ys) is = found-first y ys is
  found-Cut (d ∷ xs) [] is = found-last d xs is
  found-Cut (d ∷ xs) (y ∷ ys) is = found-middle d xs y ys is
