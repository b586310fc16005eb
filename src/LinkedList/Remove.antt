-- ===== src/LinkedList/Remove.antt =====
-- linked_list_remove of gps/utils/linked_list.c.
use android_device_generic_m.Base.{
  ◌≡◌, refl, true, false, some, none, Option, List, [], ◌∷◌, ◌++◌, ◌==◌, ne→not_eq, ==_refl,
}
use android_device_generic_m.Store.{
  Ptr, null, list_state, Heap, done, Returns, load, load_list, set_next, free_cell,
}
use android_device_generic_m.LinkedList.{ListErr, success, unavailable_resource, linked_list_remove}
use android_device_generic_m.LinkedList.Chain.{
  Cell, last, last-append, last-ne-null, Seg-split, Seg-last, not-eq-last, IsList,
}
use android_device_generic_m.LinkedList.Cut.{Cut, Cut_of, Place, Seg-Place}

-- The oldest cell `c` is gone, its object is handed out, and no callback was made.
pub record Removed (l : Ptr) (xs : List Cell) (c : Cell) (h : Heap) (r : ListErr × Option Ptr)
    (g : Heap) : Type 0 where
  pub answer : r ≡ (success, some c.payload)
  pub gap : Cut l xs c [] h g
  pub calls : g.calls ≡ h.calls

module _ (l : Ptr) (c : Cell) (h : Heap) where
  remove-single : IsList h l (c ∷ []) → Returns (Removed l [] c h) (linked_list_remove l true h)
  unfolding linked_list_remove load_list load set_next free_cell
  remove-single is =
      let p : Place h [] c [] = Seg-Place h [] c [] is.chain in
      simp (ne→not_eq is.handle, is.header, ne→not_eq p.ne_null, p.holds)
        (record {
          answer = refl;
          gap = Cut_of h _ l [] c [] is (λ a. refl) (simp ==_refl) (λ a n. simp (ne→not_eq n));
          calls = refl;
        })

  remove-last :
      (d : Cell) (xs : List Cell)
      → IsList h l (d ∷ xs ++ c ∷ [])
      → Returns (Removed l (d ∷ xs) c h) (linked_list_remove l true h)
  unfolding linked_list_remove load_list load set_next free_cell
  remove-last d xs is =
      let p : Place h (d ∷ xs) c [] = Seg-Place h (d ∷ xs) c [] is.chain in
      let front = (Seg-split h.cell null (d ∷ xs) (c ∷ []) null is.chain).0 in
      let n = last-ne-null h.cell null d xs c.addr front in
      let (e, at) = Seg-last h.cell null d xs c.addr front in
      let header : h.lists l ≡ some (list_state d.addr c.addr) =
        rw (last-append d.addr xs (c ∷ [])) at is.header in
      let other : (c.addr == last d.addr xs) ≡ false = not-eq-last c.addr d xs p.not_left in
      simp (ne→not_eq is.handle, header, ne→not_eq p.ne_null, p.holds, ne→not_eq n, at, other)
        (record {
          answer = refl;
          gap =
              Cut_of h _ l (d ∷ xs) c [] is (λ a. rw at) (simp ==_refl) (λ a u. simp (ne→not_eq u));
          calls = refl;
        })

  -- On a well-formed list linked_list_remove hands out the object of the last cell, the oldest one,
  -- frees that cell and leaves the others as the list.
  pub remove_oldest :
      (xs : List Cell)
      → IsList h l (xs ++ c ∷ [])
      → Returns (Removed l xs c h) (linked_list_remove l true h)
  remove_oldest [] = remove-single
  remove_oldest (d ∷ xs) = remove-last d xs

-- On an empty list linked_list_remove answers unavailable_resource and changes nothing.
pub remove_none :
    (l : Ptr) (h : Heap)
    → IsList h l []
    → linked_list_remove l true h ≡ done (unavailable_resource, none) h
unfolding linked_list_remove load_list
remove_none l h is = simp (ne→not_eq is.handle, is.header)
