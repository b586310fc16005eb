-- ===== src/LinkedList/Add.antt =====
-- linked_list_add of gps/utils/linked_list.c.
use android_device_generic_m.Base.{
  ◌≡◌, refl, ◌≢◌, false, none, List, [], ◌∷◌, arith, ◌==◌, ne→not_eq, ==_refl,
}
use android_device_generic_m.Store.{Ptr, null, Heap, Returns, load_list, set_next, set_prev}
use android_device_generic_m.LinkedList.{ListErr, success, linked_list_add}
use android_device_generic_m.LinkedList.Chain.{
  Cell, cell_at, has, Seg, Seg-frame, IsList, SameElsewhere,
}

-- The list has one more cell in front, nothing else changed, and no callback was made.
pub record Added (l : Ptr) (c : Cell) (xs : List Cell) (h : Heap) (r : ListErr) (g : Heap)
    : Type 0 where
  pub answer : r ≡ success
  pub list : IsList g l (c ∷ xs)
  pub same : SameElsewhere l (c ∷ xs) h g
  pub calls : g.calls ≡ h.calls

-- An address with no element is in no chain.
pub not-has_of_none :
    (h : Heap) (p a : Ptr) (xs : List Cell) (s : Ptr)
    → Seg h.cell p xs s
    → h.cell a ≡ none
    → has a xs ≡ false
not-has_of_none h p a [] s c e = refl
not-has_of_none h p a (d ∷ xs) s (n, q, o, r) e =
    ground (arith, not-has_of_none h d.addr a xs s r e)

module _ (fresh l d f : Ptr) (h : Heap) (ready : fresh ≢ null) (free : h.cell fresh ≡ none) where
  add-empty :
      d ≢ null
      → IsList h l []
      → Returns (Added l (cell_at fresh d f) [] h) (linked_list_add fresh l d f h)
  unfolding linked_list_add load_list set_next
  add-empty nd is =
      simp (ne→not_eq is.handle, ne→not_eq nd, ne→not_eq ready, is.header, ==_refl)
        (record {
          answer = refl;
          list = record {
            handle = is.handle;
            header = simp ==_refl;
            chain = (ready, simp ==_refl, refl, tt);
          };
          same = record { cells = λ a o. ground arith; headers = λ a o. simp (ne→not_eq o) };
          calls = refl;
        })

  add-cons :
      (c : Cell) (xs : List Cell)
      → d ≢ null
      → IsList h l (c ∷ xs)
      → Returns (Added l (cell_at fresh d f) (c ∷ xs) h) (linked_list_add fresh l d f h)
  unfolding linked_list_add load_list set_next set_prev
  add-cons c xs nd is =
      let out : has fresh (c ∷ xs) ≡ false =
        not-has_of_none h null fresh (c ∷ xs) null is.chain free in
      let other : (c.addr == fresh) ≡ false = ground arith in
      let (n, e, o, r) = is.chain in
      simp
        (
          ne→not_eq is.handle,
          ne→not_eq nd,
          ne→not_eq ready,
          is.header,
          ==_refl,
          ne→not_eq n,
          e,
          other,
        )
        (record {
          answer = refl;
          list = record {
            handle = is.handle;
            header = simp ==_refl;
            chain = (
              ready,
              ground arith,
              out,
              (n, simp ==_refl, o, Seg-frame h.cell _ c.addr xs null r λ a i. ground arith),
            );
          };
          same = record { cells = λ a u. ground arith; headers = λ a u. simp (ne→not_eq u) };
          calls = refl;
        })

  -- On a well-formed list, with a block of memory that the list does not use, linked_list_add of a
  -- non-NULL object succeeds and puts the object in front; nothing outside the list changes.
  pub add_front :
      (xs : List Cell)
      → d ≢ null
      → IsList h l xs
      → Returns (Added l (cell_at fresh d f) xs h) (linked_list_add fresh l d f h)
  add_front [] = add-empty
  add_front (c ∷ xs) = add-cons c xs
