-- ===== src/LinkedList/Cut.antt =====
-- A cell taken out of a list of gps/utils/linked_list.c, and the facts about the place it is taken from.
use android_device_generic_m.Base.{
  ◌≡◌, ◌≢◌, false, some, none, inl, inr, List, ◌∷◌, ◌++◌, arith, Bool-cases, ==_refl,
}
use android_device_generic_m.Store.{Ptr, null, element, list_state, Heap}
use android_device_generic_m.LinkedList.Chain.{
  Cell, has, has-append, first, first-append, last, last-append, Seg, Seg-frame, Seg-split, IsList,
  SameElsewhere, cut, cut-Seg, cut-outside,
}

-- The list has lost the cell `c`, whose element is freed, and nothing else changed.
pub record Cut (l : Ptr) (xs : List Cell) (c : Cell) (ys : List Cell) (h g : Heap) : Type 0 where
  pub list : IsList g l (xs ++ ys)
  pub freed : g.cell c.addr ≡ none
  pub same : SameElsewhere l (xs ++ c ∷ ys) h g

-- What is known of the element of `c` in the chain `xs ++ c ∷ ys`.
pub record Place (h : Heap) (xs : List Cell) (c : Cell) (ys : List Cell) : Type 0 where
  pub ne_null : c.addr ≢ null
  pub holds : h.cell c.addr ≡ some (element (first ys null) (last null xs) c.payload c.dealloc)
  pub not_left : has c.addr xs ≡ false
  pub not_right : has c.addr ys ≡ false

pub Seg-Place :
    (h : Heap) (xs : List Cell) (c : Cell) (ys : List Cell)
    → Seg h.cell null (xs ++ c ∷ ys) null
    → Place h xs c ys
Seg-Place h xs c ys s =
    let (front, (n, e, o, back), apart) = Seg-split h.cell null xs (c ∷ ys) null s in
    record {
      ne_null = n;
      holds = e;
      not_left = elim (Bool-cases (has c.addr xs)) [
        | inl i ↦ ground (arith, apart c.addr i)
        | inr i ↦ i
      ];
      not_right = o;
    }

module _ (h g : Heap) (l : Ptr) (xs : List Cell) (c : Cell) (ys : List Cell) where
  pub Cut_of :
      IsList h l (xs ++ c ∷ ys)
      → ((a : Ptr) → g.cell a ≡ cut h.cell xs c ys a)
      → g.lists l ≡ some (list_state (first xs (first ys null)) (last (last null xs) ys))
      → ((a : Ptr) → a ≢ l → g.lists a ≡ h.lists a)
      → Cut l xs c ys h g
  Cut_of is cells header others = record {
    list = record {
      handle = is.handle;
      header = rw (first-append xs ys null, last-append null xs ys) header;
      chain =
          Seg-frame (cut h.cell xs c ys) g.cell null (xs ++ ys) null
            (cut-Seg h.cell xs c ys is.chain) (λ a i. cells a);
    };
    freed = rw (cells c.addr, ==_refl);
    same = record {
      cells = λ a o. rw cells (
          let o' = rw (has-append a xs (c ∷ ys)) at o in
          cut-outside h.cell xs c ys a (ground arith) (ground arith) (ground arith));
      headers = others;
    };
  }
