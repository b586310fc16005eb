-- ===== src/LinkedList/Chain/Split.antt =====
-- Segments of a chain, how they split and join, and what leaves them alone.
use android_device_generic_m.Base.{
  ◌≡◌, refl, ◌≢◌, Bool, true, false, ◌||◌, Option, some, List, [], ◌∷◌, ◌++◌, arith, ◌==◌,
}
use android_device_generic_m.Store.{Ptr, null, Element, element, Cells, update, Heap, list_state}
use mathlib.Core.Bool.{or_assoc}

-- An element at its address, with what the list does not change.
pub record Cell : Type 0 where
  pub addr : Ptr
  pub payload : Ptr
  pub dealloc : Ptr

abbrev pub cell_at : Ptr → Ptr → Ptr → Cell
cell_at a d f = record { addr = a; payload = d; dealloc = f }

-- The address of the first cell, and of the last one.
abbrev pub first : List Cell → Ptr → Ptr
first [] stop = stop
first (c ∷ xs) stop = c.addr

abbrev pub last : Ptr → List Cell → Ptr
last p [] = p
last p (c ∷ xs) = last c.addr xs

abbrev pub has : Ptr → List Cell → Bool
has a [] = false
has a (c ∷ xs) = (a == c.addr) || has a xs

-- From the first cell the `next` pointers lead through distinct elements to `stop`, and the `prev`
-- pointers lead back to `p`.
abbrev pub Seg : Cells → Ptr → List Cell → Ptr → Type 0
Seg m p [] stop = Unit
Seg m p (c ∷ xs) stop =
    (c.addr ≢ null)
    × (m c.addr ≡ some (element (first xs stop) p c.payload c.dealloc))
    × (has c.addr xs ≡ false)
    × Seg m c.addr xs stop

abbrev pub Apart : List Cell → List Cell → Type 0
Apart xs ys = (a : Ptr) → has a xs ≡ true → has a ys ≡ false

-- The header at `l` and its chain stand for `xs`.
pub record IsList (h : Heap) (l : Ptr) (xs : List Cell) : Type 0 where
  pub handle : l ≢ null
  pub header : h.lists l ≡ some (list_state (first xs null) (last null xs))
  pub chain : Seg h.cell null xs null

-- `g` agrees with `h` on every element outside `xs` and on every other header.
pub record SameElsewhere (l : Ptr) (xs : List Cell) (h g : Heap) : Type 0 where
  pub cells : (a : Ptr) → has a xs ≡ false → g.cell a ≡ h.cell a
  pub headers : (a : Ptr) → a ≢ l → g.lists a ≡ h.lists a

pub has-append : (a : Ptr) (xs ys : List Cell) → has a (xs ++ ys) ≡ (has a xs || has a ys)
has-append a [] ys = refl
has-append a (c ∷ xs) ys = rw (has-append a xs ys, or_assoc)

pub first-append : (xs ys : List Cell) (s : Ptr) → first (xs ++ ys) s ≡ first xs (first ys s)
first-append [] ys s = refl
first-append (c ∷ xs) ys s = refl

pub last-append : (p : Ptr) (xs ys : List Cell) → last p (xs ++ ys) ≡ last (last p xs) ys
last-append p [] ys = refl
last-append p (c ∷ xs) ys = last-append c.addr xs ys

pub Seg-frame :
    (m g : Cells) (p : Ptr) (xs : List Cell) (s : Ptr)
    → Seg m p xs s
    → ((a : Ptr) → has a xs ≡ true → g a ≡ m a)
    → Seg g p xs s
Seg-frame m g p [] s h same = tt
Seg-frame m g p (c ∷ xs) s (n, e, o, r) same =
    (n, ground (arith, same c.addr), o, Seg-frame m g c.addr xs s r λ a i. ground (arith, same a))

pub Seg-update :
    (m : Cells) (p : Ptr) (xs : List Cell) (s a : Ptr) (v : Option Element)
    → Seg m p xs s
    → has a xs ≡ false
    → Seg (update m a v) p xs s
Seg-update m p xs s a v h o = Seg-frame m _ p xs s h λ b i. ground arith

pub Seg-split :
    (m : Cells) (p : Ptr) (xs ys : List Cell) (s : Ptr)
    → Seg m p (xs ++ ys) s
    → Seg m p xs (first ys s) × Seg m (last p xs) ys s × Apart xs ys
Seg-split m p [] ys s h = (tt, h, λ a i. cc)
Seg-split m p (c ∷ xs) ys s (n, e, o, r) =
    let (u, v, apart) = Seg-split m c.addr xs ys s r in
    let out : (has c.addr xs || has c.addr ys) ≡ false = rw (has-append c.addr xs ys) at o in
    ((n, rw (first-append xs ys s) at e, ground arith, u), v, λ a i. ground (arith, apart a))

pub Seg-join :
    (m : Cells) (p : Ptr) (xs ys : List Cell) (s : Ptr)
    → Seg m p xs (first ys s)
    → Seg m (last p xs) ys s
    → Apart xs ys
    → Seg m p (xs ++ ys) s
Seg-join m p [] ys s h k apart = k
Seg-join m p (c ∷ xs) ys s (n, e, o, r) k apart = (
  n,
  rw (first-append xs ys s) e,
  rw (has-append c.addr xs ys) (ground (arith, apart c.addr)),
  Seg-join m c.addr xs ys s r k λ a i. apart a (ground arith),
)
