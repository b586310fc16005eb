-- ===== src/LinkedList/Chain/Relink.antt =====
-- Redirecting the two pointers that meet between two segments.
use android_device_generic_m.Base.{
  ◌≡◌, refl, ◌≢◌, true, false, none, some, inl, inr, List, [], ◌∷◌, ◌++◌, arith, ◌==◌, Bool-cases,
}
use android_device_generic_m.Store.{Ptr, null, Element, Cells, update}
use android_device_generic_m.LinkedList.Chain.Split.{
  Cell, first, last, has, Seg, Seg-frame, Seg-update, Seg-split, Seg-join,
}
use mathlib.Core.Option

abbrev pub with_next : Ptr → Element → Element
with_next q e = record e { next = q }

abbrev pub with_prev : Ptr → Element → Element
with_prev q e = record e { prev = q }

-- `next` or `prev` of the element at `a`, if there is one, is set to `q`.
abbrev pub aim_next : Cells → Ptr → Ptr → Cells
aim_next m a q = update m a (Option.map (with_next q) (m a))

abbrev pub aim_prev : Cells → Ptr → Ptr → Cells
aim_prev m a q = update m a (Option.map (with_prev q) (m a))

pub has-last : (c : Cell) (xs : List Cell) → has (last c.addr xs) (c ∷ xs) ≡ true
has-last c [] = ground arith
has-last c (d ∷ xs) = ground (arith, has-last d xs)

pub not-eq-last :
    (a : Ptr) (c : Cell) (xs : List Cell) → has a (c ∷ xs) ≡ false → (a == last c.addr xs) ≡ false
not-eq-last a c [] o = ground arith
not-eq-last a c (d ∷ xs) o = not-eq-last a d xs (ground arith)

pub last-ne-null :
    (m : Cells) (p : Ptr) (c : Cell) (xs : List Cell) (s : Ptr)
    → Seg m p (c ∷ xs) s
    → last c.addr xs ≢ null
last-ne-null m p c [] s (n, e, o, r) = n
last-ne-null m p c (d ∷ xs) s (n, e, o, r) = last-ne-null m c.addr d xs s r

pub Seg-last :
    (m : Cells) (p : Ptr) (c : Cell) (xs : List Cell) (s : Ptr)
    → Seg m p (c ∷ xs) s
    → (e : Element) × (m (last c.addr xs) ≡ some e)
Seg-last m p c [] s (n, e, o, r) = (_, e)
Seg-last m p c (d ∷ xs) s (n, e, o, r) = Seg-last m c.addr d xs s r

pub Seg-aim_next :
    (m : Cells) (p : Ptr) (c : Cell) (xs : List Cell) (s q : Ptr)
    → Seg m p (c ∷ xs) s
    → Seg (aim_next m (last c.addr xs) q) p (c ∷ xs) q
Seg-aim_next m p c [] s q (n, e, o, r) = (n, ground arith, refl, tt)
Seg-aim_next m p c (d ∷ xs) s q (n, e, o, r) =
    (n, rw (not-eq-last c.addr d xs o) e, o, Seg-aim_next m c.addr d xs s q r)

pub Seg-aim_prev :
    (m : Cells) (p : Ptr) (c : Cell) (xs : List Cell) (s q : Ptr)
    → Seg m p (c ∷ xs) s
    → Seg (aim_prev m c.addr q) q (c ∷ xs) s
Seg-aim_prev m p c xs s q (n, e, o, r) = (n, ground arith, o, Seg-update m c.addr xs s c.addr _ r o)

-- The memory after the neighbours of `xs` and `ys` were joined over the gap between them.
abbrev pub bridge_next : Cells → List Cell → Ptr → Cells
bridge_next m [] q = m
bridge_next m (c ∷ xs) q = aim_next m (last c.addr xs) q

abbrev pub bridge_prev : Cells → List Cell → Ptr → Cells
bridge_prev m [] q = m
bridge_prev m (c ∷ ys) q = aim_prev m c.addr q

bridge_next-outside :
    (m : Cells) (xs : List Cell) (q a : Ptr) → has a xs ≡ false → bridge_next m xs q a ≡ m a
bridge_next-outside m [] q a o = refl
bridge_next-outside m (c ∷ xs) q a o = rw (not-eq-last a c xs o)

bridge_prev-outside :
    (m : Cells) (ys : List Cell) (q a : Ptr) → has a ys ≡ false → bridge_prev m ys q a ≡ m a
bridge_prev-outside m [] q a o = refl
bridge_prev-outside m (c ∷ ys) q a o = ground arith

bridge_next-Seg :
    (m : Cells) (p : Ptr) (xs : List Cell) (s q : Ptr)
    → Seg m p xs s
    → Seg (bridge_next m xs q) p xs q
bridge_next-Seg m p [] s q h = tt
bridge_next-Seg m p (c ∷ xs) s q h = Seg-aim_next m p c xs s q h

bridge_prev-Seg :
    (m : Cells) (p : Ptr) (ys : List Cell) (s q : Ptr)
    → Seg m p ys s
    → Seg (bridge_prev m ys q) q ys s
bridge_prev-Seg m p [] s q h = tt
bridge_prev-Seg m p (c ∷ ys) s q h = Seg-aim_prev m p c ys s q h

-- The memory after the cell between `xs` and `ys` was taken out.
abbrev pub cut : Cells → List Cell → Cell → List Cell → Cells
cut m xs c ys =
    update (bridge_prev (bridge_next m xs (first ys null)) ys (last null xs)) c.addr none

pub cut-outside :
    (m : Cells) (xs : List Cell) (c : Cell) (ys : List Cell) (a : Ptr)
    → has a xs ≡ false
    → (a == c.addr) ≡ false
    → has a ys ≡ false
    → cut m xs c ys a ≡ m a
cut-outside m xs c ys a ox oc oy =
    rw (oc, bridge_prev-outside (bridge_next m xs (first ys null)) ys (last null xs) a oy)
      (bridge_next-outside m xs (first ys null) a ox)

-- Taking a cell out of a chain leaves the chain of the others.
pub cut-Seg :
    (m : Cells) (xs : List Cell) (c : Cell) (ys : List Cell)
    → Seg m null (xs ++ c ∷ ys) null
    → Seg (cut m xs c ys) null (xs ++ ys) null
cut-Seg m xs c ys h =
    let (front, (n, e, o, back), apart) = Seg-split m null xs (c ∷ ys) null h in
    let q = first ys null in
    let r = last null xs in
    let m₁ = bridge_next m xs q in
    let m₂ = bridge_prev m₁ ys r in
    let gap : has c.addr xs ≡ false = elim (Bool-cases (has c.addr xs)) [
      | inl i ↦ ground (arith, apart c.addr i)
      | inr i ↦ i
    ] in
    let front₁ = bridge_next-Seg m null xs c.addr q front in
    let front₂ =
      Seg-frame m₁ m₂ null xs q front₁
        (λ a i. bridge_prev-outside m₁ ys r a (ground (arith, apart a i))) in
    let back₁ =
      Seg-frame m m₁ c.addr ys null back
        (λ a i. bridge_next-outside m xs q a (ground (arith, apart a))) in
    let back₂ = bridge_prev-Seg m₁ c.addr ys null r back₁ in
    Seg-join (update m₂ c.addr none) null xs ys null
      (Seg-update m₂ null xs q c.addr none front₂ gap) (Seg-update m₂ r ys null c.addr none back₂ o)
      (λ a i. ground (arith, apart a i))
