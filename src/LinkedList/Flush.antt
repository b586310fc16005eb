-- ===== src/LinkedList/Flush.antt =====
-- linked_list_flush and linked_list_destroy of gps/utils/linked_list.c.
use android_device_generic_m.Base.{
  ℕ, zero, suc, ◌<◌, ◌≡◌, refl, ◌≢◌, false, some, none, Option, List, [], ◌∷◌, ◌++◌, arith,
  ne→not_eq, ==_refl, append-nil, append_assoc, length, sym, if◌then◌else◌, ◌∙◌,
}
use android_device_generic_m.Store.{
  Ptr, null, ListState, list_state, Heap, Returns, Returns-mono, Returns-follow, update,
}
use android_device_generic_m.LinkedList.{
  ListErr, success, linked_list_flush, linked_list_destroy, flush_loop,
}
use android_device_generic_m.LinkedList.Callbacks.{owed, dealloc_calls, dealloc_data-done}
use android_device_generic_m.LinkedList.Steps.{load-done, load_list-done, free_cell-done}
use android_device_generic_m.LinkedList.Chain.{Cell, has, first, last, Seg, Seg-update, IsList}

-- Every element of `xs` is freed, every other one is kept, and each owed callback was made once.
pub record Flushed (xs : List Cell) (h g : Heap) : Type 0 where
  pub cells : (a : Ptr) → g.cell a ≡ (if has a xs then none else h.cell a)
  pub calls : g.calls ≡ h.calls ++ owed xs

-- The header after a flush or a destroy; the other headers are kept.
abbrev pub HeaderIs : Ptr → Option ListState → Heap → Heap → Type 0
HeaderIs l s h g = (g.lists l ≡ s) × ((a : Ptr) → a ≢ l → g.lists a ≡ h.lists a)

module _ (l : Ptr) (t : Ptr) (handle : l ≢ null) where
  abbrev Emptied : List Cell → Heap → Heap → Type 0
  Emptied xs h g = Flushed xs h g × HeaderIs l (some (list_state null t)) h g

  flush_loop-Emptied :
      (k : ℕ) (p : Ptr) (xs : List Cell) (h : Heap)
      → length xs < k
      → Seg h.cell p xs null
      → h.lists l ≡ some (list_state (first xs null) t)
      → Returns (λ _ g. Emptied xs h g) (flush_loop k l h)
  unfolding flush_loop
  flush_loop-Emptied zero p xs h f s e = absurd (omega arith)
  flush_loop-Emptied (suc k) p [] h f s e =
      rw (load_list-done h l handle e)
        (record { cells = λ a. refl; calls = sym (append-nil h.calls) }, (e, λ a n. refl))
  flush_loop-Emptied (suc k) p (c ∷ xs) h f (n, at, o, r) e =
      let m = update h.cell c.addr none in
      let done_calls = h.calls ++ dealloc_calls false c in
      let g : Heap = record {
        cell = m;
        lists = update h.lists l (some (list_state (first xs null) t));
        calls = done_calls;
      } in
      rw
        (
          load_list-done h l handle e,
          ne→not_eq n,
          load-done h c.addr n at,
          dealloc_data-done false c h,
          free_cell-done (record h { calls = done_calls }) c.addr n at,
        )
        (Returns-mono (λ _ f. Emptied (c ∷ xs) h f) (flush_loop k l g)
          (flush_loop-Emptied k c.addr xs g (omega arith)
            (Seg-update h.cell c.addr xs null c.addr none r o) (simp ==_refl))
          λ _ f' (fl, (hd, others)). (
            record {
              cells = λ a. ground (arith, fl.cells a);
              calls = fl.calls ∙ append_assoc h.calls (dealloc_calls false c) (owed xs);
            },
            (hd, λ a u. others a u ∙ simp (ne→not_eq u)),
          ))

-- After a flush, and after a destroy.
abbrev pub FlushDone : Ptr → List Cell → Heap → ListErr → Heap → Type 0
FlushDone l xs h r g =
    (r ≡ success) × IsList g l [] × Flushed xs h g × HeaderIs l (some (list_state null null)) h g

abbrev pub DestroyDone : Ptr → List Cell → Heap → ListErr × Option Ptr → Heap → Type 0
DestroyDone l xs h r g = (r ≡ (success, some null)) × Flushed xs h g × HeaderIs l none h g

module _ (fuel l : Ptr) (xs : List Cell) (h : Heap) (is : IsList h l xs)
    (f : length xs < fuel) where
  -- linked_list_flush of a well-formed list, with more fuel than elements, frees every element, makes
  -- each callback that is owed, in order, and leaves an empty list.
  pub flush_all : Returns (FlushDone l xs h) (linked_list_flush fuel l h)
  unfolding linked_list_flush
  flush_all = rw (ne→not_eq is.handle) (
      Returns-follow (FlushDone l xs h) (flush_loop fuel l h) _
        (flush_loop-Emptied l (last null xs) is.handle fuel null xs h f is.chain is.header)
        λ _ g (fl, (hd, others)). rw (load_list-done g l is.handle hd) (
          refl,
          record { handle = is.handle; header = simp ==_refl; chain = tt },
          record { cells = fl.cells; calls = fl.calls },
          (simp ==_refl, λ a u. rw (ne→not_eq u) (others a u)),
        ))

  -- linked_list_destroy of a well-formed list, with more fuel than elements, does what
  -- linked_list_flush does, frees the header too, and leaves NULL in the caller's variable.
  pub destroy_all : Returns (DestroyDone l xs h) (linked_list_destroy fuel (some l) h)
  unfolding linked_list_destroy
  destroy_all =
      Returns-follow (DestroyDone l xs h) (linked_list_flush fuel l h) _ flush_all
        λ r g (ok, is', fl, (hd, others)).
          rw (ne→not_eq is.handle, load_list-done g l is.handle hd)
            (
              refl,
              record { cells = fl.cells; calls = fl.calls },
              (simp ==_refl, λ a u. rw (ne→not_eq u) (others a u)),
            )
