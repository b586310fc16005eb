-- ===== src/LinkedList/Life.antt =====
-- How a list of gps/utils/linked_list.c begins, and the calls that are refused.
use android_device_generic_m.Base.{
  ◌≡◌, refl, ◌≢◌, Bool, false, some, none, Option, [], ne→not_eq, ==_refl,
}
use android_device_generic_m.Store.{Ptr, null, Heap, done, Returns}
use android_device_generic_m.LinkedList.{
  success, invalid_handle, invalid_parameter, failure_general, linked_list_init, linked_list_add,
  linked_list_remove, linked_list_flush, linked_list_search, linked_list_empty, bad_handle,
}
use android_device_generic_m.LinkedList.Chain.{IsList}

-- linked_list_init, given a block of memory, makes it the header of an empty list, and keeps all else.
pub init_empty :
    (fresh old : Ptr) (h : Heap)
    → fresh ≢ null
    → Returns
        (λ r g.
          (r ≡ (success, some fresh))
          × IsList g fresh []
          × (g.cell ≡ h.cell)
          × ((a : Ptr) → a ≢ fresh → g.lists a ≡ h.lists a))
        (linked_list_init fresh (some old) h)
unfolding linked_list_init
init_empty fresh old h n = rw (ne→not_eq n) (
  refl,
  record { handle = n; header = simp ==_refl; chain = tt },
  refl,
  λ a u. simp (ne→not_eq u),
)

-- linked_list_add, remove, flush, empty and search answer a NULL list with an error code, and a
-- missing object, out pointer, comparison or block of memory with theirs; the memory is as before.
pub refused :
    (fuel l d f d_0 : Ptr) (out rm : Bool) (eq : Option (Ptr → Ptr → Bool)) (h : Heap)
    → l ≢ null
    → d ≢ null
    → (linked_list_add l null d f h ≡ done invalid_handle h)
      × (linked_list_add d_0 l null f h ≡ done invalid_parameter h)
      × (linked_list_add null l d f h ≡ done failure_general h)
      × (linked_list_remove null out h ≡ done (invalid_handle, none) h)
      × (linked_list_remove l false h ≡ done (invalid_parameter, none) h)
      × (linked_list_flush fuel null h ≡ done invalid_handle h)
      × (linked_list_empty null h ≡ done bad_handle h)
      × (linked_list_search fuel null out eq d_0 rm h ≡ done (invalid_handle, none) h)
      × (linked_list_search fuel l out none d_0 rm h ≡ done (invalid_handle, none) h)
unfolding linked_list_add linked_list_remove linked_list_flush linked_list_empty linked_list_search
refused fuel l d f d_0 out rm eq h n m = (
  refl,
  rw (ne→not_eq n),
  rw (ne→not_eq n, ne→not_eq m),
  refl,
  rw (ne→not_eq n),
  refl,
  refl,
  elim eq as (λ e. linked_list_search fuel null out e d_0 rm h ≡ done (invalid_handle, none) h) [
    | none ↦ refl
    | some q ↦ refl
  ],
  refl,
)
