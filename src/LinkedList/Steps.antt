-- ===== src/LinkedList/Steps.antt =====
-- The single memory accesses that gps/utils/linked_list.c makes, at pointers that are in order.
use android_device_generic_m.Base.{◌≡◌, ◌≢◌, some, none, ne→not_eq}
use android_device_generic_m.Store.{
  Ptr, null, Element, ListState, Heap, update, done, load, set_next, set_prev, free_cell, load_list,
}
use android_device_generic_m.LinkedList.Chain.{aim_next, aim_prev}

module _ (h : Heap) (p : Ptr) {e : Element} (n : p ≢ null) (at : h.cell p ≡ some e) where
  pub load-done : load p h ≡ done e h
  unfolding load
  load-done = rw (ne→not_eq n, at)

  pub set_next-done : (q : Ptr) → set_next p q h ≡ done tt (record h { cell = aim_next h.cell p q })
  unfolding set_next
  set_next-done q = rw (ne→not_eq n, at)

  pub set_prev-done : (q : Ptr) → set_prev p q h ≡ done tt (record h { cell = aim_prev h.cell p q })
  unfolding set_prev
  set_prev-done q = rw (ne→not_eq n, at)

  pub free_cell-done : free_cell p h ≡ done tt (record h { cell = update h.cell p none })
  unfolding free_cell
  free_cell-done = rw (ne→not_eq n, at)

pub load_list-done :
    (h : Heap) (l : Ptr) {s : ListState} → l ≢ null → h.lists l ≡ some s → load_list l h ≡ done s h
unfolding load_list
load_list-done h l n at = rw (ne→not_eq n, at)
