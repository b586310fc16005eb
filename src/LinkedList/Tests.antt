-- ===== src/LinkedList/Tests.antt =====
-- The theorems on gps/utils/linked_list.c at concrete lists.
use android_device_generic_m.Base.{
  refl, Bool, true, false, none, some, [], ◌∷◌, arith, ◌==◌, if◌then◌else◌,
}
use android_device_generic_m.Store.{Ptr, Heap, element, list_state, Returns}
use android_device_generic_m.LinkedList.{linked_list_flush, linked_list_search}
use android_device_generic_m.LinkedList.Chain.{Cell, cell_at, IsList}
use android_device_generic_m.LinkedList.Flush
use android_device_generic_m.LinkedList.Search

-- Two elements: 10 with a callback in front, 20 without one behind it.
abbrev two : Heap
two = record {
  cell = λ a.
      if a == 1 then some (element 2 0 10 7) else if a == 2 then some (element 0 1 20 0) else none;
  lists = λ a. if a == 100 then some (list_state 1 2) else none;
  calls = [];
}

abbrev front : Cell
front = cell_at 1 10 7

abbrev back : Cell
back = cell_at 2 20 0

abbrev same_object : Ptr → Ptr → Bool
same_object a b = a == b

two-IsList : IsList two 100 (front ∷ back ∷ [])
two-IsList = record {
  handle = omega arith;
  header = refl;
  chain = (omega arith, refl, refl, (omega arith, refl, refl, tt));
}

flush_all_example :
    Returns (Flush.FlushDone 100 (front ∷ back ∷ []) two) (linked_list_flush 3 100 two)
flush_all_example = Flush.flush_all 3 100 (front ∷ back ∷ []) two two-IsList (omega arith)

search-Found_example :
    Returns
      (Search.Found 100 true false (front ∷ []) back [] two)
      (linked_list_search 3 100 false (some same_object) 20 true two)
search-Found_example =
    Search.search-Found same_object 20 100 false two 3 (front ∷ []) (refl, tt) (omega arith) true
      back [] refl two-IsList
