-- ===== src/LinkedList.antt =====
-- The functions of gps/utils/linked_list.c. `fresh` is what the allocator returns (`null`: out of
-- memory); a pointer to a caller's variable is a Boolean (is it given?) or an option, and what is
-- written through it is returned. Loops run on fuel.
pub mod Chain
pub mod Steps
pub mod Callbacks
pub mod Add
pub mod Cut
pub mod Remove
pub mod Flush
pub mod Found
pub mod Search
pub mod Life
pub mod Messages
mod Tests
use android_device_generic_m.Base.{
  ℕ, zero, suc, Bool, true, false, Option, none, some, ◌==◌, if◌then◌else◌,
}
use android_device_generic_m.Store.{
  Ptr, null, Element, element, list_state, spent, Cmd, pure, ◌>>=◌, ◌>>◌, load, put_cell, set_next,
  set_prev, free_cell, load_list, put_list, call,
}

-- `linked_list_err_type`
pub data ListErr : Type 0 where
  success failure_general invalid_parameter invalid_handle : ListErr
  unavailable_resource insufficient_buffer : ListErr

-- The result is the error and the value of `*list_data` after the call.
pub linked_list_init : (fresh : Ptr) → Option Ptr → Cmd (ListErr × Option Ptr)
linked_list_init fresh none = pure (invalid_parameter, none)
linked_list_init fresh (some old) =
    if fresh == null
    then pure (failure_general, some old)
    else do put_list fresh (some (list_state null null)); pure (success, some fresh)

-- The data is given to its function, unless it was copied out or there is no function.
pub dealloc_data : (copied : Bool) → (dealloc_func data_ptr : Ptr) → Cmd (Unit {0})
dealloc_data true f d = pure tt
dealloc_data false f d = if f == null then pure tt else call f d

-- The `while` loop of flush: it runs on the header's `p_head`.
pub flush_loop : ℕ → Ptr → Cmd (Unit {0})
unfolding dealloc_data
flush_loop zero l = λ _. spent
flush_loop (suc k) l = do
  s ← load_list l
  if s.p_head == null then pure tt else do
    e ← load s.p_head
    dealloc_data false e.dealloc_func e.data_ptr
    free_cell s.p_head
    put_list l (some (record s { p_head = e.next }))
    flush_loop k l

pub linked_list_flush : ℕ → Ptr → Cmd ListErr
unfolding flush_loop
linked_list_flush fuel l = if l == null then pure invalid_handle else do
  flush_loop fuel l
  s ← load_list l
  put_list l (some (record s { p_tail = null }))
  pure success

-- `free(*list_data)`: of NULL it does nothing.
pub free_list : Ptr → Cmd (Unit {0})
free_list l = if l == null then pure tt else load_list l >>= λ _. put_list l none

pub linked_list_destroy : ℕ → Option Ptr → Cmd (ListErr × Option Ptr)
unfolding linked_list_flush free_list
linked_list_destroy fuel none = pure (invalid_handle, none)
linked_list_destroy fuel (some l) = do
  _ ← linked_list_flush fuel l
  free_list l
  pure (success, some null)

-- The new element becomes the head.
pub push_head : (fresh l data_obj dealloc : Ptr) → Cmd (Unit {0})
push_head fresh l data_obj dealloc = do
  put_cell fresh (some (element null null data_obj dealloc))
  s ← load_list l
  put_list l (some (record s { p_head = fresh }))
  set_next fresh s.p_head
  (if s.p_head == null then put_list l (some (list_state fresh fresh)) else set_prev s.p_head fresh)

unfoldable pub linked_list_add : (fresh l data_obj dealloc : Ptr) → Cmd ListErr
unfolding push_head
linked_list_add fresh l data_obj dealloc =
    if l == null
    then pure invalid_handle
    else if data_obj == null
    then pure invalid_parameter
    else if fresh == null
    then pure failure_general
    else do push_head fresh l data_obj dealloc; pure success

-- The tail element is unlinked and freed; the result is its data pointer.
pub pop_tail : (l tail : Ptr) → Cmd Ptr
pop_tail l tail = do
  e ← load tail
  s ← load_list l
  put_list l (some (record s { p_tail = e.prev }))
  (if e.prev == null then put_list l (some (list_state e.prev e.prev)) else set_next e.prev null)
  t ← load tail
  free_cell tail
  pure t.data_ptr

-- `has_out` says that `data_obj` is not NULL; the option is what is written to it.
unfoldable pub linked_list_remove : Ptr → (has_out : Bool) → Cmd (ListErr × Option Ptr)
unfolding pop_tail
linked_list_remove l has_out =
    if l == null
    then pure (invalid_handle, none)
    else if has_out
    then (do
      s ← load_list l
      if s.p_tail == null
          then pure (unavailable_resource, none)
          else do d ← pop_tail l s.p_tail; pure (success, some d))
    else pure (invalid_parameter, none)

-- The C function returns an `int`: 1 or 0, or the (non-zero) error code.
pub data EmptyAnswer : Type 0 where
  answer : Bool → EmptyAnswer
  bad_handle : EmptyAnswer

unfoldable pub linked_list_empty : Ptr → Cmd EmptyAnswer
linked_list_empty l =
    if l == null then pure bad_handle else do s ← load_list l; pure (answer (s.p_head == null))

-- Unlinks the element `e` at `tmp` from its neighbours or from the header.
pub unlink : (l tmp : Ptr) → Element → Cmd (Unit {0})
unlink l tmp e = do
  s ← load_list l
  (if e.prev == null
      then put_list l (some (record s { p_head = e.next }))
      else set_next e.prev e.next)
  t ← load_list l
  (if e.next == null
      then put_list l (some (record t { p_tail = e.prev }))
      else set_prev e.next e.prev)

-- What `rm_if_found` does at the element that was found.
pub remove_found : (l tmp : Ptr) (has_out : Bool) → Cmd (Unit {0})
unfolding unlink dealloc_data
remove_found l tmp has_out = do
  e ← load tmp
  unlink l tmp e
  set_next tmp null
  set_prev tmp null
  dealloc_data has_out e.dealloc_func e.data_ptr
  free_cell tmp

-- The loop of search, from `tmp` on; the result is what is written to `*data_p` by it.
pub search_loop :
    (equal : Ptr → Ptr → Bool) (data_0 l : Ptr) (has_out rm_if_found : Bool)
    → ℕ
    → Ptr
    → Cmd (Option Ptr)
unfolding remove_found
search_loop equal data_0 l has_out rm_if_found zero tmp = λ _. spent
search_loop equal data_0 l has_out rm_if_found (suc k) tmp = if tmp == null then pure none else do
  e ← load tmp
  (if equal data_0 e.data_ptr
      then (do if rm_if_found then remove_found l tmp has_out else pure tt; pure (some e.data_ptr))
      else search_loop equal data_0 l has_out rm_if_found k e.next)

-- What the caller finds in `*data_p`: NULL first, then the data of the match.
abbrev pub found_or_null : Option Ptr → Ptr
found_or_null none = null
found_or_null (some d) = d

-- `equal` is NULL (`none`) or a function; the option is what is written to `*data_p`.
pub linked_list_search :
    ℕ
    → (l : Ptr) (has_out : Bool) (equal : Option (Ptr → Ptr → Bool)) (data_0 : Ptr)
      (rm_if_found : Bool)
    → Cmd (ListErr × Option Ptr)
linked_list_search fuel l has_out none data_0 rm_if_found = pure (invalid_handle, none)
linked_list_search fuel l has_out (some equal) data_0 rm_if_found =
    if l == null then pure (invalid_handle, none) else do
      s ← load_list l
      if s.p_tail == null then pure (unavailable_resource, none) else do
        r ← search_loop equal data_0 l has_out rm_if_found fuel s.p_head
        pure (success, if has_out then some (found_or_null r) else none)
