-- ===== src/MsgQ.antt =====
-- gps/utils/msg_q.c over the list that it keeps its messages in. The mutex is held from the entry of
-- an operation to its return, and given up only in pthread_cond_wait: so an operation is one
-- command, and a receive is one command up to the wait and one for each wake-up.
pub mod Contract
pub mod System
pub mod Spec
pub mod Refine
pub mod Wakeups
pub mod Runs
pub mod Life
mod Tests
use android_device_generic_m.Base.{
  ℕ, Bool, true, false, not, ◌&&◌, Option, none, some, ◌==◌, if◌then◌else◌,
}
use android_device_generic_m.Store.{Ptr, null, Cmd, pure, ◌>>=◌, ◌>>◌}
use android_device_generic_m.LinkedList.{ListErr, EmptyAnswer, answer, bad_handle}
use Contract.{MessageList}

-- `msq_q_err_type`
pub data MsgErr : Type 0 where
  success failure_general invalid_parameter invalid_handle : MsgErr
  unavailable_resource insufficient_buffer : MsgErr

-- `struct msg_q`, without the mutex and the condition variable.
pub record MsgQ : Type 0 where
  pub msg_list : Ptr
  pub unblocked : Bool

-- What an operation does to the condition variable.
pub data Signal : Type 0 where
  silent one all : Signal

unfoldable pub convert_linked_list_err_type : ListErr → MsgErr
convert_linked_list_err_type ListErr.success = success
convert_linked_list_err_type ListErr.invalid_parameter = invalid_parameter
convert_linked_list_err_type ListErr.invalid_handle = invalid_handle
convert_linked_list_err_type ListErr.unavailable_resource = unavailable_resource
convert_linked_list_err_type ListErr.insufficient_buffer = insufficient_buffer
convert_linked_list_err_type ListErr.failure_general = failure_general

-- `linked_list_empty(...)` as a C condition: the error code is not zero.
abbrev pub is_nonzero : EmptyAnswer → Bool
is_nonzero (answer b) = b
is_nonzero bad_handle = true

-- A receive returns an error and what it wrote to `*msg_obj`, or waits.
pub data Progress : Type 0 where
  finished : MsgErr → Option Ptr → Progress
  waiting : Progress

module _ (L : MessageList) where
  open L use {init, destroy, add, remove, empty, flush}

  -- The mutex and the condition variable, and what is undone where one of them fails.
  pub init_sync : ListErr → Option Ptr → (mutex_ok cond_ok : Bool) → Cmd (MsgErr × Option MsgQ)
  init_sync ListErr.success (some l) true true =
      pure (success, some (record { msg_list = l; unblocked = false }))
  init_sync ListErr.success (some l) m c = destroy 1 (some l) >> pure (failure_general, none)
  init_sync r l m c = pure (failure_general, none)

  -- `given` says that `msg_q_data` is not NULL; `fresh` and `fresh_list` are what the allocator
  -- returns, `mutex_ok` and `cond_ok` whether the pthread calls succeed.
  pub msg_q_init :
      (fresh fresh_list : Ptr) (mutex_ok cond_ok given : Bool) → Cmd (MsgErr × Option MsgQ)
  unfolding init_sync
  msg_q_init fresh fresh_list mutex_ok cond_ok false = pure (invalid_parameter, none)
  msg_q_init fresh fresh_list mutex_ok cond_ok true =
      if fresh == null
      then pure (failure_general, none)
      else do (r, l) ← init fresh_list (some null); init_sync r l mutex_ok cond_ok

  -- The result is the error and the new value of `*msg_q_data`.
  pub msg_q_destroy : ℕ → (given : Bool) → MsgQ → Cmd (MsgErr × Option MsgQ)
  msg_q_destroy fuel false q = pure (invalid_handle, some q)
  msg_q_destroy fuel true q = destroy fuel (some q.msg_list) >> pure (success, none)

  unfoldable pub msg_q_snd :
      (fresh : Ptr) → Option MsgQ → (msg_obj dealloc : Ptr) → Cmd (MsgErr × Signal)
  unfolding convert_linked_list_err_type
  msg_q_snd fresh none msg_obj dealloc = pure (invalid_handle, silent)
  msg_q_snd fresh (some q) msg_obj dealloc =
      if msg_obj == null
      then pure (invalid_parameter, silent)
      else if q.unblocked
      then pure (unavailable_resource, silent)
      else do r ← add fresh q.msg_list msg_obj dealloc; pure (convert_linked_list_err_type r, one)

  -- The test of the `while` loop, with the mutex held, and what follows the loop.
  unfoldable pub rcv_test : MsgQ → Cmd Progress
  unfolding convert_linked_list_err_type
  rcv_test q = do
    e ← empty q.msg_list
    if is_nonzero e && not q.unblocked then pure waiting else do
      (r, out) ← remove q.msg_list true
      pure (finished (convert_linked_list_err_type r) out)

  -- A receive from its entry to its return or its first wait.
  unfoldable pub msg_q_rcv : Option MsgQ → (has_out : Bool) → Cmd Progress
  unfolding rcv_test
  msg_q_rcv none has_out = pure (finished invalid_handle none)
  msg_q_rcv (some q) false = pure (finished invalid_parameter none)
  msg_q_rcv (some q) true =
      if q.unblocked then pure (finished unavailable_resource none) else rcv_test q

  pub msg_q_flush : ℕ → Option MsgQ → Cmd MsgErr
  unfolding convert_linked_list_err_type
  msg_q_flush fuel none = pure invalid_handle
  msg_q_flush fuel (some q) = do r ← flush fuel q.msg_list; pure (convert_linked_list_err_type r)

-- The queue after the call, the error and the wake-up.
pub msg_q_unblock : Option MsgQ → MsgErr × Option MsgQ × Signal
msg_q_unblock none = (invalid_handle, none, silent)
msg_q_unblock (some q) =
    if q.unblocked
    then (unavailable_resource, some q, silent)
    else (success, some (record q { unblocked = true }), all)
