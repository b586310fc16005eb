-- ===== src/Ni.antt =====
-- gps/libloc/libloc_api/loc_eng_ni.cpp: requests of the network to locate this device. A request is
-- shown to the user, and a thread waits for the answer and passes it to the modem.
pub mod Hex
pub mod Address
pub mod Notify
pub mod Requests
pub mod Session
pub mod Answers
mod Tests
use android_device_generic_m.Base.{
  ℕ, ◌+◌, ◌-◌, Bool, true, false, ◌&&◌, Option, none, some, List, [], ◌∷◌, ◌++◌, take, ◌==◌,
  if◌then◌else◌,
}
unfoldable pub use Notify.*

-- `loc_eng_ni_data`. The id is none where the source has -1. `locked` says that a thread has returned with
-- loc_ni_lock in its hands.
pub record NiData : Type 0 where
  pub response_time_left : ℕ
  pub user_response_received : Bool
  pub notif_in_progress : Bool
  pub loc_ni_request : Option NiRequest
  pub current_notif_id : Option ℕ
  pub resp : UserResp
  pub locked : Bool

-- What is done beyond this file: the session is muted (loc_eng_mute_one_session), the thread is created for
-- a request, ni_notify_cb is called, the modem is answered (loc_ni_respond).
pub data NiEffect : Type 0 where
  muted : NiEffect
  thread_created : NiRequest → NiEffect
  notified : Notification → NiEffect
  responded : UserResp → Option NiRequest → NiEffect

abbrev pub mutes : NotifyVerify → List NiEffect
mutes privacy_override = muted ∷ []
mutes other = []

-- The request is saved, and the answer waited for.
abbrev pub expect : (id : ℕ) → NiRequest → NiData → NiData
expect id r d = record d {
  loc_ni_request = some r;
  notif_in_progress = true;
  current_notif_id = some id;
}

-- After the switch: a return with the lock, or the thread and the notification.
abbrev pub ask :
    (created notify_cb : Bool) → NiRequest → Option Notification → NiData → NiData × List NiEffect
ask created notify_cb r none d = (record d { locked = true }, [])
ask created notify_cb r (some n) d = (
  record d { response_time_left = 5 + n.timeout },
  mutes r.notification_priv_type
      ++ ((if created then thread_created r ∷ [] else [])
          ++ (if notify_cb then notified n ∷ [] else [])),
)

-- `rand` is the random number that becomes the id, `created` what pthread_create says, `notify_cb` whether
-- the callback is there.
unfoldable pub loc_ni_request_handler :
    Sizes → (rand : ℕ) → (created notify_cb : Bool) → NiRequest → NiData → NiData × List NiEffect
loc_ni_request_handler z rand created notify_cb r d =
    if d.notif_in_progress
    then (d, [])
    else ask created notify_cb r (fill_notif z rand r.event r) (expect rand r d)

-- The handler is called for the three kinds of request only.
abbrev pub for_kind : NiEvent → NiData × List NiEffect → NiData → NiData × List NiEffect
for_kind other_request handled d = (d, [])
for_kind known handled d = handled

unfoldable pub loc_eng_ni_callback :
    Sizes → (rand : ℕ) → (created notify_cb : Bool) → NiRequest → NiData → NiData × List NiEffect
loc_eng_ni_callback z rand created notify_cb r d =
    for_kind r.event (loc_ni_request_handler z rand created notify_cb r d) d

abbrev pub take_response : UserResp → NiData → NiData
take_response r d = record d { resp = r; user_response_received = true }

unfoldable pub loc_ni_process_user_response : UserResponse → NiData → NiData
loc_ni_process_user_response response_accept d = take_response accept d
loc_ni_process_user_response response_deny d = take_response deny d
loc_ni_process_user_response response_noresp d = take_response noresp d
loc_ni_process_user_response other_response d = d

abbrev pub is_current : ℕ → Option ℕ → Bool
is_current id none = false
is_current id (some current) = id == current

unfoldable pub loc_eng_ni_respond : (notif_id : ℕ) → UserResponse → NiData → NiData
loc_eng_ni_respond notif_id r d =
    if is_current notif_id d.current_notif_id && d.notif_in_progress
    then loc_ni_process_user_response r d
    else d

-- loc_ni_thread_proc up to the release of user_cb_data_mutex, once its wait is over: with ETIMEDOUT, or with
-- a response received. The flag is reset in both cases.
unfoldable pub thread_answer : (timed_out : Bool) → NiData → NiData × List NiEffect
thread_answer timed_out d =
    let resp = if timed_out then noresp else d.resp in
    (record d { resp = resp; user_response_received = false }, responded resp d.loc_ni_request ∷ [])

-- The rest of loc_ni_thread_proc, under loc_ni_lock.
unfoldable pub thread_clear : NiData → NiData
thread_clear d = record d {
  notif_in_progress = false;
  response_time_left = 0;
  current_notif_id = none;
}

unfoldable pub loc_eng_ni_init : NiData → NiData
loc_eng_ni_init d = record d {
  notif_in_progress = false;
  current_notif_id = none;
  response_time_left = 0;
  user_response_received = false;
}
