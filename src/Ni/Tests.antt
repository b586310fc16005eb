-- ===== src/Ni/Tests.antt =====
-- The theorems on gps/libloc/libloc_api/loc_eng_ni.cpp at concrete requests.
use android_device_generic_m.Base.{
  ◌≡◌, refl, ◌++◌, true, false, none, some, [], ◌∷◌, ◌<◌, ◌-◌, ◌/◌, length, take, arith,
}
use android_device_generic_m.Ni.{
  supl, NiRequest, notify_verify_not_allow_no_resp, utf8, accept, noresp, resp_none,
  response_accept, response_deny, responded, Sizes, NiData, loc_eng_ni_callback, loc_eng_ni_respond,
  loc_ni_request_handler, fill_notif, thread_answer, thread_clear,
}
use android_device_generic_m.Ni.Hex
use android_device_generic_m.Ni.Session
use android_device_generic_m.Ni.Answers

hexcode_roundtrip_example :
    (Hex.unhex (Hex.hexcode 6 (0x1F ∷ 0 ∷ 0x3F ∷ [])) ≡ take ((6 - 1) / 2) (0x1F ∷ 0 ∷ 0x3F ∷ []))
    × (length (Hex.hexcode 6 (0x1F ∷ 0 ∷ 0x3F ∷ [])) < 6)
hexcode_roundtrip_example =
    Hex.hexcode_roundtrip 6 (0x1F ∷ 0 ∷ 0x3F ∷ []) (omega arith, (omega arith, (omega arith, tt)))
      (omega arith)

abbrev sizes : Sizes
sizes = record { short_string = 256; long_string = 2048 }

abbrev request : NiRequest
request = record {
  event = supl;
  notification_priv_type = notify_verify_not_allow_no_resp;
  requestor_id = 65 ∷ [];
  text = [];
  encoding = utf8;
  client_name_present = false;
  requestor_id_present = true;
  encoding_present = true;
  ext_client_address = [];
}

abbrev idle : NiData
idle = record {
  response_time_left = 0;
  user_response_received = false;
  notif_in_progress = false;
  loc_ni_request = none;
  current_notif_id = none;
  resp = resp_none;
  locked = false;
}

abbrev asked : NiData
asked = (loc_eng_ni_callback sizes 7 true true request idle).0

own_answer_example :
    (asked.user_response_received ≡ false)
    × ((thread_answer true asked).1 ≡ responded noresp (some request) ∷ [])
    × (loc_eng_ni_respond 8 response_deny asked ≡ asked)
    × ((loc_eng_ni_respond 7 response_accept asked).user_response_received ≡ true)
    × ((thread_answer false (loc_eng_ni_respond 7 response_accept asked)).1
        ≡ responded accept (some request) ∷ [])
own_answer_example =
    Answers.own_answer sizes 7 8 true true request response_deny idle Answers.accepts tt refl refl
      (omega arith)

abbrev next : NiData
next =
    (loc_eng_ni_callback sizes 9 true true request
      (thread_clear (loc_eng_ni_respond 7 response_accept (thread_answer true asked).0))).0

stale_answer_example :
    (next.current_notif_id ≡ some 9)
    × (next.user_response_received ≡ true)
    × ((thread_answer false next).1 ≡ responded accept (some request) ∷ [])
stale_answer_example =
    Answers.stale_answer sizes 7 9 true true request request idle Answers.accepts tt tt refl

abbrev before : Session.NiSystem
before = record { ni = idle; thread = Session.gone }

-- A request comes, and its time runs out.
abbrev expired : Session.NiSystem
expired = record { ni = (thread_answer true asked).0; thread = Session.closing }

Run-NiSound_example :
    Session.NiSound expired
    × Session.Turns (Session.open_request before) (Session.open_request expired) (
        (loc_eng_ni_callback sizes 7 true true request idle).1
        ++ ((thread_answer true asked).1 ++ []))
unfolding loc_eng_ni_callback loc_ni_request_handler fill_notif
Run-NiSound_example =
    Session.Run-NiSound
      (Session.next (Session.asks before sizes 7 true true request)
        (Session.next (Session.expires asked) Session.here))
      (record { live = tt; free = refl })
