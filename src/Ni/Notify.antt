-- ===== src/Ni/Notify.antt =====
-- gps/libloc/libloc_api/loc_eng_ni.cpp: a request of the network, and the notification that it is turned into.
use android_device_generic_m.Base.{
  ℕ, ◌-◌, Bool, true, false, Option, none, some, List, [], ◌∷◌, ◌++◌, take, if◌then◌else◌,
}
use android_device_generic_m.Ni.Hex.{hexcode}
use android_device_generic_m.Ni.Address.{decode_address}

-- The kinds of request, `other_request` for any other value.
pub data NiEvent : Type 0 where
  vx umts_cp supl other_request : NiEvent

-- `rpc_loc_ni_notify_verify_e_type`
pub data NotifyVerify : Type 0 where
  no_notify_no_verify notify_only notify_verify_allow_no_resp : NotifyVerify
  notify_verify_not_allow_no_resp privacy_override unknown_type : NotifyVerify

-- `rpc_loc_ni_user_resp_e_type`
pub data UserResp : Type 0 where
  resp_none accept deny noresp : UserResp

-- `GpsUserResponseType`
pub data UserResponse : Type 0 where
  response_accept response_deny response_noresp other_response : UserResponse

pub data LocEncoding : Type 0 where
  utf8 ucs2 gsm_default language_unspec other_encoding : LocEncoding

-- `GpsNiEncodingType`; `enc_zero` is the 0 that stands for no text.
pub data Encoding : Type 0 where
  enc_zero enc_utf8 enc_ucs2 enc_gsm_default enc_unknown : Encoding

-- `rpc_loc_ni_event_s_type`, with the members of the three payloads that are read. The text is the client
-- name of a SUPL request.
pub record NiRequest : Type 0 where
  pub event : NiEvent
  pub notification_priv_type : NotifyVerify
  pub requestor_id : List ℕ
  pub text : List ℕ
  pub encoding : LocEncoding
  pub client_name_present : Bool
  pub requestor_id_present : Bool
  pub encoding_present : Bool
  pub ext_client_address : List ℕ

pub data NiType : Type 0 where
  voice umts_supl umts_ctrl_plane : NiType

-- The bits of `notify_flags`, and `default_response`.
pub record Asked : Type 0 where
  pub need_notify : Bool
  pub need_verify : Bool
  pub privacy : Bool
  pub default_response : UserResponse

-- `GpsNiNotification`
pub record Notification : Type 0 where
  pub notification_id : ℕ
  pub ni_type : NiType
  pub timeout : ℕ
  pub asked : Asked
  pub requestor_id : List ℕ
  pub text : List ℕ
  pub requestor_id_encoding : Encoding
  pub text_encoding : Encoding
  pub extras : List ℕ

-- The answer FALSE, for a value that it does not know, is not looked at.
unfoldable pub loc_ni_fill_notif_verify_type : NotifyVerify → Asked
loc_ni_fill_notif_verify_type notify_only = record {
  need_notify = true;
  need_verify = false;
  privacy = false;
  default_response = response_noresp;
}
loc_ni_fill_notif_verify_type notify_verify_allow_no_resp = record {
  need_notify = true;
  need_verify = true;
  privacy = false;
  default_response = response_accept;
}
loc_ni_fill_notif_verify_type notify_verify_not_allow_no_resp = record {
  need_notify = true;
  need_verify = true;
  privacy = false;
  default_response = response_deny;
}
loc_ni_fill_notif_verify_type privacy_override = record {
  need_notify = false;
  need_verify = false;
  privacy = true;
  default_response = response_noresp;
}
loc_ni_fill_notif_verify_type other = record {
  need_notify = false;
  need_verify = false;
  privacy = false;
  default_response = response_noresp;
}

unfoldable pub convert_encoding_type : LocEncoding → Encoding
convert_encoding_type utf8 = enc_utf8
convert_encoding_type ucs2 = enc_ucs2
convert_encoding_type gsm_default = enc_gsm_default
convert_encoding_type language_unspec = enc_gsm_default
convert_encoding_type other_encoding = enc_unknown

-- LOC_NI_NO_RESPONSE_TIME
abbrev pub no_response_time : ℕ
no_response_time = 20

-- The sizes of the buffers for an identity and for a text, which hardware/gps.h sets.
pub record Sizes : Type 0 where
  pub short_string : ℕ
  pub long_string : ℕ

-- "Address = "
abbrev pub key_address : List ℕ
key_address = 65 ∷ 100 ∷ 100 ∷ 114 ∷ 101 ∷ 115 ∷ 115 ∷ 32 ∷ 61 ∷ 32 ∷ []

-- `strlcat` onto a string in a buffer of `size` bytes.
abbrev pub strlcat : (size : ℕ) → List ℕ → List ℕ → List ℕ
strlcat size dst src = take (size - 1) (dst ++ src)

-- What `extras` holds where there is an address.
abbrev pub address_extras : (long_string : ℕ) → List ℕ → List ℕ
address_extras long_string [] = []
address_extras long_string (b ∷ bs) =
    strlcat long_string (strlcat long_string [] key_address) (decode_address 32 (b ∷ bs))

abbrev pub when_present : Bool → List ℕ → List ℕ
when_present present s = if present then s else []

abbrev pub supl_encoding : NiRequest → Encoding
supl_encoding r = if r.encoding_present then convert_encoding_type r.encoding else enc_unknown

-- The notification of a request, none for a kind that is not known.
unfoldable pub fill_notif : Sizes → (id : ℕ) → NiEvent → NiRequest → Option Notification
fill_notif z id vx r = some (record {
  notification_id = id;
  ni_type = voice;
  timeout = no_response_time;
  asked = loc_ni_fill_notif_verify_type r.notification_priv_type;
  requestor_id = hexcode z.short_string r.requestor_id;
  text = [];
  requestor_id_encoding = convert_encoding_type r.encoding;
  text_encoding = enc_zero;
  extras = [];
})
fill_notif z id umts_cp r = some (record {
  notification_id = id;
  ni_type = umts_ctrl_plane;
  timeout = no_response_time;
  asked = loc_ni_fill_notif_verify_type r.notification_priv_type;
  requestor_id = hexcode z.short_string r.requestor_id;
  text = hexcode z.long_string r.text;
  requestor_id_encoding = convert_encoding_type r.encoding;
  text_encoding = convert_encoding_type r.encoding;
  extras = address_extras z.long_string r.ext_client_address;
})
fill_notif z id supl r = some (record {
  notification_id = id;
  ni_type = umts_supl;
  timeout = no_response_time;
  asked = loc_ni_fill_notif_verify_type r.notification_priv_type;
  requestor_id = when_present r.requestor_id_present (hexcode z.short_string r.requestor_id);
  text = when_present r.client_name_present (hexcode z.long_string r.text);
  requestor_id_encoding = supl_encoding r;
  text_encoding = supl_encoding r;
  extras = [];
})
fill_notif z id other_request r = none
