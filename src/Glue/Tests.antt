-- ===== src/Glue/Tests.antt =====
-- The theorems on loc_api_rpc_glue.c at a concrete process.
use android_device_generic_m.Base.{◌≡◌, refl, false, none, some, []}
use android_device_generic_m.SyncCall.{empty_payload, loc_api_callback_process_sync_call}
use android_device_generic_m.Glue.{
  Glue, Remote, fresh_table, loc_api_glue_init, loc_open, forwarded, rpc_loc_event_cb_f_type_svc,
  index_of_func,
}
use android_device_generic_m.Glue.Clients

abbrev cold : Glue
cold = record {
  callback_table = [];
  loc_api_clnt = none;
  sync = record { in_use = false; entries = [] };
}

-- Process 3 with the client at 500.
abbrev warm : Glue
warm = (loc_api_glue_init 3 (some 500) 0 cold).1

warm-Reached : Clients.Reached 3 warm
warm-Reached = Clients.after_init (some 500) 0 (Clients.cold cold refl)

abbrev fine : Remote
fine = record { stat = 0; result = 8 }

first_id : (loc_open fine (some 900) warm).event_callback ≡ some 196608
unfolding loc_open loc_api_glue_init fresh_table index_of_func
first_id = refl

opened_reaches_example :
    rpc_loc_event_cb_f_type_svc 196608 8 1 empty_payload (loc_open fine (some 900) warm).glue
    ≡ forwarded 900
        (loc_api_callback_process_sync_call 8 1 empty_payload
          (loc_open fine (some 900) warm).glue.sync).0
        (loc_api_callback_process_sync_call 8 1 empty_payload
          (loc_open fine (some 900) warm).glue.sync).1
opened_reaches_example =
    Clients.opened_reaches fine 900 196608 8 1 empty_payload warm-Reached first_id

warm_client : warm.loc_api_clnt ≡ some 500
unfolding loc_api_glue_init
warm_client = refl
