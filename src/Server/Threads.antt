-- ===== src/Server/Threads.antt =====
-- gps/libloc/librpc/svc.c: when svc_register starts a thread.
use android_device_generic_m.Base.{ℕ, ◌≡◌, ap, ◌∙◌, true, false, none, [], ◌∷◌, if◌then◌else◌}
use android_device_generic_m.Rpc.Channel.{xdr_init_common}
use android_device_generic_m.Server.{
  SvcXprt, svc_find_nosync, is_callback, register_found, enlist, callback_entry, register_real,
  thread_created, thread_events, svc_register,
}

-- A callback program that is registered while there is exactly one real service starts a thread
-- again, though the one that was started for that service is running.
pub second_thread :
    (prog vers dispatch control opened : ℕ) (t : SvcXprt)
    → is_callback prog ≡ true
    → svc_find_nosync prog vers t.servers ≡ none
    → t.num_servers ≡ 1
    → (svc_register prog vers dispatch control opened t).events ≡ thread_created ∷ []
unfolding svc_register
second_thread prog vers dispatch control opened t cb new one =
    let c = xdr_init_common opened false in
    ap (λ o. (register_found prog vers dispatch control c t o).events) new
    ∙ ap
        (λ b.
          (if b
            then enlist (callback_entry prog vers dispatch) t []
            else register_real prog vers dispatch control c t).events)
        cb
    ∙ ap thread_events one
