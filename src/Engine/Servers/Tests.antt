-- ===== src/Engine/Servers/Tests.antt =====
-- The theorems on the servers of gps/libloc/libloc_api/loc_eng.cpp for two addresses that come before the
-- engine is initialised, and for one that comes behind it.
use android_device_generic_m.Base.{◌≡◌, refl, false, none, List, [], ◌∷◌, ◌++◌, map}
use android_device_generic_m.Engine.Servers.{
  agps_type_supl, agps_type_c2k, ms_based, ms_assisted, periodic, single, Servers, Libc,
  loc_eng_agps_init,
}
use android_device_generic_m.Engine.Servers.Reach
use android_device_generic_m.Engine.Servers.Reach.{
  Setting, set_all, initialised, supl_of, c2k_of, latest, sent_for,
}
use android_device_generic_m.Engine.Servers.Modes
use android_device_generic_m.Engine.Servers.Modes.{
  Request, server, agps_init, position_mode, serve_all, modes, asked, any_known, mode_meant,
}

abbrev at_boot : Servers
at_boot = record {
  loc_eng_inited = false;
  supl_host_set = false;
  supl_host_buf = [];
  supl_port_buf = 0;
  c2k_host_set = false;
  c2k_host_buf = [];
  c2k_port_buf = 0;
  loc_c2k_addr_is_set = false;
}

-- Names are not resolved, and each port is printed as 7.
abbrev no_network : Libc
no_network = record {
  gethostbyname = λ h. none;
  inet_aton = λ h. none;
  htonl = λ a. a;
  print_unsigned = λ p. 55 ∷ [];
}

abbrev first : Setting
first = record { type = agps_type_supl; hostname = 97 ∷ []; port = 7 }

abbrev second : Setting
second = record { type = agps_type_supl; hostname = 98 ∷ []; port = 7 }

abbrev settings : List Setting
settings = first ∷ (second ∷ [])

early_reaches_example :
    ((set_all no_network settings at_boot).1 ≡ [])
    × ((loc_eng_agps_init no_network (initialised (set_all no_network settings at_boot).0)).1
        ≡ sent_for no_network agps_type_supl (initialised at_boot) (latest supl_of settings)
          ++ sent_for no_network agps_type_c2k (initialised at_boot) (latest c2k_of settings))
early_reaches_example = Reach.early_reaches no_network settings at_boot (refl, refl, refl)

-- An address comes behind the initialisation only, then a mode is asked for.
abbrev late : List Request
late =
    server first
    ∷ (position_mode ms_based periodic 1000 0 0 ∷ (position_mode ms_assisted single 0 0 0 ∷ []))

modes_sent_example :
    modes (serve_all no_network late (initialised (set_all no_network [] at_boot).0)).1
    ≡ map (mode_meant (any_known [])) (asked late)
modes_sent_example = Modes.modes_sent no_network [] late at_boot (refl, refl, refl)
