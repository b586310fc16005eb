-- ===== src/Power/Tests.antt =====
-- The theorems on power/power.c for the governor "ondemand" and a new line behind it.
use android_device_generic_m.Base.{true, false, none, some, [], ◌∷◌, ◌++◌}
use android_device_generic_m.Power.{World, Power, ondemand, interaction, cm_power_hint}
use android_device_generic_m.Power.Boost

abbrev world : World
world = record {
  governor_fd = some 4;
  governor_file = some (ondemand ++ 10 ∷ []);
  node_fd = λ n. some 6;
  node_ok = λ n. true;
  boost_file = some 5;
  pulse_ok = true;
}

abbrev start : Power
start = record { boostpulse_fd = none; boostpulse_warned = false; governor = [] }

hint-Balanced_example : Boost.Balanced 5 start (cm_power_hint world interaction none start)
hint-Balanced_example = Boost.hint-Balanced world interaction none start 5
