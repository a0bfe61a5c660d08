-- ===== src/Config/Timezones/Zone.antt =====
-- The structure Timezone of include/riden_config/riden_config.h.
use riden_dongle.Base.{String}

pub record Timezone : Type 0 where
  pub name : String
  pub tz : String

abbrev pub zone : String → String → Timezone
zone name tz = record { name = name; tz = tz }
