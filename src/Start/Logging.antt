-- ===== src/Start/Logging.antt =====
-- The loggers of cmd/agent/main.go and cmd/controlplane/main.go, from the flag of the level.
use opvic.Prelude.{Bool, true, false, ◌≡◌, String, ◌==◌, Option, none, some, if◌then◌else◌, arith}

pub data Level : Type 0 where
  info_level warn_level error_level : Level

-- The options of zap that the switch sets, which stay as they are for another text.
pub record Options : Type 0 where
  pub development : Bool
  pub level : Option Level

abbrev pub default_options : Options
default_options = record { development = false; level = none }

unfoldable pub agent_logger : String → Options
agent_logger log_level =
    if log_level == "debug"
    then record { development = true; level = none }
    else if log_level == "info"
    then record { development = false; level = some info_level }
    else if log_level == "warn"
    then record { development = false; level = some warn_level }
    else if log_level == "error"
    then record { development = false; level = some error_level }
    else default_options

pub data Mode : Type 0 where
  release_mode debug_mode : Mode

-- The mode of gin, and the options.
unfoldable pub controlplane_logger : String → Mode × Options
controlplane_logger log_level =
    if log_level == "debug"
    then (debug_mode, record { development = true; level = none })
    else if log_level == "info"
    then (release_mode, record { development = false; level = some info_level })
    else if log_level == "warn"
    then (release_mode, record { development = false; level = some warn_level })
    else if log_level == "error"
    then (release_mode, record { development = false; level = some error_level })
    else (release_mode, default_options)

-- Both programs log alike at every level.
loggers-same : (log_level : String) → (controlplane_logger log_level).1 ≡ agent_logger log_level
unfolding controlplane_logger agent_logger
loggers-same log_level = ground arith
