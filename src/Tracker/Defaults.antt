-- ===== src/Tracker/Defaults.antt =====
-- SetDefaults and Validate of agent/api/v1alpha1/versiontracker_types.go.
use opvic.Prelude.{◌≡◌, ◌≢◌, String}

-- A given text is kept, and an empty one is the default.
abbrev pub IsDefaulted : String → String → String → Type 0
IsDefaulted given default result = (given ≢ "" → result ≡ given) × (given ≡ "" → result ≡ default)
