-- ===== src/Utils/Build.antt =====
-- utils/version.go: the build information that both programs print. The linker sets the variables.
use Prim.Native.String.{◌++◌}
use opvic.Prelude.{String}

pub record Build : Type 0 where
  pub version : String
  pub revision : String
  pub branch : String
  pub build_user : String
  pub build_date : String
  pub go_version : String

unfoldable pub version_info : Build → String
version_info b =
    "version=" ++ (b.version ++ (", branch=" ++ (b.branch ++ (", revision=" ++ b.revision))))

unfoldable pub build_context : Build → String
build_context b =
    "go=" ++ (b.go_version ++ (", user=" ++ (b.build_user ++ (", date=" ++ b.build_date))))
