-- ===== src/Runtime.antt =====
-- internal/runtime: the process table, and the inference of agent sessions from it.
pub mod Infer
pub mod Ps
pub mod Cwd
pub mod Tasklist
use Prim.Native.Char.{Char}
use the_score.Base.{Bool, ℤ, String, Option}

-- What the code asks of the operating system and of Go's Unicode tables.
pub record Os : Type 0 where
  -- runtime.GOOS == "windows"
  pub windows : Bool
  -- os.Stat(path) gives no error
  pub exists : String → Bool
  -- filepath.Base on Windows
  pub base_windows : String → String
  -- unicode.ToLower
  pub lower : Char → Char
  -- LookupProcessCWD, `none` where it gives false
  pub lookup_cwd : ℤ → Option String
