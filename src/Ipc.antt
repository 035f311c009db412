-- ===== src/Ipc.antt =====
-- internal/ipc: the address of the daemon, and how it is listened on and dialled.
pub mod Meets
use the_score.Base.{ℕ, Bool, not, String, Option, none, some, ◌==◌, if◌then◌else◌, ℤ}
use the_score.Strings.{◌⧺◌}
use the_score.Strings.Numbers.{itoa}

-- What the code asks of the system: os.Getenv, runtime.GOOS, os.TempDir, os.Getuid, and filepath.Join
-- of a directory and a name.
pub record Host : Type 0 where
  pub get_env : String → String
  pub windows : Bool
  pub temp_dir : String
  pub uid : ℤ
  pub join : String → String → String

abbrev pub env_socket : String
env_socket = "SCORE_SOCKET"

-- userID, of ipc_unix.go and ipc_windows.go
pub user_id : Host → String
user_id host =
    if host.windows
    then (if host.get_env "USERNAME" == "" then "user" else host.get_env "USERNAME")
    else itoa host.uid

unfoldable pub default_address : Host → String
unfolding user_id
default_address host =
    let value = host.get_env env_socket in
    let dir = host.get_env "XDG_RUNTIME_DIR" in
    if not (value == "")
    then value
    else if host.windows
    then "\\\\.\\pipe\\score-daemon"
    else if not (dir == "")
    then host.join dir "score.sock"
    else host.join host.temp_dir ("score-" ⧺ user_id host ⧺ ".sock")

-- What a call of the system returns: a listener or a connection, or the text of an error.
pub data Opened {ℓ} (A : Type ℓ) : Type ℓ where
  opened : A → Opened A
  refused : String → Opened A

-- The calls of os, net and go-winio, over the state `W` of the system: os.Remove and os.Chmod, whose
-- errors are ignored, net.Listen and winio.ListenPipe, and net.Dial, net.DialTimeout and
-- winio.DialPipe, each with the timeout or none.
pub record Network (W L C : Type 0) : Type 0 where
  pub remove : String → W → W
  pub chmod : String → ℕ → W → W
  pub listen_unix : String → W → W × Opened L
  pub listen_pipe : String → W → W × Opened L
  pub dial_unix : String → Option ℕ → W → W × Opened C
  pub dial_pipe : String → Option ℕ → W → W × Opened C

module _ {W L C : Type 0} (network : Network W L C) (host : Host) where
  -- os.Chmod(address, 0600), where there is a listener
  restricted : String → W × Opened L → W × Opened L
  restricted address (w, refused message) = (w, refused message)
  restricted address (w, opened listener) = (network.chmod address 384 w, opened listener)

  -- listen, of ipc_unix.go and ipc_windows.go
  unfoldable pub listen : String → W → W × Opened L
  unfolding restricted
  listen address w =
      if host.windows
      then network.listen_pipe address w
      else restricted address (network.listen_unix address (network.remove address w))

  -- dial and dialTimeout, which is given a timeout
  unfoldable pub dial : String → Option ℕ → W → W × Opened C
  dial address timeout w =
      if host.windows
      then network.dial_pipe address timeout w
      else network.dial_unix address timeout w

  -- The state of the system, the address, and the listener or the connection.
  unfoldable pub listen_default : W → W × String × Opened L
  unfolding listen
  listen_default w =
      let address = default_address host in let p = listen address w in (p.0, address, p.1)

  unfoldable pub dial_default : Option ℕ → W → W × String × Opened C
  unfolding dial
  dial_default timeout w =
      let address = default_address host in let p = dial address timeout w in (p.0, address, p.1)
