-- ===== src/Ipc/Meets.antt =====
-- internal/ipc: a client and a daemon in the same environment.
use the_score.Base.{ℕ, ◌/◌, ◌%◌, Bool, true, false, String, Option, none, some, ◌≡◌, ◌⊎◌}
use the_score.Ipc.{Host, Opened, opened, refused, Network}

-- What the code relies on of a system. `socket` is the listener of the Unix socket at an address,
-- `mode_of` the mode of its file, `pipe` the listener of the named pipe of a name, `free` says that an
-- address can be listened on, and `reaches` that a connection ends at a listener.
module _ {W L C : Type 0} (network : Network W L C) (socket pipe : String → W → Option L)
    (mode_of : String → W → ℕ) (free : String → W → Bool) (reaches : L → C → Type 0) where
  -- The owner may write to the file.
  abbrev pub OwnerWrites : ℕ → Type 0
  OwnerWrites mode = mode / 128 % 2 ≡ 1

  -- On Unix, nobody but the owner may do anything with the file.
  abbrev pub OwnerOnly : (windows : Bool) → ℕ → Type 0
  OwnerOnly true mode = Unit
  OwnerOnly false mode = mode % 64 ≡ 0

  abbrev Listens : (String → W → Option L) → String → W × Opened L → Type 0
  Listens there address p = (l : L) × (p.1 ≡ opened l) × (there address p.0 ≡ some l)

  -- A dial without a timeout reaches the listener; one with a timeout may run into it.
  abbrev pub Answers : L → Option ℕ → Opened C → Type 0
  Answers l none o = (c : C) × (o ≡ opened c) × reaches l c
  Answers l (some timeout) o =
      ((c : C) × (o ≡ opened c) × reaches l c) ⊎ ((message : String) × (o ≡ refused message))

  -- unix(7), chmod(2) and the documentation of net and go-winio: where an address is free, listening
  -- gives a listener of the kind that was asked for; chmod sets the mode of the file of a socket and
  -- nothing else; a dial finds a listener of its own kind only, and to connect to a Unix socket
  -- needs the permission to write to its file.
  pub record IsNetwork : Type 0 where
    pub listens_unix :
        (address : String) (w : W)
        → free address w ≡ true
        → Listens socket address (network.listen_unix address w)
    pub listens_pipe :
        (address : String) (w : W)
        → free address w ≡ true
        → Listens pipe address (network.listen_pipe address w)
    pub chmod_socket :
        (address : String) (mode : ℕ) (w : W)
        → socket address (network.chmod address mode w) ≡ socket address w
    pub chmod_mode :
        (address : String) (mode : ℕ) (w : W) (l : L)
        → socket address w ≡ some l
        → mode_of address (network.chmod address mode w) ≡ mode
    pub dials_unix :
        (address : String) (timeout : Option ℕ) (w : W) (l : L)
        → socket address w ≡ some l
        → OwnerWrites (mode_of address w)
        → Answers l timeout (network.dial_unix address timeout w).1
    pub dials_pipe :
        (address : String) (timeout : Option ℕ) (w : W) (l : L)
        → pipe address w ≡ some l
        → Answers l timeout (network.dial_pipe address timeout w).1

  module _ (host : Host) (laws : IsNetwork) where
    -- The socket is there, for its owner only.
    abbrev IsRestricted : String → W × Opened L → Type 0
    IsRestricted address p =
        (l : L) × (p.1 ≡ opened l) × (socket address p.0 ≡ some l) × (mode_of address p.0 ≡ 384)

    -- A daemon that listened, and what a client then gets of a dial.
    abbrev pub Meets : Option ℕ → Bool → W × String × Opened L → Opened C → Type 0
    Meets timeout windows served o =
        (l : L) × (served.2 ≡ opened l)
        × Answers l timeout o
        × OwnerOnly windows (mode_of served.1 served.0)
