-- ===== src/Cli/Keeps.antt =====
-- cmd/score: what a command keeps of the daemon's store while it runs, call by call.
use the_score.Base.{String, Option, none, ◌≡◌, ◌≢◌, refl, subst, sym}
use the_score.Runtime.{Os}
use the_score.Store.{Store}
use the_score.Api.Reconcile.{Listing}
use the_score.Api.Handle.{Decoded, decoded, malformed, Reply, Json, Handler, handle}
use the_score.Client.{Params, Wire, call, send, marshalled, fresh_client, daemon_exchange}
use the_score.Client.Calls.{call-handle, outcome_answer}
use the_score.Cli.{
  Prog, Ending, returned, exited, then_with, ◌>>=◌, answered, Remote, called_remote, client_remote,
  call_or_die, call_err, or_die,
}

-- Whether a program keeps what it finds.
abbrev pub Keeps {ℓ} : (Store → Type 0) → {A : Type ℓ} → Prog A → Type 0
Keeps P m = (s : Store) → P s → P (m s).0

module _ (handler : Handler) (os : Os) (json : Json) (listing : Listing) (wire : Wire)
    (method : String) (plain : method ≢ "events/subscribe") where
  -- A call to the daemon whose parameters are sent leaves what the request leaves.
  pub remote-handle :
      (params : Option Params) (text : String) (s : Store)
      → marshalled wire params ≡ decoded text
      → (client_remote wire (daemon_exchange handler os json listing) none method params s).0
        ≡ (handle handler os json method listing text s).0
  unfolding client_remote called_remote
  remote-handle params text s e =
      (call-handle handler os json listing wire method text params fresh_client s plain e).0

  -- The same call's answer is that of the request, as the client reads it.
  pub remote-answered :
      (params : Option Params) (text : String) (s : Store)
      → marshalled wire params ≡ decoded text
      → let p = handle handler os json method listing text s in
        client_remote wire (daemon_exchange handler os json listing) none method params s
        ≡ (p.0, answered (outcome_answer wire p.1))
  unfolding client_remote called_remote
  remote-answered params text s e =
      let h = call-handle handler os json listing wire method text params fresh_client s plain e in
      rw (h.0, h.1) refl

module _ (P : Store → Type 0) where
  then_with-Keeps {ℓ κ} :
      {A : Type ℓ} {B : Type κ} (f : A → Prog B) (s : Store) (e : Ending A)
      → ((a : A) → Keeps P (f a))
      → P s
      → P (then_with f s e).0
  then_with-Keeps f s (returned a) keeps h = keeps a s h
  then_with-Keeps f s (exited status message) keeps h = h

  -- What holds after a program, and what the rest keeps, holds at the end.
  pub bind-Keeps {ℓ κ} :
      {A : Type ℓ} {B : Type κ} (m : Prog A) (f : A → Prog B) (s : Store)
      → ((a : A) → Keeps P (f a))
      → P (m s).0
      → P ((m >>= f) s).0
  bind-Keeps m f s keeps h = then_with-Keeps f (m s).0 (m s).1 keeps h

  or_die-Keeps {ℓ} : {A : Type ℓ} (a : Decoded A) → Keeps P (or_die a)
  unfolding or_die
  or_die-Keeps (malformed message) s h = h
  or_die-Keeps (decoded a) s h = h

  -- A command's call leaves the store as the remote leaves it.
  pub call_or_die-Keeps {ℓ} :
      {A : Type ℓ} (remote : Remote) (read : Reply → Decoded A) (method : String)
      (params : Option Params) (s : Store)
      → P (remote method params s).0
      → P (call_or_die remote read method params s).0
  unfolding call_or_die call_err
  call_or_die-Keeps remote read method params s h =
      bind-Keeps (call_err remote read method params) or_die s or_die-Keeps h

  module _ (handler : Handler) (os : Os) (json : Json) (listing : Listing) (wire : Wire)
      (method : String) (plain : method ≢ "events/subscribe") where
    sent-Keeps :
        (params : Option Params) (s : Store)
        → ((text : String) → P (handle handler os json method listing text s).0)
        → (sent : Decoded String) → marshalled wire params ≡ sent
        → P s
        → P (client_remote wire (daemon_exchange handler os json listing) none method params s).0
    unfolding client_remote called_remote call send
    sent-Keeps params s keeps (malformed message) e h = rw e h
    sent-Keeps params s keeps (decoded text) e h =
        subst P (sym (remote-handle handler os json listing wire method plain params text s e))
          (keeps text)

    -- A call to the daemon keeps what the request keeps, with whatever text its parameters become.
    pub remote-Keeps :
        (params : Option Params) (s : Store)
        → ((text : String) → P (handle handler os json method listing text s).0)
        → P s
        → P (client_remote wire (daemon_exchange handler os json listing) none method params s).0
    remote-Keeps params s keeps h = sent-Keeps params s keeps (marshalled wire params) refl h
