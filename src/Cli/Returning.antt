-- ===== src/Cli/Returning.antt =====
-- cmd/score: the calls of a command that are answered, one after another.
use the_score.Base.{String, Option, none, ◌≡◌, ◌≢◌, refl, ◌==◌, Bool-cases, inl, inr, arith, eq_iff}
use the_score.Runtime.{Os}
use the_score.Store.{Store}
use the_score.Api.Reconcile.{Listing}
use the_score.Api.Handle.{decoded, Reply, Json, Handler}
use the_score.Api.Handle.Accepts.{Accepts}
use the_score.Client.{Params, Wire, marshalled, daemon_exchange}
use the_score.Client.Calls.{outcome_answer-result}
use the_score.Cli.{
  Prog, returned, ◌>>=◌, Remote, client_remote, call_or_die, call_err, ended_call, read_answer,
  read_reply, or_die,
}
use the_score.Cli.Keeps.{remote-answered}
use the_score.Cli.Observe.{when_set}

-- That a program returns, from every store.
abbrev pub Returning {ℓ} : {A : Type ℓ} → Prog A → Type ℓ
Returning m = (s : Store) → (a : _) × ((m s).1 ≡ returned a)

pub bind-Returning {ℓ κ} :
    {A : Type ℓ} {B : Type κ} (m : Prog A) (f : A → Prog B)
    → Returning m
    → ((a : A) → Returning (f a))
    → Returning (m >>= f)
bind-Returning m f first rest s = let p = first s in let q = rest p.0 (m s).0 in (q.0, rw p.1 q.1)

-- A client whose caller can read every reply as it was sent.
abbrev pub Rereads : Wire → Type 0
Rereads wire = (reply : Reply) → wire.reread reply ≡ decoded reply

module _ (handler : Handler) (os : Os) (json : Json) (listing : Listing) (wire : Wire)
    (rereads : Rereads wire) where
  abbrev remote : Remote
  remote = client_remote wire (daemon_exchange handler os json listing) none

  -- A call whose request is accepted returns the reply.
  pub call-Returning :
      (method text : String) (params : Option Params)
      → method ≢ "events/subscribe"
      → marshalled wire params ≡ decoded text
      → Accepts handler os json listing method text
      → Returning (call_or_die remote (λ reply. decoded reply) method params)
  unfolding call_or_die call_err ended_call read_answer read_reply or_die
  call-Returning method text params plain sent accepts s =
      let p = accepts s in
      (
        p.0,
        rw
            (
              remote-answered handler os json listing wire method plain params text s sent,
              p.1,
              outcome_answer-result wire p.0 (rereads p.0),
            )
            refl,
      )

  pub when_set-Returning :
      (value : String) (m : Prog Reply) (reply : Reply)
      → (value ≢ "" → Returning m)
      → Returning (when_set remote value m reply)
  when_set-Returning value m reply returns s = elim (Bool-cases (value == "")) [
    | inl unset ↦ (reply, rw unset refl)
    | inr set ↦ let p = returns (ground (arith, eq_iff value "")) s in (p.0, rw set p.1)
  ]
