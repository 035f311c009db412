-- ===== src/Daemon/Starts.antt =====
-- internal/daemon/server.go and cmd/scored/main.go: the sources of a fresh server, and how the daemon
-- ends.
use the_score.Base.{
  ℕ, zero, suc, Bool, ◌||◌, String, List, [], ◌∷◌, ◌++◌, none, some, ◌≡◌, ◌≢◌, ◌↔◌, refl, ap, arith,
  ◌==◌, false, eqb, All, In, ◌∙◌, if◌then◌else◌, Bool-cases, inl, inr,
}
use the_score.Strings.{◌⧺◌}
use the_score.Base.Sort.{In-sort}
use the_score.Base.Table.{Table, put, values}
use the_score.Model.{Time, Source}
use the_score.Store.{Store, new, tick}
use the_score.Store.Sources.{upsert_source, fill_source, list_sources}
use the_score.Store.Invariant.{IsValid, new-IsValid, tick-IsValid, upsert_source-IsValid}
use the_score.Daemon.{
  seed_list, seed_all, seed_sources, new_server, Accepted, connection, failure, serve, exited,
  scored_main, served_exit,
}

put_all : List Source → Table Source → Table Source
put_all [] m = m
put_all (x ∷ xs) m = put_all xs (put x.id x m)

-- A source that is stored as it is given.
abbrev Given : Time → Source → Type 0
Given t x = ((x.id == "") ≡ false) × (x.observed_at ≡ t)

sources-upsert_source :
    (t : Time) (x : Source) (s : Store)
    → eqb t 0 ≡ false
    → Given t x
    → (upsert_source x s).0.sources ≡ put x.id x s.sources
unfolding upsert_source fill_source
sources-upsert_source t x s started h =
    let dated : eqb x.observed_at 0 ≡ false = rw (h.1, started) refl in rw (h.0, dated) refl

sources-seed_all :
    (t : Time) (xs : List Source) (s : Store)
    → eqb t 0 ≡ false
    → All (Given t) xs
    → (seed_all xs s).sources ≡ put_all xs s.sources
unfolding seed_all put_all
sources-seed_all t [] s started h = refl
sources-seed_all t (x ∷ xs) s started h =
    sources-seed_all t xs (upsert_source x s).0 started h.1
    ∙ ap (put_all xs) (sources-upsert_source t x s started h.0)

seed_list-Given : (t : Time) → All (Given t) (seed_list t)
unfolding seed_list
seed_list-Given t = (
  (refl, refl),
  (
    (refl, refl),
    (
      (refl, refl),
      (
        (refl, refl),
        (
          (refl, refl),
          (
            (refl, refl),
            ((refl, refl), ((refl, refl), ((refl, refl), ((refl, refl), ((refl, refl), tt))))),
          ),
        ),
      ),
    ),
  ),
)

values-put_all : (t : Time) → values (put_all (seed_list t) []) ≡ seed_list t
unfolding seed_list values put put_all
values-put_all t = refl

values-new_server :
    (clock : ℕ → Time) → clock 0 ≢ 0 → values (new_server clock).sources ≡ seed_list (clock 0)
unfolding new_server seed_sources new
values-new_server clock started =
    ap values (
      sources-seed_all (clock 0) (seed_list (clock 0)) (tick (new clock)) (ground arith)
        (seed_list-Given (clock 0)))
    ∙ values-put_all (clock 0)

-- `ListSources` of a fresh server lists exactly the sources that `seedSources` names, observed at the
-- reading of the clock that it started with, which is not zero.
pub In-list_sources-new_server :
    (clock : ℕ → Time) (x : Source)
    → clock 0 ≢ 0
    → In x (list_sources (new_server clock)) ↔ In x (seed_list (clock 0))
unfolding list_sources
In-list_sources-new_server clock x started =
    rw (values-new_server clock started) (In-sort _ x (seed_list (clock 0)))

seed_all-IsValid : (xs : List Source) (s : Store) → IsValid s → IsValid (seed_all xs s)
unfolding seed_all
seed_all-IsValid [] s v = v
seed_all-IsValid (x ∷ xs) s v =
    seed_all-IsValid xs (upsert_source x s).0 (upsert_source-IsValid s v x)

-- The store of a fresh server is valid.
pub new_server-IsValid : (clock : ℕ → Time) → IsValid (new_server clock)
unfolding new_server seed_sources new
new_server-IsValid clock =
    seed_all-IsValid (seed_list (clock 0)) (tick (new clock))
      (tick-IsValid (new clock) (new-IsValid clock))

pub connections : ℕ → List Accepted
connections zero = []
connections (suc n) = connection ∷ connections n

served-connections :
    (n : ℕ) (cancelled closed : Bool) (message : String) (rest : List Accepted)
    → let served = serve (connections n ++ failure cancelled closed message ∷ rest) in
      (served.served ≡ n)
      × (served.returned ≡ some (if cancelled || closed then none else some message))
unfolding serve connections
served-connections zero cancelled closed message rest = (refl, ground arith)
served-connections (suc n) cancelled closed message rest =
    let later = served-connections n cancelled closed message rest in (ap suc later.0, later.1)

-- After any number of connections, each of which is served, the first error of `Accept` ends the
-- daemon: with status 0 where the context is done or the listener was closed, and else with status 1
-- and the error.
pub scored_main-connections :
    (n : ℕ) (cancelled closed : Bool) (message : String) (rest : List Accepted)
    → let accepts = connections n ++ failure cancelled closed message ∷ rest in
      ((serve accepts).served ≡ n)
      × (scored_main none accepts
          ≡ (if cancelled || closed then exited 0 "" else exited 1 ("scored: " ⧺ message)))
unfolding scored_main served_exit
scored_main-connections n cancelled closed message rest =
    let h = served-connections n cancelled closed message rest in
    (
      h.0,
      rw h.1 (elim (Bool-cases (cancelled || closed)) [
        | inl calm ↦ rw calm refl
        | inr not_calm ↦ rw not_calm refl
      ]),
    )
