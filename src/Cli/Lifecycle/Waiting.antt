-- ===== src/Cli/Lifecycle/Waiting.antt =====
-- cmd/score/lifecycle.go: how long `waitForDaemon` waits, and what it finds.
use the_score.Base.{
  ℕ, zero, suc, ◌+◌, ◌*◌, ◌/◌, ◌≤◌, ◌<◌, Bool, true, none, some, ◌≡◌, ap, subst, arith, ltb,
  is_some, ◌↔◌, Bool-cases, inl, inr,
}
use the_score.Model.{Time}
use the_score.Cli.Lifecycle.{same, wait_from, millisecond, rounds, wait_for_daemon}

module _ (clock : ℕ → Time) (running : ℕ → Bool) (want : Bool) (deadline : Time)
    (later : (i : ℕ) → clock i + 100 * millisecond ≤ clock (suc i)) where
  enough :
      (fuel i : ℕ)
      → deadline ≤ clock i + fuel * (100 * millisecond)
      → is_some (wait_from clock running want deadline (suc fuel) i) ≡ true
  unfolding wait_from
  enough zero i late = ground arith
  enough (suc fuel) i late = ground (arith, enough fuel (suc i), later i)

  clock_mono : (i d : ℕ) → clock i ≤ clock (d + i)
  clock_mono i zero = let e : clock (0 + i) ≡ clock i = ap clock (omega arith) in omega arith
  clock_mono i (suc d) =
      let e : clock (suc d + i) ≡ clock (suc (d + i)) = ap clock (omega arith) in
      omega (arith, clock_mono i d, later (d + i))

  -- The loop returns without an error in a round that finds what is wanted.
  finds :
      (fuel i : ℕ)
      → wait_from clock running want deadline fuel i ≡ some none
      → (j : ℕ) × (clock j < deadline) × (same (running j) want ≡ true)
  unfolding wait_from
  finds zero i e = absurd (ground arith)
  finds (suc fuel) i e = elim (Bool-cases (ltb (clock i) deadline)) [
    | inr late ↦ absurd (ground arith)
    | inl early ↦ elim (Bool-cases (same (running i) want)) [
      | inl found ↦ (i, ground arith, found)
      | inr lost ↦ finds fuel (suc i) (ground arith)
    ]
  ]

  found_from :
      (fuel i d : ℕ)
      → deadline ≤ clock i + fuel * (100 * millisecond)
      → clock (d + i) < deadline
      → same (running (d + i)) want ≡ true
      → wait_from clock running want deadline (suc fuel) i ≡ some none
  unfolding wait_from
  found_from zero i d late early found = absurd (omega (arith, clock_mono i d))
  found_from (suc fuel) i zero late early found =
      let e : 0 + i ≡ i = omega arith in
      let early' : clock i < deadline = subst (λ k. clock k < deadline) e early in
      let found' : same (running i) want ≡ true =
        subst (λ k. same (running k) want ≡ true) e found in
      ground arith
  found_from (suc fuel) i (suc d) late early found =
      let e : suc d + i ≡ d + suc i = omega arith in
      let here : clock i < deadline = omega (arith, clock_mono i (suc d)) in
      let rest : wait_from clock running want deadline (suc fuel) (suc i) ≡ some none =
        found_from fuel (suc i) d (omega (arith, later i)) (subst (λ k. clock k < deadline) e early)
          (subst (λ k. same (running k) want ≡ true) e found) in
      ground arith

module _ (clock : ℕ → Time) (running : ℕ → Bool) (want : Bool) (start : Time) (timeout : ℕ)
    (begins : start ≤ clock 0) (later : (i : ℕ) → clock i + 100 * millisecond ≤ clock (suc i)) where
  enough_rounds :
      start + timeout ≤ clock 0 + (timeout / (100 * millisecond) + 1) * (100 * millisecond)
  enough_rounds = omega arith

  -- `waitForDaemon` returns within the rounds that its timeout leaves room for, when its clock
  -- does not run back before the first round, and then advances by at least the 100 ms that it sleeps
  -- between two rounds.
  pub wait_for_daemon-is_some : is_some (wait_for_daemon clock running want start timeout) ≡ true
  unfolding wait_for_daemon
  wait_for_daemon-is_some =
      enough clock running want (start + timeout) later (timeout / (100 * millisecond) + 1) 0
        enough_rounds

  -- `waitForDaemon` returns nil if and only if some look at the daemon before the deadline finds it
  -- running or not, as wanted, when the clock does not run back before the first round, and then
  -- advances by at least 100 ms from one round to the next.
  pub wait_for_daemon_found :
      (wait_for_daemon clock running want start timeout ≡ some none)
      ↔ ((j : ℕ) × (clock j < start + timeout) × (same (running j) want ≡ true))
  unfolding wait_for_daemon
  wait_for_daemon_found = (
    finds clock running want (start + timeout) later (rounds timeout) 0,
    λ h.
        found_from clock running want (start + timeout) later (timeout / (100 * millisecond) + 1) 0
          h.0 enough_rounds (subst (λ k. clock k < start + timeout) (omega arith) h.1)
          (subst (λ k. same (running k) want ≡ true) (omega arith) h.2),
  )
