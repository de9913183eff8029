-- ===== src/Queue/Circuit/Backoff.antt =====
-- queue/circuit.go: a sound circuit, and how the steps of the breaker keep it.
use gauntlet.Queue.Circuit.{
  CircuitBreaker, is_valid, InfrastructureFailure, Circuit, no_circuit, circuit_of, fresh_failures,
  is_duplicate, record_failure, back_off,
}
use gauntlet.Prelude.{
  ltb, insert, erase, lookup-insert, lookup-erase, str_eq, eq_iff, ◌++◌, ◌+◌, map, contains,
  Unrepeated, if◌then◌else◌, Map, String, ℕ, List, [], ◌∷◌, true, false, refl, inl, inr, ◌≡◌, ◌≤◌,
  ◌<◌, ◌⊎◌, arith, Bool-cases,
}

abbrev revisions : List InfrastructureFailure → List String
revisions = map (λ f. f.revision)

-- A circuit is closed and blocks nothing, or its backoff is within the configured bounds and it
-- blocks for at most the longest backoff. A revision is counted once.
pub record SoundCircuit (cfg : CircuitBreaker) (now : ℕ) (c : Circuit) : Type 0 where
  pub either :
      ((c.backoff ≡ 0) × (c.until ≡ 0))
      ⊎ ((cfg.backoff ≤ c.backoff) × (c.backoff ≤ cfg.max_backoff))
  pub soon : c.until ≤ now + cfg.max_backoff
  pub once : Unrepeated (revisions c.failures)

contains-fresh_failures :
    (window now : ℕ) (k : String) (fs : List InfrastructureFailure)
    → contains (revisions fs) k ≡ false
    → contains (revisions (fresh_failures window now fs)) k ≡ false
unfolding fresh_failures
contains-fresh_failures window now k [] h = refl
contains-fresh_failures window now k (f ∷ fs) h =
    ground (arith, h, contains-fresh_failures window now k fs)

fresh_failures-Unrepeated :
    (window now : ℕ) (fs : List InfrastructureFailure)
    → Unrepeated (revisions fs)
    → Unrepeated (revisions (fresh_failures window now fs))
unfolding fresh_failures
fresh_failures-Unrepeated window now [] u = tt
fresh_failures-Unrepeated window now (f ∷ fs) u = elim (Bool-cases (ltb now (f.at + window))) [
  | inl e ↦
      rw (e, fresh_failures)
        (
          contains-fresh_failures window now f.revision fs u.0,
          fresh_failures-Unrepeated window now fs u.1,
        )
  | inr e ↦ rw (e, fresh_failures) (fresh_failures-Unrepeated window now fs u.1)
]

contains-append_one :
    (k : String) (fs : List InfrastructureFailure) (f : InfrastructureFailure)
    → contains (revisions fs) k ≡ false
    → str_eq f.revision k ≡ false
    → contains (revisions (fs ++ (f ∷ []))) k ≡ false
contains-append_one k [] f h d = ground (arith, d)
contains-append_one k (g ∷ gs) f h d = ground (arith, h, d, contains-append_one k gs f)

append_one-Unrepeated :
    (fs : List InfrastructureFailure) (f : InfrastructureFailure)
    → Unrepeated (revisions fs)
    → is_duplicate f.revision fs ≡ false
    → Unrepeated (revisions (fs ++ (f ∷ [])))
unfolding is_duplicate
append_one-Unrepeated [] f u d = (refl, tt)
append_one-Unrepeated (g ∷ gs) f u d =
    let other : str_eq f.revision g.revision ≡ false =
      ground (arith, d, eq_iff f.revision g.revision, eq_iff g.revision f.revision) in
    (
      contains-append_one g.revision gs f u.0 other,
      append_one-Unrepeated gs f u.1 (ground (arith, d)),
    )

pub record_failure-Sound :
    (cfg : CircuitBreaker) (now : ℕ) (revision : String) (c : Circuit)
    → SoundCircuit cfg now c
    → SoundCircuit cfg now (record_failure cfg now revision c)
unfolding record_failure
record_failure-Sound cfg now revision c v = record {
  either = v.either;
  soon = v.soon;
  once = elim (Bool-cases (is_duplicate revision (fresh_failures cfg.window now c.failures))) [
    | inl e ↦ rw e (fresh_failures-Unrepeated cfg.window now c.failures v.once)
    | inr e ↦ rw e (
        append_one-Unrepeated (fresh_failures cfg.window now c.failures)
          (record { revision = revision; at = now })
          (fresh_failures-Unrepeated cfg.window now c.failures v.once) e)
  ];
}

pub bounds_of_valid :
    (cfg : CircuitBreaker)
    → is_valid cfg ≡ true
    → (0 < cfg.backoff) × (cfg.backoff ≤ cfg.max_backoff)
unfolding is_valid
bounds_of_valid cfg h = ground (arith, h)

pub back_off-Sound :
    (cfg : CircuitBreaker) (now : ℕ) (c : Circuit)
    → is_valid cfg ≡ true
    → SoundCircuit cfg now c
    → SoundCircuit cfg now (back_off cfg now c)
unfolding back_off
back_off-Sound cfg now c ok v =
    let b = bounds_of_valid cfg ok in
    elim (Bool-cases (ltb now c.until)) [
      | inl e ↦ rw (e, back_off) v
      | inr e ↦
          rw (e, back_off)
            (record {
              either = inr (ground (arith, b), ground (arith, b));
              soon = ground (arith, b);
              once = v.once;
            })
    ]

pub circuit_of-insert :
    (written target : String) (c : Circuit) (cs : Map Circuit)
    → circuit_of target (insert written c cs)
      ≡ (if str_eq written target then c else circuit_of target cs)
circuit_of-insert written target c cs = ground (arith, lookup-insert written target c cs)

pub circuit_of-erase :
    (gone target : String) (cs : Map Circuit)
    → circuit_of target (erase gone cs)
      ≡ (if str_eq gone target then no_circuit else circuit_of target cs)
circuit_of-erase gone target cs = ground (arith, lookup-erase gone target cs)
