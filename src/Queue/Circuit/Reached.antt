-- ===== src/Queue/Circuit/Reached.antt =====
-- queue/circuit.go: the circuits that a daemon reaches, their bounds, and when a target is blocked.
use gauntlet.Queue.Circuit.Backoff.{
  SoundCircuit, record_failure-Sound, bounds_of_valid, back_off-Sound, circuit_of-insert,
  circuit_of-erase,
}
use gauntlet.Queue.Circuit.{
  CircuitBreaker, is_valid, Circuit, no_circuit, circuit_of, circuit_blocked, Event, is_failure,
  is_recovery, revision_of, record_failure, back_off, trip, observe_infrastructure,
  mark_circuit_probe,
}
use gauntlet.Prelude.{
  ◌==◌, ◌≢◌, ltb, leb, length, lookup, insert, erase, str_eq, str_eq_refl, eq_iff, ◌||◌,
  if◌then◌else◌, Map, Bool, String, ℕ, [], some, true, false, refl, inl, inr, ◌≡◌, ◌≤◌, ◌∙◌, sym,
  ap, arith, subst, Bool-cases,
}

-- The circuits that a daemon reaches from none, while time passes, events come in and probes start.
module _ (reason_text : ℕ → ℕ → String) (cfg : CircuitBreaker) where
  pub data Observed : ℕ → Map Circuit → Type 0 where
    at_start : Observed 0 []
    passes :
        {now : ℕ} {cs : Map Circuit} (later : ℕ) → now ≤ later → Observed now cs → Observed later cs
    observes :
        {now : ℕ} {cs : Map Circuit} (ev : Event)
        → Observed now cs
        → Observed now (observe_infrastructure reason_text (some cfg) now ev cs)
    probes :
        {now : ℕ} {cs : Map Circuit} (target run_id : String) (started : ℕ)
        → Observed now cs
        → Observed now (mark_circuit_probe target run_id started now cs)

  trip-Sound :
      (now : ℕ) (c : Circuit)
      → is_valid cfg ≡ true
      → SoundCircuit cfg now c
      → SoundCircuit cfg now (trip reason_text cfg now c)
  unfolding trip
  trip-Sound now c ok v =
      elim (Bool-cases (leb cfg.threshold (length c.failures) || ltb 0 c.backoff)) [
        | inl e ↦
            let w = back_off-Sound cfg now c ok v in
            rw (e, trip) (record { either = w.either; soon = w.soon; once = w.once })
        | inr e ↦ rw (e, trip) v
      ]

  no_circuit-Sound : (now : ℕ) → SoundCircuit cfg now no_circuit
  no_circuit-Sound now = record { either = inl (refl, refl); soon = omega arith; once = tt }

  either_of :
      {now : ℕ} (p : Bool) {c d : Circuit}
      → SoundCircuit cfg now c
      → SoundCircuit cfg now d
      → SoundCircuit cfg now (if p then c else d)
  either_of true v w = v
  either_of false v w = w

  abbrev AllSound : ℕ → Map Circuit → Type 0
  AllSound now cs = (target : String) → SoundCircuit cfg now (circuit_of target cs)

  insert-Sound :
      (now : ℕ) (written : String) (c : Circuit) (cs : Map Circuit)
      → SoundCircuit cfg now c
      → AllSound now cs
      → AllSound now (insert written c cs)
  insert-Sound now written c cs v w target =
      subst (SoundCircuit cfg now) (sym (circuit_of-insert written target c cs))
        (either_of (str_eq written target) v (w target))

  erase-Sound :
      (now : ℕ) (gone : String) (cs : Map Circuit) → AllSound now cs → AllSound now (erase gone cs)
  erase-Sound now gone cs w target =
      subst (SoundCircuit cfg now) (sym (circuit_of-erase gone target cs))
        (either_of (str_eq gone target) (no_circuit-Sound now) (w target))

  observe-Sound :
      (now : ℕ) (ev : Event) (cs : Map Circuit)
      → is_valid cfg ≡ true
      → AllSound now cs
      → AllSound now (observe_infrastructure reason_text (some cfg) now ev cs)
  unfolding observe_infrastructure
  observe-Sound now ev cs ok w =
      let c = circuit_of ev.target cs in
      elim (Bool-cases (str_eq ev.target "" || str_eq ev.ref "")) [
        | inl e ↦ rw (e, observe_infrastructure) w
        | inr e ↦ elim (Bool-cases (is_recovery c ev)) [
          | inl r ↦ rw (e, r, observe_infrastructure) (erase-Sound now ev.target cs w)
          | inr r ↦ elim (Bool-cases (is_failure ev)) [
            | inr f ↦ rw (e, r, f, observe_infrastructure) w
            | inl f ↦
                rw (e, r, f, observe_infrastructure)
                  (insert-Sound now ev.target
                    (trip reason_text cfg now (record_failure cfg now (revision_of ev) c)) cs
                    (trip-Sound now _ ok
                      (record_failure-Sound cfg now (revision_of ev) c (w ev.target)))
                    w)
          ]
        ]
      ]

  mark-Sound :
      (now started : ℕ) (target run_id : String) (cs : Map Circuit)
      → AllSound now cs
      → AllSound now (mark_circuit_probe target run_id started now cs)
  unfolding mark_circuit_probe
  mark-Sound now started target run_id cs w =
      let c = circuit_of target cs in
      elim (Bool-cases
        (c.backoff == 0 || circuit_blocked cs now target || str_eq c.probe_run_id run_id)) [
          | inl e ↦ rw (e, mark_circuit_probe) w
          | inr e ↦ elim (Bool-cases (ltb started c.until)) [
            | inl l ↦ rw (e, l, mark_circuit_probe) w
            | inr l ↦
                let v = w target in
                rw (e, l, mark_circuit_probe)
                  (insert-Sound now target (record c { probe_run_id = run_id }) cs
                    (record { either = v.either; soon = v.soon; once = v.once }) w)
          ]
        ]

  -- With a valid configuration, at any time and for any target: the circuit is closed and blocks
  -- nothing, or its backoff lies between the configured bounds; it blocks for no longer than the
  -- longest backoff from now; and no revision is counted twice.
  pub Observed-SoundCircuit :
      {now : ℕ} {cs : Map Circuit} (target : String)
      → is_valid cfg ≡ true
      → Observed now cs
      → SoundCircuit cfg now (circuit_of target cs)
  unfolding lookup
  Observed-SoundCircuit target ok at_start = no_circuit-Sound 0
  Observed-SoundCircuit target ok (passes {now} {cs} later le h) =
      let v = Observed-SoundCircuit {now = now} {cs = cs} target ok h in
      record { either = v.either; soon = omega (arith, v.soon, le); once = v.once }
  Observed-SoundCircuit target ok (observes {now} {cs} ev h) =
      observe-Sound now ev cs ok (λ t. Observed-SoundCircuit {now = now} {cs = cs} t ok h) target
  Observed-SoundCircuit target ok (probes {now} {cs} t run_id started h) =
      mark-Sound now started t run_id cs (λ u. Observed-SoundCircuit {now = now} {cs = cs} u ok h)
        target

  trip-blocks :
      (now : ℕ) (c : Circuit)
      → is_valid cfg ≡ true
      → SoundCircuit cfg now c
      → ltb now (trip reason_text cfg now c).until
        ≡ (leb cfg.threshold (length c.failures) || ltb 0 c.backoff)
  unfolding trip back_off
  trip-blocks now c ok v =
      let b = bounds_of_valid cfg ok in
      elim v.either [
        | inl (z, u) ↦ ground (arith, b, z, u)
        | inr (lo, hi) ↦ ground (arith, b, lo, hi)
      ]

  -- After an infrastructure failure a target is blocked exactly if its circuit was open or the
  -- revisions that failed within the window, this one included, reach the threshold.
  pub circuit_blocked-observe_infrastructure :
      {now : ℕ} {cs : Map Circuit} (ev : Event)
      → is_valid cfg ≡ true
      → Observed now cs
      → ev.target ≢ ""
      → ev.ref ≢ ""
      → is_recovery (circuit_of ev.target cs) ev ≡ false
      → is_failure ev ≡ true
      → let c = record_failure cfg now (revision_of ev) (circuit_of ev.target cs) in
        circuit_blocked (observe_infrastructure reason_text (some cfg) now ev cs) now ev.target
        ≡ (leb cfg.threshold (length c.failures) || ltb 0 c.backoff)
  unfolding observe_infrastructure circuit_blocked
  circuit_blocked-observe_infrastructure {now} {cs} ev ok h t r recovers fails =
      let c = record_failure cfg now (revision_of ev) (circuit_of ev.target cs) in
      let named : (str_eq ev.target "" || str_eq ev.ref "") ≡ false =
        ground (arith, t, r, eq_iff ev.target "", eq_iff ev.ref "") in
      rw (named, recovers, fails, observe_infrastructure)
        (ap (λ x. ltb now x.until)
            (circuit_of-insert ev.target ev.target (trip reason_text cfg now c) cs)
          ∙ ap
              (λ p.
                ltb now (if p then trip reason_text cfg now c else circuit_of ev.target cs).until)
              (str_eq_refl ev.target)
          ∙ trip-blocks now c ok (
              record_failure-Sound cfg now (revision_of ev) (circuit_of ev.target cs)
                (Observed-SoundCircuit {now = now} {cs = cs} ev.target ok h)))
