-- ===== src/Queue/CheckRun/Reached.antt =====
-- queue/checkrun.go: the runs that the reconcile loop reaches from a new one, by any ticks and by the
-- bypass of an emergency at any time.
use gauntlet.Queue.CheckRun.{Run, Config}
use gauntlet.Queue.CheckRun.Advance.{Tick, advance_checks}
use gauntlet.Queue.CheckRun.Emergency.{bypass_checks}
use gauntlet.Prelude.{Bool, String, [], false, ◌≡◌, Unrepeated, All, str_eq, map}

-- A run as it is built, for checks with names of their own.
pub record IsNew (r : Run) : Type 0 where
  pub unrepeated : Unrepeated (map (λ c. c.name) r.checks)
  pub named : All (λ c. str_eq c.name "" ≡ false) r.checks
  pub idle : r.inflight ≡ []
  pub empty : r.results ≡ []
  pub unmaterialized : r.materialized ≡ false

pub data Reached (cfg : Config) (receipt_notes : Bool) : Run → Type 0 where
  built : (r : Run) → IsNew r → Reached cfg receipt_notes r
  ticked :
      (r : Run) (t : Tick)
      → Reached cfg receipt_notes r
      → Reached cfg receipt_notes (advance_checks cfg t r)
  bypassed :
      (r : Run) (reason : String)
      → Reached cfg receipt_notes r
      → Reached cfg receipt_notes (bypass_checks receipt_notes reason r)
