-- ===== src/Workers/Broker/Upkeep.antt =====
-- workers/status.go and `Close` of workers/broker.go: the writes of the broker beside the protocol of
-- jobs. A job's identity is the table's key. `unix_milli (now - …)` stops at 0, below which no stored
-- time lies.
use gauntlet.Workers.Resources.{Resources, is_empty}
use gauntlet.Workers.Broker.{
  Broker, BrokerError, Row, Peer, pending, cancelled, update_where, delete_where, count_where,
  is_active, is_leased, cancel, notify, unix_milli, unknown_worker,
}
use gauntlet.Workers.Broker.Claim.{find_peer}
use gauntlet.Workers.Broker.Wait.{waiting_for}
use gauntlet.Prelude.{
  ◌+◌, ◌-◌, ◌*◌, ◌==◌, ◌&&◌, ◌||◌, not, ltb, leb, map, contains, str_eq, if◌then◌else◌, ℤ, pos,
  leb_ℤ, Bool, Option, String, ℕ, List, [], ◌∷◌, none, some, true, false,
}

-- `Close`
unfoldable pub close_broker : Broker → Broker
close_broker b = notify (record b { closed = true })

unfoldable pub mark_draining : String → Bool → List Peer → List Peer
mark_draining worker draining =
    map (λ (p : Peer). if str_eq p.id worker then record p { draining = draining } else p)

-- `Drain`
unfoldable pub drain : Broker → String → Bool → Broker × Option BrokerError
drain b worker draining = elim (find_peer worker b.peers) [
  | none ↦ (b, some unknown_worker)
  | some _ ↦ (notify (record b { peers = mark_draining worker draining b.peers }), none)
]

-- The identities of the rows that a loop over the table picks.
unfoldable pub ids_where : (Row → Bool) → List Row → List String
ids_where test [] = []
ids_where test (r ∷ rs) = if test r then r.id ∷ ids_where test rs else ids_where test rs

-- The row was last wanted longer ago than `bound`.
abbrev pub is_older : ℕ → ℕ → Row → Bool
is_older now bound r = ltb (r.wanted * 1000000 + bound) now

abbrev pub is_orphan : Broker → ℕ → ℕ → Row → Bool
is_orphan b now orphan_grace r =
    (waiting_for b r.id == 0) && (is_active r && is_older now orphan_grace r)

abbrev pub is_expired : Broker → ℕ → ℕ → ℕ → Row → Bool
is_expired b now orphan_grace retention r =
    (waiting_for b r.id == 0)
    && (not (is_active r && is_older now orphan_grace r) && is_older now retention r)

-- A peer that `Maintain` leaves: it was seen within the retention, or a job is leased to it.
abbrev pub retains_peer : ℕ → ℕ → List Row → Peer → Bool
retains_peer now retention rows p =
    not (ltb p.seen (unix_milli (now - retention)))
    || not (count_where (λ r. str_eq r.worker p.id && is_leased r.state) rows == 0)

unfoldable pub kept_peers : ℕ → ℕ → List Row → List Peer → List Peer
kept_peers now retention rows [] = []
kept_peers now retention rows (p ∷ ps) =
    let rest = kept_peers now retention rows ps in
    if retains_peer now retention rows p then p ∷ rest else rest

-- `Maintain`: both loops run over what the query read before the first of them writes.
unfoldable pub maintain : Broker → ℕ → ℕ → ℕ → Broker
maintain b now orphan_grace retention =
    let orphans = ids_where (is_orphan b now orphan_grace) b.jobs in
    let expired = ids_where (is_expired b now orphan_grace retention) b.jobs in
    let rows =
      delete_where (λ r. contains expired r.id)
        (update_where (λ r. contains orphans r.id) (λ r. record r { state = cancelled }) b.jobs) in
    let b' = record b { jobs = rows; peers = kept_peers now retention rows b.peers } in
    if ltb now (b.born + b.grace) then b else if is_empty orphans then b' else notify b'

-- `cancelUnwatched`
unfoldable pub cancel_unwatched : Broker → String → Broker
cancel_unwatched b id = if waiting_for b id == 0 then cancel b id else b

-- `KeepRun`
unfoldable pub keep_run : Broker → ℕ → String → String → Broker
keep_run b now run_id sha = notify (record b {
  jobs =
      update_where
        (λ r.
          str_eq r.job.run_id run_id
          && str_eq r.job.merge_sha sha
          && (not (str_eq r.owner_epoch b.epoch) || ltb r.wanted (unix_milli (now - 30000000000))))
        (λ r. record r { wanted = unix_milli now; owner_epoch = b.epoch }) b.jobs;
})

abbrev pub is_zero : ℤ → Bool
is_zero n = leb_ℤ n (pos 0) && leb_ℤ (pos 0) n

abbrev pub is_idle : Resources → Bool
is_idle usage = is_zero usage.slots && is_zero usage.cpu && is_zero usage.memory

abbrev pub leased_by : String → Row → Bool
leased_by worker r = str_eq r.worker worker && is_leased r.state

-- A lease that an offline worker lost.
abbrev pub return_row : Row → Row
return_row r = record r { state = pending; token = ""; worker = ""; session = ""; lease_until = 0 }

-- `drainForRemoval`
unfoldable pub drain_for_removal : Broker → ℕ → String → ℕ → Bool → Broker × Bool
drain_for_removal b now worker before offline = elim (find_peer worker b.peers) [
  | none ↦ (b, true)
  | some p ↦
      let removed = λ (rows : List Row).
        notify (record b { jobs = rows; peers = mark_draining worker true b.peers }) in
      if offline
      then (if leb (unix_milli before) p.seen || ltb now (b.born + b.grace)
          then (b, false)
          else if count_where (λ r. leased_by worker r && leb (unix_milli now) r.lease_until) b.jobs
              == 0
          then (removed (update_where (leased_by worker) return_row b.jobs), true)
          else (b, false))
      else if ltb (p.seen * 1000000 + 2 * b.lease) now || not (is_idle p.advertised.usage)
      then (b, false)
      else if count_where (leased_by worker) b.jobs == 0
      then (removed b.jobs, true)
      else (b, false)
]
