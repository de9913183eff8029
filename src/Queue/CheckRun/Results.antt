-- ===== src/Queue/CheckRun/Results.antt =====
-- queue/checkrun.go: step (1) of `advanceChecks`, the results of the workers.
use Prim.Native.String.{◌++◌ as str_append}
use gauntlet.Core.Types.{CheckResult, passed, skipped, failed, blocked, waived, is_nil}
use gauntlet.Config.Checks.{Check}
use gauntlet.Queue.Captured.{
  RefResult, valid, bad_ref, valid_image_ref, ReceiptResult, payload, bad_receipt, valid_receipt,
}
use gauntlet.Queue.CheckSpec.{image_node_name, receipt_node_name}
use gauntlet.Prelude.{
  ℕ, String, Option, List, [], ◌∷◌, none, some, not, str_eq, Map, lookup, insert, erase,
  if◌then◌else◌,
}
use gauntlet.Queue.CheckRun.{Flight, finished, Run, Config}

abbrev pub add_line : String → String → String
add_line output line = if str_eq output "" then line else str_append output (str_append "\n" line)

abbrev pub turn_red : String → CheckResult → CheckResult
turn_red line res = record res {
  status = failed;
  output = add_line res.output (str_append "gauntlet: " line);
}

-- A result and what it adds to the run: an image's reference, or a receipt with its producer.
pub record Settled : Type 0 where
  pub res : CheckResult
  pub ref : Option (String × String)
  pub receipt : Option (List ℕ × String)

abbrev pub settle_ref : Config → String → CheckResult → RefResult → Settled
settle_ref cfg image res (valid ref) = record {
  res = record res { image = ref };
  ref = some (image, ref);
  receipt = none;
}
settle_ref cfg image res (bad_ref e) = record {
  res = turn_red (cfg.ref_error e) (record res { image = "" });
  ref = none;
  receipt = none;
}

-- The `switch` for the result of an image build.
unfoldable pub settle_image : Config → String → CheckResult → Settled
settle_image cfg image res = elim res.status [
  | passed ↦ settle_ref cfg image res (valid_image_ref res.image)
  | skipped ↦ record {
    res = turn_red "an image build cannot report skipped" res;
    ref = none;
    receipt = none;
  }
  | failed ↦ record { res = res; ref = none; receipt = none }
  | blocked ↦ record { res = res; ref = none; receipt = none }
  | waived ↦ record { res = res; ref = none; receipt = none }
]

abbrev pub settle_payload : Config → String → CheckResult → ReceiptResult → Settled
settle_payload cfg name res (payload raw) = record {
  res = res;
  ref = none;
  receipt = some (raw, name);
}
settle_payload cfg name res (bad_receipt e) = record {
  res = turn_red (cfg.receipt_error e) res;
  ref = none;
  receipt = none;
}

-- The `switch` for the result of the receipt.
unfoldable pub settle_receipt : Config → String → CheckResult → Settled
settle_receipt cfg name res = elim res.status [
  | passed ↦ settle_payload cfg name res (valid_receipt res.receipt cfg.max_bytes)
  | skipped ↦ record {
    res = turn_red "a receipt cannot report skipped" res;
    ref = none;
    receipt = none;
  }
  | failed ↦ record { res = res; ref = none; receipt = none }
  | blocked ↦ record { res = res; ref = none; receipt = none }
  | waived ↦ record { res = res; ref = none; receipt = none }
]

-- A name has one of the two prefixes at most.
unfoldable pub settle : Config → String → CheckResult → Settled
settle cfg name res =
    let plain : Settled = record { res = res; ref = none; receipt = none } in
    if not (is_nil res.err) then plain else elim (image_node_name name) [
      | some image ↦ settle_image cfg image res
      | none ↦ elim (receipt_node_name name) [
        | none ↦ plain
        | some rcp ↦
            let s = settle_receipt cfg rcp res in record s { res = record s.res { receipt = none } }
      ]
    ]

abbrev pub add_ref : Option (String × String) → Map String → Map String
add_ref none refs = refs
add_ref (some (image, ref)) refs = insert image ref refs

abbrev pub add_payload : Option (List ℕ × String) → Option (List ℕ) → Option (List ℕ)
add_payload none before = before
add_payload (some (raw, name)) before = some raw

abbrev pub add_producer : Option (List ℕ × String) → String → String
add_producer none before = before
add_producer (some (raw, name)) before = name

-- A result that is taken from its channel.
unfoldable pub take_result : Config → String → Flight → CheckResult → Run → Run
take_result cfg name inf res r =
    let s = settle cfg name (record res { waited = inf.waited }) in
    record r {
      image_refs = add_ref s.ref r.image_refs;
      receipt_payload = add_payload s.receipt r.receipt_payload;
      receipt_producer = add_producer s.receipt r.receipt_producer;
      inflight = erase name r.inflight;
      results = insert name s.res r.results;
      events = finished s.res.name s.res ∷ r.events;
    }

-- Step (1), for one check: `sent` are the results in the channels.
unfoldable pub consume_one : Config → Map CheckResult → String → Run → Run
consume_one cfg sent name r = elim (lookup name r.inflight) [
  | none ↦ r
  | some inf ↦ elim (lookup name sent) [ none ↦ r | some res ↦ take_result cfg name inf res r ]
]

unfoldable pub consume : Config → Map CheckResult → List Check → Run → Run
consume cfg sent [] r = r
consume cfg sent (c ∷ cs) r = consume cfg sent cs (consume_one cfg sent c.name r)
