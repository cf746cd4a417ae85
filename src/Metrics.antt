-- ===== src/Metrics.antt =====
-- The monitor of typescript/contract-metrics/src (monitor.ts, metrics.ts, config.ts). Logging, sleeping
-- and the server are left out; the logs of a chain are what `getEvents` fetches, or its error.
pub mod Reports
use optics_monorepo.Prelude.{
  ℕ, ◌^◌, Bool, true, false, not, ◌||◌, Option, some, List, [], ◌∷◌, ◌++◌, filter, length, Text,
  codes, text_eq, Result, ok, err, range_error, guard, ltb, ◌>>=◌, ◌>>◌, if◌then◌else◌,
}

pub record DispatchLog : Type 0 where
  pub message_hash : Text
  pub leaf_index : ℕ

pub record Detail : Type 0 where
  pub chain : Text
  pub transaction_hash : Text
  pub message_hash : Text
  pub leaf_index : ℕ

-- `list.includes(text)`
unfoldable pub includes : Text → List Text → Bool
includes t [] = false
includes t (u ∷ us) = text_eq u t || includes t us

-- The filter of `getUnprocessedDetails`, the processed logs given by their message hashes.
unfoldable pub unprocessed_messages : List DispatchLog → List Text → List DispatchLog
unfolding includes
unprocessed_messages dispatch_logs processed =
    filter (λ log. not (includes log.message_hash processed)) dispatch_logs

-- The gauges by network, for the one environment, and the files by network.
pub record MetricCollector : Type 0 where
  pub num_dispatched : Text → Option ℕ
  pub num_processed : Text → Option ℕ
  pub num_unprocessed : Text → Option ℕ
  pub unprocessed_files : Text → Option (List Detail)

abbrev pub label {ℓ} : {V : Type ℓ} → Text → V → (Text → Option V) → Text → Option V
label network v f other = if text_eq network other then some v else f other

unfoldable pub set_bridge_state : Text → ℕ → ℕ → ℕ → MetricCollector → MetricCollector
set_bridge_state network dispatched processed unprocessed m = record m {
  num_dispatched = label network dispatched m.num_dispatched;
  num_processed = label network processed m.num_processed;
  num_unprocessed = label network unprocessed m.num_unprocessed;
}

unfoldable pub write_unprocessed_messages : List Detail → Text → MetricCollector → MetricCollector
write_unprocessed_messages details origin m = record m {
  unprocessed_files = label origin details m.unprocessed_files;
}

-- `config.networks`
unfoldable pub networks_of : Text → List Text
networks_of environment =
    if text_eq environment (codes "production")
    then codes "celo" ∷ codes "ethereum" ∷ codes "polygon" ∷ codes "avalanche" ∷ []
    else codes "alfajores" ∷ codes "rinkeby" ∷ codes "kovan" ∷ []

-- What the chains have, or the error of fetching it: the Dispatch logs of a network's home, the hashes
-- in the Process logs of the first network's replica on the second one, and the hash of the
-- transaction of a log, where a transaction that is not found (`null`) is an error too.
pub record Logs : Type 0 where
  pub dispatches : Text → Result (List DispatchLog)
  pub processed : Text → Text → Result (List Text)
  pub transaction : Text → DispatchLog → Result Text

-- `config.networks.filter((m) => m != origin)`
abbrev pub remotes_of : List Text → Text → List Text
remotes_of networks origin = filter (λ network. not (text_eq network origin)) networks

module _ (logs : Logs) where
  -- The loop over the remotes.
  unfoldable pub processed_logs : Text → List Text → Result (List Text)
  processed_logs origin [] = ok []
  processed_logs origin (remote ∷ remotes) = do
    here ← logs.processed origin remote
    rest ← processed_logs origin remotes
    ok (here ++ rest)

  -- A detail of one log: `toNumber` throws from 2 ^ 53 on.
  unfoldable pub detail_of : Text → DispatchLog → Result Detail
  detail_of origin log = do
    hash ← logs.transaction origin log
    guard (ltb log.leaf_index (2 ^ 53)) range_error
    ok (record {
      chain = origin;
      transaction_hash = hash;
      message_hash = log.message_hash;
      leaf_index = log.leaf_index;
    })

  -- `Promise.all` over the logs.
  unfoldable pub details_of : Text → List DispatchLog → Result (List Detail)
  unfolding detail_of
  details_of origin [] = ok []
  details_of origin (log ∷ others) = do
    detail ← detail_of origin log
    details ← details_of origin others
    ok (detail ∷ details)

  unfoldable pub get_unprocessed_details :
      Text → List DispatchLog → List Text → Result (List Detail)
  unfolding unprocessed_messages details_of
  get_unprocessed_details origin dispatch_logs processed =
      details_of origin (unprocessed_messages dispatch_logs processed)

  -- What `monitor` fetches before it reports.
  unfoldable pub fetch : Text → List Text → Result (List DispatchLog × List Text × List Detail)
  unfolding processed_logs get_unprocessed_details
  fetch origin remotes = do
    dispatch_logs ← logs.dispatches origin
    processed ← processed_logs origin remotes
    details ← get_unprocessed_details origin dispatch_logs processed
    ok (dispatch_logs, processed, details)

  unfoldable pub report :
      Text → List DispatchLog → List Text → List Detail → MetricCollector → MetricCollector
  unfolding set_bridge_state write_unprocessed_messages
  report origin dispatch_logs processed details m =
      write_unprocessed_messages details origin
        (set_bridge_state origin (length dispatch_logs) (length processed) (length details) m)

  -- `monitor` in the `try` block of `monitorAll`: an error leaves the metrics alone.
  abbrev pub try_report :
      Text → Result (List DispatchLog × List Text × List Detail) → MetricCollector → MetricCollector
  try_report origin (err thrown) m = m
  try_report origin (ok (dispatch_logs, processed, details)) m =
      report origin dispatch_logs processed details m

  unfoldable pub monitor_each : List Text → List Text → MetricCollector → MetricCollector
  unfolding fetch report
  monitor_each networks [] m = m
  monitor_each networks (origin ∷ origins) m =
      monitor_each networks origins
        (try_report origin (fetch origin (remotes_of networks origin)) m)

  unfoldable pub monitor_all : List Text → MetricCollector → MetricCollector
  unfolding monitor_each
  monitor_all networks m = monitor_each networks networks m
