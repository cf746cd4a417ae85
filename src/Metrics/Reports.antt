-- ===== src/Metrics/Reports.antt =====
-- What the monitor reports (typescript/contract-metrics/src/monitor.ts).
use optics_monorepo.Prelude.{
  ◌+◌, false, not, ◌≡◌, some, List, [], ◌∷◌, filter, length, Text, text_eq, All, Result, ok, err,
}
use optics_monorepo.Metrics.{DispatchLog, Detail, includes, MetricCollector, Logs}

-- The dispatched messages that were processed.
abbrev pub processed_messages : List DispatchLog → List Text → List DispatchLog
processed_messages logs processed = filter (λ log. includes log.message_hash processed) logs

-- The details of a network's messages: their chain, hashes and indices, and the hashes of their
-- transactions, in order.
abbrev pub Describes : Logs → Text → List Detail → List DispatchLog → Type 0
Describes all network [] [] = Unit {0}
Describes all network [] (log ∷ logs) = ⊥
Describes all network (d ∷ ds) [] = ⊥
Describes all network (d ∷ ds) (log ∷ logs) =
    (d.chain ≡ network)
    × (all.transaction network log ≡ ok d.transaction_hash)
    × (d.message_hash ≡ log.message_hash)
    × (d.leaf_index ≡ log.leaf_index)
    × Describes all network ds logs

-- What the collector holds for a network: as before where something could not be fetched, and else the
-- numbers of the dispatched, the processed and the unprocessed messages. The file lists the details of
-- the dispatched messages that no processed hash is of, and these and the others are all there are.
abbrev pub IsReported :
    Logs
    → Text
    → Result (List DispatchLog × List Text × List Detail)
    → MetricCollector
    → MetricCollector
    → Type 0
IsReported all network (err thrown) before after =
    (after.num_dispatched network ≡ before.num_dispatched network)
    × (after.num_processed network ≡ before.num_processed network)
    × (after.num_unprocessed network ≡ before.num_unprocessed network)
    × (after.unprocessed_files network ≡ before.unprocessed_files network)
IsReported all network (ok (logs, processed, details)) before after =
    (after.num_dispatched network ≡ some (length logs))
    × (after.num_processed network ≡ some (length processed))
    × (after.num_unprocessed network ≡ some (length details))
    × (after.unprocessed_files network ≡ some details)
    × Describes all network details (filter (λ log. not (includes log.message_hash processed)) logs)
    × (length details + length (processed_messages logs processed) ≡ length logs)

module _ (logs : Logs) where
  -- The entries of other networks stay.
  abbrev SameAt : Text → MetricCollector → MetricCollector → Type 0
  SameAt network before after =
      (after.num_dispatched network ≡ before.num_dispatched network)
      × (after.num_processed network ≡ before.num_processed network)
      × (after.num_unprocessed network ≡ before.num_unprocessed network)
      × (after.unprocessed_files network ≡ before.unprocessed_files network)

  abbrev pub DistinctTexts : List Text → Type 0
  DistinctTexts [] = Unit
  DistinctTexts (t ∷ ts) =
      All (λ u. (text_eq t u ≡ false) × (text_eq u t ≡ false)) ts × DistinctTexts ts
