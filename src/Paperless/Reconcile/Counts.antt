-- ===== src/Paperless/Reconcile/Counts.antt =====
-- The counts of a merge, which the sync writes into the row of its job.
use versi_go.Prelude.{ℕ, ◌+◌, ◌≤◌, ◌≡◌, List, [], length}
use versi_go.Paperless.Metadata.{TagDocumentRef}
use versi_go.Paperless.World.{World}
use versi_go.Paperless.Links.{
  ReconcileCounts, ReconcileOutcome, aborted, finished, threw, remote_by_id,
}

-- toProgressFields: `processedCount`
abbrev pub processed : ReconcileCounts → ℕ
processed c = c.added + c.unchanged + c.updated

-- The processed documents are `n` when the run goes on, and at most that many when it was aborted; the
-- removed links are at most `m`.
abbrev Counted : ℕ → ℕ → ReconcileOutcome → Type 0
Counted n m (aborted c s) = (processed c ≤ n) × (c.removed ≤ m)
Counted n m (finished c s) = (processed c ≡ n) × (c.removed ≤ m)
Counted n m (threw message s) = Unit {0}

-- What the counts say of a merge of a list, beside the links of the policy.
abbrev pub AreBounded : List TagDocumentRef → ℕ → ReconcileOutcome → Type 0
AreBounded remote links (aborted c s) = (processed c ≤ length remote) × (c.removed ≤ links)
AreBounded remote links (finished c s) =
    (processed c ≡ length (remote_by_id remote []))
    × (processed c ≤ length remote)
    × (c.removed ≤ links)
AreBounded remote links (threw message s) = Unit {0}
