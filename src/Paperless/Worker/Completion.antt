-- ===== src/Paperless/Worker/Completion.antt =====
-- A sync run that nothing comes in between, from the list of the tag's documents to the row of the job.
use mathlib.Core.List.{Memᴰ}
use versi_go.Prelude.{
  ℕ, Text, eq_text, true, Bool-cases, ◌==◌, ◌&&◌, ◌≡◌, refl, sym, ap, ◌∙◌, subst, ◌↔◌, some, inl,
  inr, List, [], ◌∷◌, any, find, filter, length, map, take, arith,
}
use versi_go.Paperless.{
  PolicyDocument, PolicyPaperlessTag, PaperlessTagJob, Store, completed, sync_active, write_job,
  write_config, update_config,
}
use versi_go.Paperless.Metadata.{TagDocumentRef}
use versi_go.Paperless.World.{World, at_backfill}
use versi_go.Paperless.Links.{
  ReconcileOutcome, ReconcileCounts, aborted, finished, threw, find_config, is_version, is_current,
  has_ref,
}
use versi_go.Paperless.Reconcile.{reconcile_assignments}
use versi_go.Paperless.Reconcile.Manual.{IsKeyed}
use versi_go.Paperless.Reconcile.Mirror.{is_tag_link}
use versi_go.Paperless.Reconcile.Named.{names}
use versi_go.Paperless.Reconcile.Exact.{reconcile_assignments-exact}
use versi_go.Paperless.Reconcile.Finishes.{IsUndisturbed, Ends, reconcile_assignments-Ends}
use versi_go.Paperless.Jobs.{answered, success, to_completed, to_synced, write_progress}
use versi_go.Paperless.Worker.{
  needs_tag, schedule_manual_link_backfill, conclude_sync, report_progress, sync_documents,
}
use versi_go.Paperless.Worker.Rows.{
  find_job, IsIdle, IsFaultless, find_job-update, find_job-backfill,
}
use versi_go.Paperless.Worker.Rows as Rows
use versi_go.Paperless.Worker.Advances.{IsBudgeted, IsBudgeted-update}
use versi_go.Paperless.Worker.Backfill.{any-backfill, backfill-tags}

-- The job is COMPLETED, the configuration ACTIVE and synced now, and the references of the shown links
-- that carry the automatic origin are the ids that Paperless listed.
abbrev pub Completed : World → Text → Text → List TagDocumentRef → Store → Type 0
Completed w job_id policy_id remote next =
    (new : PaperlessTagJob) × (config : PolicyPaperlessTag) × (find_job job_id next ≡ some new)
    × (new.status ≡ completed)
    × (find_config policy_id next ≡ some config)
    × (config.sync_status ≡ sync_active)
    × (config.last_synced_at ≡ some w.now)
    × ((ref : Text)
        → (any (λ d. is_tag_link policy_id d && has_ref ref d) next.documents ≡ true)
          ↔ (any (names ref) remote ≡ true))

find-update_config :
    (policy_id : Text) (version : ℕ) (f : PolicyPaperlessTag → PolicyPaperlessTag)
    (keeps : (c : PolicyPaperlessTag) → (f c).policy_id ≡ c.policy_id)
    (tags : List PolicyPaperlessTag) (config : PolicyPaperlessTag)
    → find (λ c. eq_text c.policy_id policy_id) tags ≡ some config
    → (config.config_version == version) ≡ true
    → find (λ c. eq_text c.policy_id policy_id) (map (update_config policy_id version f) tags)
      ≡ some (f config)
find-update_config policy_id version f keeps [] config h v = ground arith
find-update_config policy_id version f keeps (c ∷ tags) config h v =
    elim (Bool-cases (eq_text c.policy_id policy_id)) [
      | inl here ↦ ground (arith, keeps c)
      | inr other ↦ ground (arith, find-update_config policy_id version f keeps tags config)
    ]

module _ (w : World) (undisturbed : IsUndisturbed w) (policy_id : Text)
    (remote : List TagDocumentRef) where
  -- What the backfill leaves.
  schedule-Completed :
      (job_id : Text) (version : ℕ) (s : Store)
      → Completed w job_id policy_id remote s
      → Completed w job_id policy_id remote (schedule_manual_link_backfill w policy_id version s)
  unfolding schedule_manual_link_backfill
  schedule-Completed job_id version s (new, config, j, over, c, active, synced, exact) =
      elim (Bool-cases (is_current policy_id version s)) [
        | inr stale ↦ rw stale (new, config, j, over, c, active, synced, exact)
        | inl current ↦
            let documents = take 200 (filter (needs_tag policy_id) s.documents) in
            rw current (
              new,
              config,
              find_job-backfill w policy_id job_id version documents s new j,
              over,
              ap (find (λ x. eq_text x.policy_id policy_id))
                    (backfill-tags w policy_id version documents s)
                  ∙ c,
              active,
              synced,
              λ ref.
                  subst (λ b. (b ≡ true) ↔ (any (names ref) remote ≡ true))
                    (sym (any-backfill w policy_id ref version documents s)) (exact ref),
            )
      ]

  conclude-Completed :
      (job_id : Text) (version : ℕ) (name : Text) (c : ReconcileCounts) (s : Store)
      (row : PaperlessTagJob) (config : PolicyPaperlessTag)
      → find_job job_id s ≡ some row
      → find_config policy_id s ≡ some config
      → (config.config_version == version) ≡ true
      → ((ref : Text)
          → (any (λ d. is_tag_link policy_id d && has_ref ref d) s.documents ≡ true)
            ↔ (any (names ref) remote ≡ true))
      → (next : Store) × (conclude_sync w job_id policy_id version name (finished c s)
          ≡ answered success next)
        × Completed w job_id policy_id remote next
  unfolding conclude_sync
  conclude-Completed job_id version name c s row config j k v exact =
      let done =
        write_job job_id (λ x. write_progress c (to_completed w x))
          (write_config policy_id version (to_synced w name) s) in
      (
        schedule_manual_link_backfill w policy_id version done,
        rw (undisturbed at_backfill done) refl,
        schedule-Completed job_id version done (
          write_progress c (to_completed w row),
          to_synced w name config,
          find_job-update job_id (λ x. write_progress c (to_completed w x)) s.jobs row (λ x. refl)
              j,
          refl,
          find-update_config policy_id version (to_synced w name) (λ x. refl) s.tags config k v,
          refl,
          refl,
          exact,
        ),
      )

  module _ (faultless : IsFaultless w) (job : PaperlessTagJob) (config : PolicyPaperlessTag) where
    pub sync_documents-Completed :
        (name : Text) (s : Store)
        → IsBudgeted job.id job s.jobs
        → find_config policy_id s ≡ some config
        → (config.config_version == job.config_version) ≡ true
        → IsKeyed s.documents
        → ((d : PolicyDocument) (n : ℕ) → Memᴰ d s.documents → ¬ (d.id ≡ w.uuid n))
        → (next : Store) × (sync_documents w job policy_id name (some remote) s
            ≡ answered success next)
          × Completed w job.id policy_id remote next
    unfolding sync_documents
    sync_documents-Completed name s j k v keyed fresh =
        by_outcome
          (reconcile_assignments w policy_id job.config_version remote (report_progress job.id)
            listed)
          refl
          (reconcile_assignments-Ends w undisturbed faultless policy_id s.tags job.config_version
            (ap (is_version job.config_version) k ∙ v) remote (report_progress job.id) (λ n t. refl)
            listed refl)
          (Rows.reconcile_assignments-Ends ⊥ (IsBudgeted job.id job) w idle no_fault policy_id
            job.config_version (report_progress job.id)
            (λ n t p.
              IsBudgeted-update job.id job (λ x. record x { processed_count = n }) t.jobs
                (λ x. refl) (λ x. refl) (λ x. refl) p)
            remote listed
            (IsBudgeted-update job.id job (λ x. record x { total_count = some (length remote) })
              s.jobs (λ x. refl) (λ x. refl) (λ x. refl) j))
      where
        listed : Store
        listed = write_job job.id (λ x. record x { total_count = some (length remote) }) s

        idle : IsIdle w
        idle m t = ap (λ x. x.jobs) (undisturbed m t)

        no_fault : (n : ℕ) (message : Text) → w.insert_error n ≡ some message → ⊥
        no_fault n message e = ground (arith, faultless n)

        by_outcome :
            (o : ReconcileOutcome)
            → reconcile_assignments w policy_id job.config_version remote
                (report_progress job.id)
                listed
              ≡ o
            → Ends s.tags o
            → Rows.Ends ⊥ (IsBudgeted job.id job) o
            → (next : Store) × (conclude_sync w job.id policy_id job.config_version name o
                ≡ answered success next)
              × Completed w job.id policy_id remote next
        by_outcome (aborted c t) e p b = ground arith
        by_outcome (threw message t) e p b = absurd b.0
        by_outcome (finished c t) e p (row, (there, budget)) =
            conclude-Completed job.id job.config_version name c t row config there
              (ap (find (λ x. eq_text x.policy_id policy_id)) p ∙ k) v
              (reconcile_assignments-exact w (λ m x. ap (λ y. y.documents) (undisturbed m x))
                policy_id job.config_version remote (report_progress job.id) (λ n x. refl) listed
                keyed fresh c t e)
