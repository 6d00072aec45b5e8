-- ===== src/Paperless/TagService/Tests.antt =====
-- A tag that is changed, removed and set again.
use mathlib.Core.List.{Memᴰ}
use versi_go.Prelude.{
  ℕ, codes, Bool, true, false, ◌≡◌, refl, ◌==◌, ◌&&◌, leb, Option, none, some, [], ◌∷◌, any, filter,
  arith, eq_text, drop_while_end,
}
use versi_go.Http.{Result, ok, err}
use versi_go.Paperless.{PolicyPaperlessTag, PaperlessTagJob, PolicyDocument, Store, sync_policy}
use versi_go.Paperless.Client.{found}
use versi_go.Paperless.Links.{find_config, is_current}
use versi_go.Paperless.Reconcile.Manual.{Survives}
use versi_go.Paperless.Jobs.{success}
use versi_go.Paperless.Tick.{process, is_due}
use versi_go.Paperless.Tick.Retries.{job_name}
use versi_go.Paperless.TagService.{set_tag, assign_tag, save_config, assert_policy_write_access}
use versi_go.Paperless.SyncProgress.{sanitize_error_code}
use versi_go.Paperless.TagService.Requests.{remove_tag, unassign_tag}
use versi_go.Paperless.TagService.Answers.{next_sync_at}
use versi_go.Paperless.TagService.Effect.{set_tag-supersedes, set_tag-process}
use versi_go.Paperless.TagService.Saved.{is_active_of}
use versi_go.Paperless.TagService.Removal.{remove_tag-documents, remove_tag-set_tag}
use versi_go.Paperless.TagService.Announce.{is_due-next_sync_at}
use versi_go.Paperless.Samples.{calm, store, job, config}

-- A code keeps its letters, digits and underscores, in capitals.
sanitize_runs : sanitize_error_code (some (codes "api error: 42_x")) ≡ some (codes "APIERROR42_X")
unfolding sanitize_error_code
sanitize_runs = refl

abbrev value_of : Result Store → Store
value_of (ok s) = s
value_of (err e) = store

abbrev table_of : Result (Bool × Store) → Store
table_of (ok (b, s)) = s
table_of (err e) = store

abbrev change : Result Store
change = set_tag calm (found 5 (codes "Auto")) (codes "h") (codes "u") (codes "p") 5 none store

changes : change ≡ ok (value_of change)
unfolding set_tag assert_policy_write_access assign_tag save_config eq_text drop_while_end
changes = refl

set_tag-supersedes_example :
    (new : PaperlessTagJob) × ((filter (is_active_of (codes "p")) (value_of change).jobs ≡ new ∷ [])
      × (new.kind ≡ sync_policy)
      × ((version : ℕ)
          → is_current (codes "p") version (value_of change) ≡ (new.config_version == version)))
set_tag-supersedes_example =
    set_tag-supersedes calm (found 5 (codes "Auto")) (codes "h") (codes "u") (codes "p") 5 none
      store (value_of change) changes

set_tag-process_example :
    process calm (job_name job.kind (codes "j") (codes "p")) (value_of change)
    ≡ (success, value_of change)
unfolding eq_text
set_tag-process_example =
    set_tag-process calm calm (found 5 (codes "Auto")) (codes "h") (codes "u") (codes "p")
      (codes "j") 5 none store (value_of change) job changes refl refl

abbrev removal : Result (Bool × Store)
removal = remove_tag calm (codes "h") (codes "u") (codes "p") store

removes : removal ≡ ok (true, table_of removal)
unfolding remove_tag assert_policy_write_access unassign_tag eq_text
removes = refl

remove_tag-documents_example :
    (any (λ d. eq_text d.policy_id (codes "p") && d.link_origin_tag) (table_of removal).documents
      ≡ false)
    × ((d : PolicyDocument)
        → Memᴰ d store.documents
        → d.link_origin_manual ≡ true
        → d.archived_at ≡ none
        → Survives d (table_of removal).documents)
remove_tag-documents_example =
    remove_tag-documents calm (codes "h") (codes "u") (codes "p") store (table_of removal) removes

abbrev set_again : Result Store
set_again =
    set_tag calm (found 5 (codes "Auto")) (codes "h") (codes "u") (codes "p") 5 none
      (table_of removal)

sets_again : set_again ≡ ok (value_of set_again)
unfolding set_tag assert_policy_write_access assign_tag save_config eq_text drop_while_end
    remove_tag unassign_tag
sets_again = refl

remove_tag-set_tag_example :
    (is_current (codes "p") 1 (value_of set_again) ≡ true)
    × ((c : PolicyPaperlessTag) × ((find_config (codes "p") (value_of set_again) ≡ some c)
          × (c.paperless_tag_id ≡ 5)))
remove_tag-set_tag_example =
    remove_tag-set_tag calm calm (found 5 (codes "Auto")) (codes "h") (codes "u") (codes "p") 5 none
      store (table_of removal) (value_of set_again) removes sets_again

abbrev moment_of : Option ℕ → ℕ
moment_of none = 0
moment_of (some t) = t

announces : next_sync_at calm config ≡ some (moment_of (next_sync_at calm config))
unfolding next_sync_at
announces = refl

is_due-next_sync_at_example :
    is_due (record calm { now = 1_500_000 }) config
    ≡ leb (moment_of (next_sync_at calm config)) 1_500_000
is_due-next_sync_at_example =
    is_due-next_sync_at calm config 0 (moment_of (next_sync_at calm config)) 1_500_000 refl
      announces (omega arith)
