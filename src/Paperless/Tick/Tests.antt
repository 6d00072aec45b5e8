-- ===== src/Paperless/Tick/Tests.antt =====
-- A job whose server cannot be reached, a run that ends with an exception, and a tick.
use versi_go.Prelude.{
  codes, Bool, true, false, ◌≡◌, refl, ◌||◌, ◌&&◌, ◌≤◌, Option, none, some, List, [], ◌∷◌, any, All,
  count, filter, arith, has, put, get_elem?, eq_text, trim, drop_while, drop_while_end, is_space,
}
use versi_go.Paperless.{PaperlessTagJob, sync_policy, Store, is_active}
use versi_go.Paperless.Client.{
  list_documents_by_tag, walk_pages, on_page, fetch_page, unseen, request, get_tag, or_value,
}
use versi_go.Paperless.Metadata.{
  derive_tag_link_metadata, derive_name, derive_date, derive_mime, parse_paperless_date,
  map_tag_document,
}
use versi_go.Paperless.World.{World}
use versi_go.Prelude.{to_string, digits}
use versi_go.Paperless.Reconcile.{
  reconcile_assignments, merge_documents, remove_links, merge_document, update_link, create_link,
  insert_link,
}
use versi_go.Paperless.Links.{remote_by_id, local_by_ref, put_link}
use versi_go.Paperless.Worker.{
  handle_sync_policy, guarded, guarded_job, guarded_config, sync_tag, sync_documents, conclude_sync,
}
use versi_go.Paperless.Jobs.{Handled, answered, escaped, failure, store_of, retry_or_fail, skip_job}
use versi_go.Paperless.Worker.Rows.{find_job}
use versi_go.Paperless.Tick.{process, handle, handle_reconcile, sync_policy_job, is_syncing, is_due}
use versi_go.Paperless.Tick.Retries.{dispatches, IsCalm, dispatches-ends}
use versi_go.Paperless.Tick.Schedule.{due_configs, handle_reconcile-once, handle_reconcile-due}
use versi_go.Paperless.Tick.Escape.{IsRunning}
use versi_go.Paperless.Tick.Stuck.{is_sync_of, ticks, escape-ticks}
use versi_go.Paperless.Worker.Completion.{Completed}
use versi_go.Paperless.Tick.Completion.{process-Completed}
use versi_go.Paperless.Jobs.{success}
use versi_go.Paperless.Samples.{calm, offline, broken, store, job, config, remote}
use versi_go.Paperless.Samples.Facts.{store_IsKeyed, store_fresh}

abbrev outages : List World
outages = offline ∷ offline ∷ offline ∷ offline ∷ []

status_of : Option PaperlessTagJob → Bool
status_of none = true
status_of (some j) = is_active j.status

-- The fourth dispatch ends the job, and the third does not.
outage_runs :
    (status_of (find_job (codes "j") (dispatches outages sync_policy (codes "j") (codes "p") store))
      ≡ false)
    × (status_of (
          find_job (codes "j") (
            dispatches
              (offline ∷ offline ∷ offline ∷ [])
              sync_policy
              (codes "j")
              (codes "p")
              store))
        ≡ true)
unfolding status_of dispatches process handle handle_sync_policy guarded guarded_job guarded_config
    sync_tag retry_or_fail skip_job get_tag request eq_text drop_while_end
outage_runs = (refl, refl)

offline-IsCalm : IsCalm offline
offline-IsCalm = (λ m s. refl, λ n. refl)

outages-IsCalm : All IsCalm outages
outages-IsCalm = (offline-IsCalm, (offline-IsCalm, (offline-IsCalm, (offline-IsCalm, tt))))

dispatches-ends_example :
    (last : PaperlessTagJob) × ((find_job
          (codes "j")
          (dispatches outages sync_policy (codes "j") (codes "p") store)
        ≡ some last)
      × (is_active last.status ≡ false))
unfolding eq_text
dispatches-ends_example =
    dispatches-ends outages sync_policy (codes "j") (codes "p") store job outages-IsCalm refl refl
      (omega arith) (omega arith)

abbrev thrown_store : Handled → Store
thrown_store (answered a s) = s
thrown_store (escaped m s) = s

abbrev failing : Handled
failing = handle_sync_policy broken (codes "j") (codes "p") store

escapes : failing ≡ escaped (codes "timeout") (thrown_store failing)
unfolding handle_sync_policy guarded guarded_job guarded_config sync_tag sync_documents
    conclude_sync get_tag request eq_text drop_while_end list_documents_by_tag walk_pages on_page
    fetch_page unseen map_tag_document reconcile_assignments merge_documents remove_links
    merge_document update_link create_link insert_link remote_by_id local_by_ref put_link has put
    get_elem? to_string digits derive_tag_link_metadata derive_name derive_date derive_mime
    parse_paperless_date trim drop_while is_space
escapes = refl

escape-ticks_example :
    (process broken (sync_policy_job (codes "j") (codes "p")) store
      ≡ (failure (codes "timeout"), thrown_store failing))
    × (filter (is_sync_of (codes "p")) (ticks (calm ∷ calm ∷ []) (thrown_store failing)).jobs
        ≡ filter (is_sync_of (codes "p")) (thrown_store failing).jobs)
    × IsRunning (codes "j") (codes "p") (ticks (calm ∷ calm ∷ []) (thrown_store failing)).jobs
unfolding eq_text
escape-ticks_example =
    escape-ticks broken (λ m s. refl) (codes "j") (codes "p") (codes "timeout") store
      (thrown_store failing) job (calm ∷ calm ∷ []) refl refl refl escapes

abbrev no_jobs : Store
no_jobs = record store { jobs = [] }

handle_reconcile-once_example :
    count (is_syncing (codes "p")) (store_of (handle_reconcile calm store)).jobs ≤ 1
unfolding eq_text
handle_reconcile-once_example = handle_reconcile-once calm store (codes "p") (omega arith)

handle_reconcile-due_example :
    any (is_syncing (codes "p")) (store_of (handle_reconcile calm no_jobs)).jobs ≡ (
      any (is_syncing (codes "p")) no_jobs.jobs
      || (or_value calm.sync_enabled true
          && any
              (λ c. eq_text c.policy_id (codes "p") && is_due calm c)
              (due_configs calm no_jobs)))
handle_reconcile-due_example = handle_reconcile-due calm no_jobs (codes "p")

process-Completed_example :
    (next : Store) × (process calm (sync_policy_job (codes "j") (codes "p")) store
      ≡ (success, next))
    × Completed calm (codes "j") (codes "p") remote next
unfolding eq_text get_tag request drop_while_end list_documents_by_tag walk_pages on_page fetch_page
    unseen map_tag_document has to_string digits
process-Completed_example =
    process-Completed calm (λ m s. refl) (codes "p") remote (λ n. refl) (codes "j") store job config
      4 (codes "Kfz") (refl, refl, refl, refl, refl, refl) refl refl store_IsKeyed store_fresh
