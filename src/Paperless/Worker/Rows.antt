-- ===== src/Paperless/Worker/Rows.antt =====
-- The row of a job through the steps of a handler.
use versi_go.Prelude.{
  ℕ, ◌+◌, ◌%◌, Text, eq_text, eq_text_iff, not, ◌==◌, ◌||◌, ◌≡◌, refl, sym, subst, inl, inr, Option,
  none, some, List, [], ◌∷◌, ◌++◌, map, find, any, Bool-cases, arith, length, get_elem?, filter,
}
use versi_go.Paperless.{
  PaperlessTagJob, PolicyDocument, Store, update_job, write_document, tag_document, tagging_pending,
  new_job,
}
use versi_go.Paperless.Metadata.{TagDocumentRef, derive_tag_link_metadata, metadata_of, has_keys}
use versi_go.Paperless.World.{World, Moment, before_document, before_removal}
use versi_go.Paperless.Reconcile.{
  merge_document, update_link, create_link, insert_link, merge_documents, remove_links,
  reconcile_assignments, and_then,
}
use versi_go.Paperless.Links.{
  ReconcileOutcome, ReconcileCounts, aborted, finished, threw, conflicts, is_lost, lose_tag,
  is_current, maybe_report_progress, no_counts, local_by_ref, remote_by_id, is_link,
}
use versi_go.Paperless.Worker.{backfill, is_tagging, create_job, to_tagging}
use versi_go.Paperless.Jobs.{enqueue_row, message_of}

abbrev pub find_job : Text → Store → Option PaperlessTagJob
find_job job_id s = find (λ j. eq_text j.id job_id) s.jobs

-- The other transactions write no jobs.
abbrev pub IsIdle : World → Type 0
IsIdle w = (m : Moment) (s : Store) → (w.others m s).jobs ≡ s.jobs

-- No insertion meets an error of the database other than P2002.
abbrev pub IsFaultless : World → Type 0
IsFaultless w = (n : ℕ) → w.insert_error n ≡ none

pub find_job-id :
    (job_id : Text) (jobs : List PaperlessTagJob) (job : PaperlessTagJob)
    → find (λ j. eq_text j.id job_id) jobs ≡ some job
    → job.id ≡ job_id
find_job-id job_id [] job e = ground arith
find_job-id job_id (j ∷ jobs) job e = elim (Bool-cases (eq_text j.id job_id)) [
  | inl here ↦ ground (arith, (eq_text_iff j.id job_id).0 here)
  | inr later ↦ find_job-id job_id jobs job (rw later at e)
]

-- A write under the id of a row is seen in the row.
pub find_job-update :
    (job_id : Text) (f : PaperlessTagJob → PaperlessTagJob) (jobs : List PaperlessTagJob)
    (job : PaperlessTagJob)
    → ((j : PaperlessTagJob) → (f j).id ≡ j.id)
    → find (λ j. eq_text j.id job_id) jobs ≡ some job
    → find (λ j. eq_text j.id job_id) (map (update_job job_id f) jobs) ≡ some (f job)
find_job-update job_id f [] job keeps e = ground arith
find_job-update job_id f (j ∷ jobs) job keeps e = elim (Bool-cases (eq_text j.id job_id)) [
  | inl here ↦ ground (arith, keeps j)
  | inr later ↦ ground (arith, find_job-update job_id f jobs job keeps)
]

pub find_job-append :
    (job_id : Text) (jobs more : List PaperlessTagJob) (job : PaperlessTagJob)
    → find (λ j. eq_text j.id job_id) jobs ≡ some job
    → find (λ j. eq_text j.id job_id) (jobs ++ more) ≡ some job
find_job-append job_id [] more job e = ground arith
find_job-append job_id (j ∷ jobs) more job e = ground (arith, find_job-append job_id jobs more job)

-- The backfill only appends jobs.
pub find_job-backfill :
    (w : World) (policy_id job_id : Text) (version : ℕ) (documents : List PolicyDocument)
    (s : Store) (job : PaperlessTagJob)
    → find_job job_id s ≡ some job
    → find_job job_id (backfill w policy_id version documents s) ≡ some job
unfolding backfill
find_job-backfill w policy_id job_id version [] s job e = e
find_job-backfill w policy_id job_id version (d ∷ documents) s job e =
    let job' = new_job (w.uuid (length s.jobs)) policy_id (some d.id) tag_document version in
    let marked = write_document d.id (to_tagging tagging_pending none) s in
    let created = create_job w policy_id (some d.id) tag_document version marked in
    elim (Bool-cases (any (is_tagging policy_id d.id) s.jobs)) [
      | inl busy ↦ rw busy (find_job-backfill w policy_id job_id version documents s job e)
      | inr free ↦ rw free (
          find_job-backfill w policy_id job_id version documents
            (enqueue_row w (message_of job') created) job
            (find_job-append job_id s.jobs (job' ∷ []) job e))
    ]

-- A merge ends with what holds of the jobs, if the report of the progress keeps it, and throws only
-- with what follows from an error at an insertion.
module _ (Q : Type 0) (P : List PaperlessTagJob → Type 0) where
  abbrev pub Ends : ReconcileOutcome → Type 0
  Ends (aborted c s) = P s.jobs
  Ends (finished c s) = P s.jobs
  Ends (threw message s) = Q × P s.jobs

  Ends-and_then :
      (o : ReconcileOutcome) (rest : ReconcileCounts → Store → ReconcileOutcome)
      → Ends o
      → ((c : ReconcileCounts) (s : Store) → P s.jobs → Ends (rest c s))
      → Ends (and_then o rest)
  Ends-and_then (aborted c s) rest p k = p
  Ends-and_then (finished c s) rest p k = k c s p
  Ends-and_then (threw message s) rest p k = p

  module _ (w : World) (idle : IsIdle w)
      (faults : (n : ℕ) (message : Text) → w.insert_error n ≡ some message → Q) (policy_id : Text)
      (version : ℕ) (on_progress : ℕ → Store → Store)
      (reports : (n : ℕ) (s : Store) → P s.jobs → P (on_progress n s).jobs) where
    insert_link-Ends :
        (o : Option Text) (n : ℕ) (ref : Text) (remote : TagDocumentRef) (c : ReconcileCounts)
        (s : Store)
        → w.insert_error n ≡ o
        → P s.jobs
        → Ends (insert_link o w policy_id ref remote c s)
    unfolding insert_link
    insert_link-Ends (some message) n ref remote c s e p = (faults n message e, p)
    insert_link-Ends none n ref remote c s e p =
        elim (Bool-cases (any (conflicts policy_id ref) s.documents)) [
          | inl there ↦ rw there p
          | inr free ↦ rw free p
        ]

    merge_document-Ends :
        (o : Option PolicyDocument) (ref : Text) (remote : TagDocumentRef) (c : ReconcileCounts)
        (s : Store)
        → P s.jobs
        → Ends (merge_document w policy_id o ref remote c s)
    unfolding merge_document update_link create_link
    merge_document-Ends (some d) ref remote c s p =
        let update = derive_tag_link_metadata w.to_date remote (some (metadata_of d)) in
        elim (Bool-cases (has_keys update || not d.link_origin_tag)) [
          | inl writes ↦ rw writes p
          | inr leaves ↦ rw leaves p
        ]
    merge_document-Ends none ref remote c s p =
        insert_link-Ends (w.insert_error (length s.documents)) (length s.documents) ref remote c s
          refl p

    merge_documents-Ends :
        (locals : List (Text × PolicyDocument)) (entries : List (Text × TagDocumentRef)) (n : ℕ)
        (c : ReconcileCounts) (s : Store)
        → P s.jobs
        → Ends (merge_documents w policy_id version on_progress locals entries n c s)
    unfolding merge_documents
    merge_documents-Ends locals [] n c s p = p
    merge_documents-Ends locals ((ref, remote) ∷ entries) n c s p =
        let fresh = w.others (before_document n) s in
        let p_fresh : P fresh.jobs = subst P (sym (idle (before_document n) s)) p in
        let reported = maybe_report_progress on_progress (n + 1) fresh in
        elim (Bool-cases (is_current policy_id version fresh)) [
          | inr stale ↦ rw stale p_fresh
          | inl current ↦ rw current (
              Ends-and_then
                (merge_document w policy_id (get_elem? ref locals) ref remote c reported) _
                (merge_document-Ends (get_elem? ref locals) ref remote c reported
                  (reported_jobs (n + 1) fresh p_fresh))
                (λ c' s' q. merge_documents-Ends locals entries (n + 1) c' s' q))
        ]
      where
        reported_jobs :
            (n : ℕ) (s : Store) → P s.jobs → P (maybe_report_progress on_progress n s).jobs
        reported_jobs n s p = elim (Bool-cases (n % 10 == 0)) [
          | inl due ↦ rw due (reports n s p)
          | inr early ↦ rw early p
        ]

    remove_links-Ends :
        (entries : List (Text × TagDocumentRef)) (links : List PolicyDocument) (n : ℕ)
        (c : ReconcileCounts) (s : Store)
        → P s.jobs
        → Ends (remove_links w policy_id version entries links n c s)
    unfolding remove_links
    remove_links-Ends entries [] n c s p = p
    remove_links-Ends entries (link ∷ links) n c s p =
        let fresh = w.others (before_removal n) s in
        let p_fresh : P fresh.jobs = subst P (sym (idle (before_removal n) s)) p in
        elim (Bool-cases (is_lost entries link)) [
          | inr stays ↦ rw stays (remove_links-Ends entries links (n + 1) c s p)
          | inl lost ↦ elim (Bool-cases (is_current policy_id version fresh)) [
            | inr stale ↦ rw (lost, stale) p_fresh
            | inl current ↦
                rw (lost, current)
                  (remove_links-Ends entries links (n + 1) _
                    (write_document link.id (lose_tag w link) fresh) p_fresh)
          ]
        ]

    pub reconcile_assignments-Ends :
        (remote : List TagDocumentRef) (s : Store)
        → P s.jobs
        → Ends (reconcile_assignments w policy_id version remote on_progress s)
    unfolding reconcile_assignments
    reconcile_assignments-Ends remote s p =
        let entries = remote_by_id remote [] in
        let links = filter (is_link policy_id) s.documents in
        Ends-and_then
          (merge_documents w policy_id version on_progress (local_by_ref links []) entries 0
            no_counts s)
          _ (merge_documents-Ends (local_by_ref links []) entries 0 no_counts s p)
          (λ c s' q. remove_links-Ends entries links 0 c s' q)
