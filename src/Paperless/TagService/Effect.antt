-- ===== src/Paperless/TagService/Effect.antt =====
-- paperless-tag.service.ts: what setting and removing a tag make of the jobs, the configuration and the
-- documents of the policy, and of the worker's runs that follow.
use versi_go.Prelude.{
  filter-append, find-map, ℕ, Text, codes, eq_text, eq_text_iff, true, ◌==◌, ◌≡◌, refl, sym, ap,
  subst, ◌∙◌, Option, some, [], ◌∷◌, ◌++◌, map, filter, find, arith,
}
use versi_go.Http.{ok}
use versi_go.Paperless.{
  PolicyPaperlessTag, PaperlessTagJob, Store, is_active, is_settled, sync_policy, tag_document,
  PaperlessTagJobKind,
}
use versi_go.Paperless.Client.{TagLookupResult}
use versi_go.Paperless.World.{World}
use versi_go.Paperless.Links.{find_config, is_current, is_version}
use versi_go.Paperless.Worker.{guarded, guarded_job, handle_sync_policy}
use versi_go.Paperless.Jobs.{success, Handled, answered}
use versi_go.Paperless.Worker.Rows.{find_job, find_job-append}
use versi_go.Paperless.Tick.{process, handle, handle_tag_document, answer_of}
use versi_go.Paperless.Tick.Retries.{job_name}
use versi_go.Paperless.TagService.{set_tag, supersede, is_config_of, assigned_job}
use versi_go.Paperless.TagService.Saved.{
  is_active_of, save_config-find, set_tag-next, supersede-active,
}

-- After a tag was set or changed, the one job of the policy that waits or runs is the new sync job, and
-- the configuration of the policy is of the version that this job carries; so a run of any other
-- version is not current.
pub set_tag-supersedes :
    (w : World) (lookup : TagLookupResult) (household_id user_id policy_id : Text) (tag_id : ℕ)
    (tag_name : Option Text) (s next : Store)
    → set_tag w lookup household_id user_id policy_id tag_id tag_name s ≡ ok next
    → (job : PaperlessTagJob) × ((filter (is_active_of policy_id) next.jobs ≡ job ∷ [])
        × (job.kind ≡ sync_policy)
        × ((version : ℕ) → is_current policy_id version next ≡ (job.config_version == version)))
set_tag-supersedes w lookup household_id user_id policy_id tag_id tag_name s next e =
    let (name, (jobs, tags)) =
      set_tag-next w lookup household_id user_id policy_id tag_id tag_name s next e in
    let job = assigned_job (find_config policy_id s) w policy_id tag_id name s in
    (
      job,
      (
        ap (filter (is_active_of policy_id)) jobs
            ∙ filter-append (is_active_of policy_id)
                (map (supersede w policy_id (codes "SUPERSEDED")) s.jobs) (job ∷ [])
            ∙ ap (λ xs. xs ++ filter (is_active_of policy_id) (job ∷ []))
                (supersede-active w policy_id (codes "SUPERSEDED") s.jobs)
            ∙ new_active job refl refl,
        refl,
        λ version.
            current version (
              ap (find (is_config_of policy_id)) tags ∙ save_config-find w policy_id tag_id name s),
      ),
    )
  where
    new_active :
        (j : PaperlessTagJob)
        → j.policy_id ≡ policy_id
        → is_active j.status ≡ true
        → filter (is_active_of policy_id) (j ∷ []) ≡ j ∷ []
    new_active j p a = ground (arith, (eq_text_iff j.policy_id policy_id).1 p)

    current :
        {c : PolicyPaperlessTag} (version : ℕ)
        → find_config policy_id next ≡ some c
        → is_current policy_id version next ≡ (c.config_version == version)
    current version e = ap (is_version version) e

supersede-id :
    (w : World) (policy_id code job_id : Text) (j : PaperlessTagJob)
    → eq_text (supersede w policy_id code j).id job_id ≡ eq_text j.id job_id
supersede-id w policy_id code job_id j = ground arith

supersede-settled :
    (w : World) (policy_id code : Text) (j : PaperlessTagJob)
    → is_active_of policy_id j ≡ true
    → is_settled (supersede w policy_id code j).status ≡ true
supersede-settled w policy_id code j a = rw a refl

-- The row of a superseded job.
find_job-superseded :
    (w : World) (lookup : TagLookupResult) (household_id user_id policy_id job_id : Text)
    (tag_id : ℕ) (tag_name : Option Text) (s next : Store) (old : PaperlessTagJob)
    → set_tag w lookup household_id user_id policy_id tag_id tag_name s ≡ ok next
    → find_job job_id s ≡ some old
    → find_job job_id next ≡ some (supersede w policy_id (codes "SUPERSEDED") old)
find_job-superseded w lookup household_id user_id policy_id job_id tag_id tag_name s next old e f =
    let (name, (jobs, tags)) =
      set_tag-next w lookup household_id user_id policy_id tag_id tag_name s next e in
    ap (find (λ j. eq_text j.id job_id)) jobs
    ∙ find_job-append job_id (map (supersede w policy_id (codes "SUPERSEDED")) s.jobs) _ _ (
        find-map (λ j. eq_text j.id job_id) (supersede w policy_id (codes "SUPERSEDED")) s.jobs old
          (supersede-id w policy_id (codes "SUPERSEDED") job_id) f)

guarded-settled :
    (w : World) (job_id policy_id : Text) (s : Store) (new : PaperlessTagJob)
    (work : PaperlessTagJob → PolicyPaperlessTag → Handled)
    → find_job job_id s ≡ some new
    → is_settled new.status ≡ true
    → guarded w job_id policy_id s work ≡ answered success s
unfolding guarded guarded_job
guarded-settled w job_id policy_id s new work e h =
    subst (λ o. guarded_job w job_id policy_id s work o ≡ answered success s) (sym e) (rw h refl)

-- A message of a job that waited or ran when the tag of its policy was set or changed does nothing any
-- more: the worker answers success and leaves every table as it was.
pub set_tag-process :
    (w w' : World) (lookup : TagLookupResult) (household_id user_id policy_id job_id : Text)
    (tag_id : ℕ) (tag_name : Option Text) (s next : Store) (old : PaperlessTagJob)
    → set_tag w lookup household_id user_id policy_id tag_id tag_name s ≡ ok next
    → find_job job_id s ≡ some old
    → is_active_of policy_id old ≡ true
    → process w' (job_name old.kind job_id policy_id) next ≡ (success, next)
unfolding process
set_tag-process w w' lookup household_id user_id policy_id job_id tag_id tag_name s next old e f a =
    ap answer_of (at_kind old.kind)
  where
    row : find_job job_id next ≡ some (supersede w policy_id (codes "SUPERSEDED") old)
    row =
        find_job-superseded w lookup household_id user_id policy_id job_id tag_id tag_name s next
          old e f

    at_kind :
        (k : PaperlessTagJobKind)
        → handle w' (job_name k job_id policy_id) next ≡ answered success next
    at_kind sync_policy =
        unfold handle handle_sync_policy in
        guarded-settled w' job_id policy_id next _ _ row
          (supersede-settled w policy_id (codes "SUPERSEDED") old a)
    at_kind tag_document =
        unfold handle handle_tag_document in
        guarded-settled w' job_id policy_id next _ _ row
          (supersede-settled w policy_id (codes "SUPERSEDED") old a)
