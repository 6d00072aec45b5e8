-- ===== src/Paperless/TagService/Saved.antt =====
-- apps/api/src/features/paperless-ngx/paperless-tag.service.ts: the tables that setTag leaves.
use versi_go.Prelude.{
  ℕ, Text, codes, eq_text, eq_text_refl, Bool, ◌&&◌, ◌≡◌, refl, sym, ap, inl, inr, Option, none,
  some, List, [], ◌∷◌, ◌++◌, map, filter, find, Bool-cases, Option-cases, arith,
}
use versi_go.Http.{Result, ok, err, ◌>>=◌, ◌>>◌}
use versi_go.Paperless.{PolicyPaperlessTag, PaperlessTagJob, Store, is_active}
use versi_go.Paperless.Client.{TagLookupResult, found, lookup_failed}
use versi_go.Paperless.World.{World}
use versi_go.Paperless.Links.{find_config}
use versi_go.Paperless.Jobs.{enqueue_row, message_of}
use versi_go.Paperless.TagService.{
  set_tag, assign_tag, save_config, change_if, supersede, change_config, new_config, is_config_of,
  assigned_job, resolved_name, assert_policy_write_access, name_of_tag,
}

-- A job of the policy that waits or runs.
abbrev pub is_active_of : Text → PaperlessTagJob → Bool
is_active_of policy_id j = eq_text j.policy_id policy_id && is_active j.status

pub supersede-active :
    (w : World) (policy_id code : Text) (jobs : List PaperlessTagJob)
    → filter (is_active_of policy_id) (map (supersede w policy_id code) jobs) ≡ []
supersede-active w policy_id code [] = refl
supersede-active w policy_id code (j ∷ jobs) =
    elim (Bool-cases (eq_text j.policy_id policy_id && is_active j.status)) [
      | inl active ↦ ground (arith, supersede-active w policy_id code jobs)
      | inr other ↦ ground (arith, supersede-active w policy_id code jobs)
    ]

-- The configuration that is found behind a save is the one that was saved.
pub save_config-find :
    (w : World) (policy_id : Text) (tag_id : ℕ) (name : Option Text) (s : Store)
    → find
        (is_config_of policy_id)
        (save_config (find_config policy_id s) w policy_id tag_id name s).1
      ≡ some (save_config (find_config policy_id s) w policy_id tag_id name s).0
unfolding save_config
save_config-find w policy_id tag_id name s = elim (Option-cases (find_config policy_id s)) [
  | inl absent ↦ rw absent (appended s.tags absent)
  | inr (existing, present) ↦ rw present (changed s.tags existing present)
]
  where
    appended :
        (tags : List PolicyPaperlessTag)
        → find (is_config_of policy_id) tags ≡ none
        → find (is_config_of policy_id) (tags ++ (new_config w policy_id tag_id name s ∷ []))
          ≡ some (new_config w policy_id tag_id name s)
    appended [] e = ground (arith, eq_text_refl policy_id)
    appended (c ∷ tags) e = ground (arith, appended tags)

    changed :
        (tags : List PolicyPaperlessTag) (existing : PolicyPaperlessTag)
        → find (is_config_of policy_id) tags ≡ some existing
        → find
            (is_config_of policy_id)
            (map (change_if policy_id (change_config w tag_id name)) tags)
          ≡ some (change_config w tag_id name existing)
    changed [] existing e = ground arith
    changed (c ∷ tags) existing e = elim (Bool-cases (is_config_of policy_id c)) [
      | inl here ↦ ground arith
      | inr later ↦ ground (arith, changed tags existing)
    ]

-- The tables behind a change that succeeded.
pub set_tag-next :
    (w : World) (lookup : TagLookupResult) (household_id user_id policy_id : Text) (tag_id : ℕ)
    (tag_name : Option Text) (s next : Store)
    → set_tag w lookup household_id user_id policy_id tag_id tag_name s ≡ ok next
    → (name : Option Text) × ((next.jobs
          ≡ map (supersede w policy_id (codes "SUPERSEDED")) s.jobs
            ++ (assigned_job (find_config policy_id s) w policy_id tag_id name s ∷ []))
        × (next.tags ≡ (save_config (find_config policy_id s) w policy_id tag_id name s).1))
unfolding set_tag assign_tag
set_tag-next w lookup household_id user_id policy_id tag_id tag_name s next e =
    by_access (assert_policy_write_access household_id user_id policy_id s) lookup e
  where
    by_access :
        (access : Result (Unit {0})) (l : TagLookupResult)
        → (access
            >> (name_of_tag l >>= λ name.
                let existing = find_config policy_id s in
                let resolved = resolved_name name tag_name in
                ok (
                  enqueue_row w
                    (message_of (assigned_job existing w policy_id tag_id resolved s))
                    (assign_tag existing w user_id policy_id tag_id resolved s))))
          ≡ ok next
        → (name : Option Text) × ((next.jobs
              ≡ map (supersede w policy_id (codes "SUPERSEDED")) s.jobs
                ++ (assigned_job (find_config policy_id s) w policy_id tag_id name s ∷ []))
            × (next.tags ≡ (save_config (find_config policy_id s) w policy_id tag_id name s).1))
    by_access (err x) l e = ground arith
    by_access (ok u) (lookup_failed error) e = ground arith
    by_access (ok u) (found id name) e =
        (resolved_name name tag_name, (ap tables_jobs (sym e), ap tables_tags (sym e)))
      where
        tables_jobs : Result Store → List PaperlessTagJob
        tables_jobs (ok t) = t.jobs
        tables_jobs (err x) = []

        tables_tags : Result Store → List PolicyPaperlessTag
        tables_tags (ok t) = t.tags
        tables_tags (err x) = []
