-- ===== src/Paperless/Tick/Schedule.antt =====
-- The tick: which policies get a sync job, and how many.
use versi_go.Prelude.{
  count-append, any-append, ℕ, ◌+◌, ◌≤◌, Text, eq_text, eq_text_iff, Bool, true, false, not, ◌||◌,
  ◌&&◌, ◌≡◌, refl, sym, ap, subst, ◌∙◌, inl, inr, none, List, [], ◌∷◌, Bool-cases, arith, filter,
  any, count, count-none, take, if◌then◌else◌, length,
}
use versi_go.Paperless.{PaperlessTagJob, PolicyPaperlessTag, Store, sync_policy, new_job}
use versi_go.Paperless.Client.{or_value}
use versi_go.Paperless.World.{World}
use versi_go.Paperless.Jobs.{store_of, enqueue_row, message_of}
use versi_go.Paperless.Tick.{
  is_due, is_syncing, may_be_due, schedule_due, schedule_policy, enqueue_rows, handle_reconcile,
  is_pending_job,
}

pub enqueue_rows-jobs :
    (w : World) (rows : List PaperlessTagJob) (s : Store)
    → ((enqueue_rows w rows s).jobs ≡ s.jobs)
      × ((enqueue_rows w rows s).tags ≡ s.tags)
      × ((enqueue_rows w rows s).policies ≡ s.policies)
unfolding enqueue_rows
enqueue_rows-jobs w [] s = (refl, refl, refl)
enqueue_rows-jobs w (job ∷ rows) s = enqueue_rows-jobs w rows (enqueue_row w (message_of job) s)

module _ (w : World) (policy_id : Text) where
  -- The new job of a configuration is a sync of its policy.
  new_job-syncing :
      (c : PolicyPaperlessTag) (id : Text)
      → is_syncing policy_id (new_job id c.policy_id none sync_policy c.config_version)
        ≡ eq_text c.policy_id policy_id
  new_job-syncing c id = ground arith

  schedule_due-once :
      (configs : List PolicyPaperlessTag) (s : Store)
      → count (is_syncing policy_id) s.jobs ≤ 1
      → count (is_syncing policy_id) (schedule_due w configs s).jobs ≤ 1
  unfolding schedule_due
  schedule_due-once [] s h = h
  schedule_due-once (c ∷ configs) s h =
      elim (Bool-cases (not (is_due w c) || any (is_syncing c.policy_id) s.jobs)) [
        | inl skipped ↦ rw skipped (schedule_due-once configs s h)
        | inr free ↦ rw free (schedule_due-once configs (schedule_policy w c s) (room free))
      ]
    where
      room :
          (not (is_due w c) || any (is_syncing c.policy_id) s.jobs) ≡ false
          → count (is_syncing policy_id) (schedule_policy w c s).jobs ≤ 1
      room free = elim (Bool-cases (eq_text c.policy_id policy_id)) [
        | inl same ↦
            let none_yet : any (is_syncing policy_id) s.jobs ≡ false =
              subst (λ p. any (is_syncing p) s.jobs ≡ false)
                ((eq_text_iff c.policy_id policy_id).0 same) (ground arith) in
            rw
              (
                count-append (is_syncing policy_id) s.jobs (job ∷ []),
                count-none (is_syncing policy_id) s.jobs none_yet,
              )
              (one_at_most (is_syncing policy_id job))
        | inr differs ↦
            rw
              (
                count-append (is_syncing policy_id) s.jobs (job ∷ []),
                new_job-syncing c (w.uuid (length s.jobs)) ∙ differs,
              )
              (rw (add_zero (count (is_syncing policy_id) s.jobs)) h)
      ]
        where
          job : PaperlessTagJob
          job = new_job (w.uuid (length s.jobs)) c.policy_id none sync_policy c.config_version

          one_at_most : (b : Bool) → 0 + ((if b then 1 else 0) + 0) ≤ 1
          one_at_most b = ground arith

          add_zero : (n : ℕ) → n + (0 + 0) ≡ n
          add_zero n = omega arith

  schedule_due-any :
      (configs : List PolicyPaperlessTag) (s : Store)
      → any (is_syncing policy_id) (schedule_due w configs s).jobs ≡ (
          any (is_syncing policy_id) s.jobs
          || any (λ c. eq_text c.policy_id policy_id && is_due w c) configs)
  unfolding schedule_due
  schedule_due-any [] s = or_false (any (is_syncing policy_id) s.jobs)
    where
      or_false : (b : Bool) → b ≡ (b || false)
      or_false b = ground arith
  schedule_due-any (c ∷ configs) s =
      elim (Bool-cases (not (is_due w c) || any (is_syncing c.policy_id) s.jobs)) [
        | inl skipped ↦ rw skipped (
            schedule_due-any configs s
            ∙ absorbed (any (is_syncing policy_id) s.jobs) (eq_text c.policy_id policy_id)
                (is_due w c) _ (any (is_syncing c.policy_id) s.jobs) skipped same_jobs)
        | inr free ↦ rw free (
            schedule_due-any configs (schedule_policy w c s)
            ∙ ap (λ b. b || any (λ x. eq_text x.policy_id policy_id && is_due w x) configs)
                (any-append (is_syncing policy_id) s.jobs _
                  ∙ ap (λ b. any (is_syncing policy_id) s.jobs || (if b then true else false))
                      (new_job-syncing c (w.uuid (length s.jobs))))
            ∙ added (any (is_syncing policy_id) s.jobs) (eq_text c.policy_id policy_id) (is_due w c)
                _ (any (is_syncing c.policy_id) s.jobs) free)
      ]
    where
      same_jobs :
          eq_text c.policy_id policy_id ≡ true
          → any (is_syncing c.policy_id) s.jobs ≡ any (is_syncing policy_id) s.jobs
      same_jobs e = ap (λ p. any (is_syncing p) s.jobs) ((eq_text_iff c.policy_id policy_id).0 e)

      absorbed :
          (b e d rest x : Bool)
          → (not d || x) ≡ true
          → (e ≡ true → x ≡ b)
          → (b || rest) ≡ (b || (if e && d then true else rest))
      absorbed b e d rest x skipped same = ground arith

      added :
          (b e d rest x : Bool)
          → (not d || x) ≡ false
          → ((b || (if e then true else false)) || rest) ≡ (b || (if e && d then true else rest))
      added b e d rest x free = ground arith

-- What the tick reads of the configurations.
abbrev pub due_configs : World → Store → List PolicyPaperlessTag
due_configs w s = take 500 (filter (may_be_due w s) s.tags)

-- A tick never gives a policy a second sync job beside one that waits or runs.
pub handle_reconcile-once :
    (w : World) (s : Store) (policy_id : Text)
    → count (is_syncing policy_id) s.jobs ≤ 1
    → count (is_syncing policy_id) (store_of (handle_reconcile w s)).jobs ≤ 1
unfolding handle_reconcile
handle_reconcile-once w s policy_id h =
    let rows = take 200 (filter is_pending_job s.jobs) in
    let dispatched = enqueue_rows w rows s in
    let h' : count (is_syncing policy_id) dispatched.jobs ≤ 1 =
      subst (λ jobs. count (is_syncing policy_id) jobs ≤ 1) (sym (enqueue_rows-jobs w rows s).0)
        h in
    elim (Bool-cases (or_value w.sync_enabled true)) [
      | inl on ↦ rw on (schedule_due-once w policy_id (due_configs w dispatched) dispatched h')
      | inr off ↦ rw off h'
    ]

enqueue_rows-due :
    (w : World) (rows : List PaperlessTagJob) (s : Store)
    → due_configs w (enqueue_rows w rows s) ≡ due_configs w s
unfolding enqueue_rows
enqueue_rows-due w [] s = refl
enqueue_rows-due w (job ∷ rows) s = enqueue_rows-due w rows (enqueue_row w (message_of job) s)

-- After a tick a policy has a sync job that waits or runs exactly if it had one before, or the
-- automatic sync is on and a configuration of the policy, among the first 500 that the query finds, is
-- due at the moment that is announced for it.
pub handle_reconcile-due :
    (w : World) (s : Store) (policy_id : Text)
    → any (is_syncing policy_id) (store_of (handle_reconcile w s)).jobs ≡ (
        any (is_syncing policy_id) s.jobs
        || (or_value w.sync_enabled true
            && any (λ c. eq_text c.policy_id policy_id && is_due w c) (due_configs w s)))
unfolding handle_reconcile
handle_reconcile-due w s policy_id =
    let rows = take 200 (filter is_pending_job s.jobs) in
    let dispatched = enqueue_rows w rows s in
    let had : any (is_syncing policy_id) dispatched.jobs ≡ any (is_syncing policy_id) s.jobs =
      ap (any (is_syncing policy_id)) (enqueue_rows-jobs w rows s).0 in
    elim (Bool-cases (or_value w.sync_enabled true)) [
      | inl on ↦ rw on (
          schedule_due-any w policy_id (due_configs w dispatched) dispatched
          ∙ ap (λ b. b || any (due_for policy_id) (due_configs w dispatched)) had
          ∙ ap (λ cs. any (is_syncing policy_id) s.jobs || any (due_for policy_id) cs)
              (enqueue_rows-due w rows s))
      | inr off ↦ rw off (had ∙ or_false (any (is_syncing policy_id) s.jobs))
    ]
  where
    due_for : Text → PolicyPaperlessTag → Bool
    due_for p c = eq_text c.policy_id p && is_due w c

    or_false : (b : Bool) → b ≡ (b || false)
    or_false b = ground arith
