-- ===== src/Paperless/Reconcile/Finishes.antt =====
-- reconcileAssignments where nothing comes in between: the merge runs to its end.
use versi_go.Prelude.{
  ℕ, ◌+◌, ◌%◌, Text, eq_text, true, false, Bool-cases, not, ◌==◌, ◌||◌, ◌≡◌, ap, ◌∙◌, Option, none,
  some, inl, inr, List, [], ◌∷◌, any, find, filter, length, get_elem?,
}
use versi_go.Paperless.{PolicyDocument, PolicyPaperlessTag, Store, write_document}
use versi_go.Paperless.Metadata.{TagDocumentRef, derive_tag_link_metadata, metadata_of, has_keys}
use versi_go.Paperless.World.{World, Moment, before_document, before_removal}
use versi_go.Paperless.Links.{
  ReconcileOutcome, ReconcileCounts, aborted, finished, threw, is_version, is_current, conflicts,
  maybe_report_progress, is_lost, lose_tag, add_removed, is_link, local_by_ref, remote_by_id,
  no_counts,
}
use versi_go.Paperless.Reconcile.{
  update_link, insert_link, create_link, merge_document, and_then, merge_documents, remove_links,
  reconcile_assignments,
}
use versi_go.Paperless.Worker.Rows.{IsFaultless}

-- No other transaction comes in between.
abbrev pub IsUndisturbed : World → Type 0
IsUndisturbed w = (m : Moment) (s : Store) → w.others m s ≡ s

-- A run that finished and left the configurations.
abbrev pub Ends : List PolicyPaperlessTag → ReconcileOutcome → Type 0
Ends tags (finished c s) = s.tags ≡ tags
Ends tags (aborted c s) = true ≡ false
Ends tags (threw message s) = true ≡ false

and_then-Ends :
    (tags : List PolicyPaperlessTag) (o : ReconcileOutcome)
    (rest : ReconcileCounts → Store → ReconcileOutcome)
    → Ends tags o
    → ((c : ReconcileCounts) (s : Store) → s.tags ≡ tags → Ends tags (rest c s))
    → Ends tags (and_then o rest)
and_then-Ends tags (finished c s) rest p k = k c s p
and_then-Ends tags (aborted c s) rest p k = p
and_then-Ends tags (threw message s) rest p k = p

module _ (w : World) (undisturbed : IsUndisturbed w) (faultless : IsFaultless w) (policy_id : Text)
    (tags : List PolicyPaperlessTag) where
  insert_link-Ends :
      (ref : Text) (remote : TagDocumentRef) (c : ReconcileCounts) (s : Store)
      → s.tags ≡ tags
      → Ends tags (insert_link none w policy_id ref remote c s)
  unfolding insert_link
  insert_link-Ends ref remote c s p =
      elim (Bool-cases (any (conflicts policy_id ref) s.documents)) [
        | inl there ↦ rw there p
        | inr free ↦ rw free p
      ]

  merge_document-Ends :
      (o : Option PolicyDocument) (ref : Text) (remote : TagDocumentRef) (c : ReconcileCounts)
      (s : Store)
      → s.tags ≡ tags
      → Ends tags (merge_document w policy_id o ref remote c s)
  unfolding merge_document update_link create_link
  merge_document-Ends none ref remote c s p =
      rw (faultless (length s.documents)) (insert_link-Ends ref remote c s p)
  merge_document-Ends (some d) ref remote c s p =
      let update = derive_tag_link_metadata w.to_date remote (some (metadata_of d)) in
      elim (Bool-cases (has_keys update || not d.link_origin_tag)) [
        | inl writes ↦ rw writes p
        | inr leaves ↦ rw leaves p
      ]

  module _ (version : ℕ)
      (current : is_version version (find (λ c. eq_text c.policy_id policy_id) tags) ≡ true) where
    is_current-here : (s : Store) → s.tags ≡ tags → is_current policy_id version s ≡ true
    is_current-here s p =
        ap (λ ts. is_version version (find (λ c. eq_text c.policy_id policy_id) ts)) p ∙ current

    merge_documents-Ends :
        (on_progress : ℕ → Store → Store)
        (reports : (n : ℕ) (s : Store) → (on_progress n s).tags ≡ s.tags)
        (locals : List (Text × PolicyDocument)) (entries : List (Text × TagDocumentRef)) (n : ℕ)
        (c : ReconcileCounts) (s : Store)
        → s.tags ≡ tags
        → Ends tags (merge_documents w policy_id version on_progress locals entries n c s)
    unfolding merge_documents
    merge_documents-Ends on_progress reports locals [] n c s p = p
    merge_documents-Ends on_progress reports locals ((ref, remote) ∷ entries) n c s p =
        rw (undisturbed (before_document n) s, is_current-here s p)
          (and_then-Ends tags _ _
            (merge_document-Ends (get_elem? ref locals) ref remote c
              (maybe_report_progress on_progress (n + 1) s) reported)
            (λ c' s' q. merge_documents-Ends on_progress reports locals entries (n + 1) c' s' q))
      where
        reported : (maybe_report_progress on_progress (n + 1) s).tags ≡ tags
        reported = elim (Bool-cases ((n + 1) % 10 == 0)) [
          | inl due ↦ rw due (reports (n + 1) s ∙ p)
          | inr early ↦ rw early p
        ]

    remove_links-Ends :
        (entries : List (Text × TagDocumentRef)) (links : List PolicyDocument) (n : ℕ)
        (c : ReconcileCounts) (s : Store)
        → s.tags ≡ tags
        → Ends tags (remove_links w policy_id version entries links n c s)
    unfolding remove_links
    remove_links-Ends entries [] n c s p = p
    remove_links-Ends entries (link ∷ links) n c s p = elim (Bool-cases (is_lost entries link)) [
      | inr stays ↦ rw stays (remove_links-Ends entries links (n + 1) c s p)
      | inl lost ↦
          rw (undisturbed (before_removal n) s, lost, is_current-here s p)
            (remove_links-Ends entries links (n + 1) (add_removed c)
              (write_document link.id (lose_tag w link) s) p)
    ]

    -- An undisturbed merge for the current version finishes.
    pub reconcile_assignments-Ends :
        (remote : List TagDocumentRef) (on_progress : ℕ → Store → Store)
        (reports : (n : ℕ) (s : Store) → (on_progress n s).tags ≡ s.tags) (s : Store)
        → s.tags ≡ tags
        → Ends tags (reconcile_assignments w policy_id version remote on_progress s)
    unfolding reconcile_assignments
    reconcile_assignments-Ends remote on_progress reports s p =
        and_then-Ends tags _ _
          (merge_documents-Ends on_progress reports
            (local_by_ref (filter (is_link policy_id) s.documents) []) (remote_by_id remote []) 0
            no_counts s p)
          (λ c s' q.
            remove_links-Ends (remote_by_id remote []) (filter (is_link policy_id) s.documents) 0 c
              s' q)
