-- ===== src/Paperless/Reconcile/Exact.antt =====
-- reconcileAssignments against the tag's list of documents, as Paperless gave it.
use mathlib.Core.List.{Memᴰ}
use versi_go.Prelude.{
  ℕ, Text, eq_text_refl, Bool, true, false, ◌&&◌, ◌||◌, ◌≡◌, refl, sym, subst, ◌∙◌, inl, inr, ◌↔◌,
  some, List, [], filter, mem-filter, arith, has, any, any_iff, All, All-at, All-of,
}
use versi_go.Paperless.{PolicyDocument, Store}
use versi_go.Paperless.Metadata.{TagDocumentRef}
use versi_go.Paperless.World.{World}
use versi_go.Paperless.Reconcile.{merge_documents, remove_links, reconcile_assignments}
use versi_go.Paperless.Links.{
  ReconcileOutcome, ReconcileCounts, finished, is_link, has_ref, remote_by_id, no_counts,
  local_by_ref,
}
use versi_go.Paperless.Reconcile.Walk.{
  IsQuiet, IsReport, store_after, Left, merge_documents-keeps, remove_links-keeps,
}
use versi_go.Paperless.Reconcile.Manual.{IsKeyed}
use versi_go.Paperless.Reconcile.Mirror.{
  is_tag_link, ref_listed, IsGood, merge-IsGood, remove-IsGood, start-IsGood, eq_some_lem,
}
use versi_go.Paperless.Reconcile.Tagged.{merge_documents-shows, and_then-finished}
use versi_go.Paperless.Reconcile.Mild.{Shown, Backed}
use versi_go.Paperless.Reconcile.Named.{
  Stays, Stays-keeps, Mem-has, has-remote_by_id, names, names-some,
}

module _ (w : World) (quiet : IsQuiet w) (policy_id : Text) (version : ℕ)
    (remote : List TagDocumentRef) (on_progress : ℕ → Store → Store)
    (reports : IsReport on_progress) (s : Store) (keyed : IsKeyed s.documents)
    (fresh : (d : PolicyDocument) (n : ℕ) → Memᴰ d s.documents → ¬ (d.id ≡ w.uuid n)) where
  abbrev entries_of : List (Text × TagDocumentRef)
  entries_of = remote_by_id remote []

  abbrev links_of : List PolicyDocument
  links_of = filter (is_link policy_id) s.documents

  abbrev first_loop : ReconcileOutcome
  first_loop =
      merge_documents w policy_id version on_progress (local_by_ref links_of []) entries_of 0
        no_counts s

  abbrev second_loop : ReconcileCounts → Store → ReconcileOutcome
  second_loop c1 s1 = remove_links w policy_id version entries_of links_of 0 c1 s1

  abbrev Good : List PolicyDocument → List PolicyDocument → Type 0
  Good rest rows = All (IsGood w policy_id entries_of links_of rest) rows

  fresh_links : (l : PolicyDocument) (n : ℕ) → Memᴰ l links_of → ¬ (l.id ≡ w.uuid n)
  fresh_links l n m = fresh l n ((mem-filter (is_link policy_id) l s.documents).0 m).0

  listed : (ref : Text) → has ref entries_of ≡ any (names ref) remote
  unfolding has
  listed ref = has-remote_by_id ref remote [] ∙ or_false (any (names ref) remote)
    where
      or_false : (b : Bool) → (b || false) ≡ b
      or_false b = ground arith

  module _ (c1 c : ReconcileCounts) (s1 s' : Store) (first : first_loop ≡ finished c1 s1)
      (second : second_loop c1 s1 ≡ finished c s') (ref : Text) where
    good1 : Good links_of s1.documents
    good1 =
        subst (λ o. Good links_of (store_after o).documents) first
          (merge_documents-keeps (Good links_of) w policy_id links_of
            (merge-IsGood w policy_id entries_of links_of fresh_links) quiet on_progress reports
            version entries_of 0 no_counts s (λ x m. m)
            (start-IsGood w policy_id entries_of s.documents keyed))

    good' : Good [] s'.documents
    good' = subst (Left Good w policy_id entries_of) second (
        remove_links-keeps Good w policy_id entries_of
          (remove-IsGood w policy_id entries_of links_of) quiet version links_of 0 c1 s1 good1)

    listed_if :
        (d : PolicyDocument)
        → Memᴰ d s'.documents
        → is_tag_link policy_id d ≡ true
        → has_ref ref d ≡ true
        → any (names ref) remote ≡ true
    listed_if d m t h =
        elim ((All-at (IsGood w policy_id entries_of links_of []) d s'.documents good' m).tag t) [
          | inl there ↦
              let found : ref_listed entries_of (some ref) ≡ true =
                subst (λ o. ref_listed entries_of o ≡ true) (eq_some_lem ref d.storage_ref h)
                  there in
              sym (listed ref) ∙ found
          | inr (l, n, same, lost) ↦ elim n [ ]
        ]

    shown1 : any (names ref) remote ≡ true → Shown policy_id ref s1.documents
    shown1 e =
        let (doc, m) = Mem-has ref entries_of (listed ref ∙ e) in
        merge_documents-shows w policy_id links_of entries_of quiet on_progress reports version
          entries_of 0 no_counts c1 s s1 (λ x k. k) backed first ref doc m
      where
        backed : All (Backed policy_id s.documents) links_of
        backed = All-of _ links_of λ l m.
            let (n, k) = (mem-filter (is_link policy_id) l s.documents).0 m in
            (l, n, refl, k, refl, λ h. h)

    shown' : (e : any (names ref) remote ≡ true) → Shown policy_id ref s'.documents
    shown' e =
        let filled = names-some ref remote e in
        let there = listed ref ∙ e in
        let (d, m, t, r) = shown1 e in
        let k =
          (All-at (IsGood w policy_id entries_of links_of links_of) d s1.documents good1 m).ref in
        let (within, (d', m', t', r', k')) : Stays w policy_id entries_of links_of ref filled there
            [] s'.documents =
          subst
            (Left (Stays w policy_id entries_of links_of ref filled there) w policy_id entries_of)
            second
            (remove_links-keeps (Stays w policy_id entries_of links_of ref filled there) w policy_id
              entries_of (Stays-keeps w policy_id entries_of links_of ref filled there) quiet
              version links_of 0 c1 s1 (λ l n. n, (d, m, t, r, k))) in
        (d', m', t', r')

    exact_if :
        (any (λ d. is_tag_link policy_id d && has_ref ref d) s'.documents ≡ true)
        ↔ (any (names ref) remote ≡ true)
    exact_if = (
      λ e.
          let (d, m, k) =
            (any_iff (λ d. is_tag_link policy_id d && has_ref ref d) s'.documents).0 e in
          listed_if d m (ground arith) (ground arith),
      λ e.
          let (d, m, t, r) = shown' e in
          (any_iff (λ d. is_tag_link policy_id d && has_ref ref d) s'.documents).1
            (d, m, both d t r),
    )
      where
        both :
            (d : PolicyDocument)
            → is_tag_link policy_id d ≡ true
            → d.storage_ref ≡ some ref
            → (is_tag_link policy_id d && has_ref ref d) ≡ true
        both d t r = rw (t, r) (eq_text_refl ref)

-- After a merge that finished, the references of the shown links of the policy that carry the
-- automatic origin are the ids of the documents that Paperless listed for the tag, and no others.
-- This holds where no two rows share an id, the ids of new rows are new, and the other transactions,
-- which may change the configuration at any moment, leave the documents alone.
pub reconcile_assignments-exact :
    (w : World) (quiet : IsQuiet w) (policy_id : Text) (version : ℕ) (remote : List TagDocumentRef)
    (on_progress : ℕ → Store → Store) (reports : IsReport on_progress) (s : Store)
    (keyed : IsKeyed s.documents)
    (fresh : (d : PolicyDocument) (n : ℕ) → Memᴰ d s.documents → ¬ (d.id ≡ w.uuid n))
    (c : ReconcileCounts) (s' : Store)
    → reconcile_assignments w policy_id version remote on_progress s ≡ finished c s'
    → (ref : Text)
    → (any (λ d. is_tag_link policy_id d && has_ref ref d) s'.documents ≡ true)
      ↔ (any (names ref) remote ≡ true)
unfolding reconcile_assignments
reconcile_assignments-exact w quiet policy_id version remote on_progress reports s keyed fresh c s'
      e ref =
    let (c1, (s1, first, second)) = and_then-finished w policy_id [] [] _ _ c s' e in
    exact_if w quiet policy_id version remote on_progress reports s keyed fresh c1 c s1 s' first
      second ref
