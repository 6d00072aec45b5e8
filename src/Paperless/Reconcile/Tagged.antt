-- ===== src/Paperless/Reconcile/Tagged.antt =====
-- reconcileAssignments: every document of the tag is shown after a finished merge, and no other one
-- carries the automatic origin.
use mathlib.Core.List.{Memᴰ}
use mathlib.Core.List.Memᴰ
use versi_go.Prelude.{
  ℕ, ◌+◌, Text, eq_text_refl, not, ◌||◌, ◌≡◌, refl, sym, ap, subst, ◌∙◌, inl, inr, Option, none,
  some, List, [], ◌∷◌, Bool-cases, arith, get_elem?, any, any_iff, All, All-of, All-at, length,
}
use versi_go.Paperless.{PolicyDocument, Store, update_document}
use versi_go.Paperless.Metadata.{TagDocumentRef, derive_tag_link_metadata, metadata_of, has_keys}
use versi_go.Paperless.World.{World, before_document}
use versi_go.Paperless.Reconcile.{
  merge_document, update_link, create_link, insert_link, merge_documents, and_then,
}
use versi_go.Paperless.Links.{
  ReconcileOutcome, ReconcileCounts, mark_tagged, refresh_link, new_link, aborted, finished, threw,
  conflicts, local_by_ref, is_current, maybe_report_progress,
}
use versi_go.Paperless.Reconcile.Walk.{
  IsQuiet, IsReport, store_after, MergeKeeps, merge_document-keeps, merge_documents-keeps, IsFound,
  get_elem?-IsFound, reported_documents,
}
use versi_go.Paperless.Reconcile.Mirror.{conflicts-ref}
use versi_go.Paperless.Reconcile.Mild.{
  Shown-map, Backed-map, Backed, Shown, documents_of, leaves-tags, mark-IsMild, refresh-IsMild,
  refresh-tags,
}

module _ (w : World) (policy_id : Text) (links : List PolicyDocument)
    (entries : List (Text × TagDocumentRef)) where
  pub Shown-keeps : (ref : Text) → MergeKeeps (Shown policy_id ref) w policy_id links entries
  Shown-keeps ref = record {
    refresh = λ d r remote rows m e n p.
        Shown-map policy_id _
          (refresh-IsMild policy_id
            (derive_tag_link_metadata w.to_date remote (some (metadata_of d))) d)
          ref rows p;
    insert = λ r remote s n (d, m, t, e). (d, Memᴰ.append_left _ m, t, e);
    mark = λ r remote rows n p. Shown-map policy_id _ (mark-IsMild policy_id r) ref rows p;
  }

  pub Backed-keeps :
      MergeKeeps (λ rows. All (Backed policy_id rows) links) w policy_id links entries
  Backed-keeps = record {
    refresh = λ d r remote rows m e n p. All-of _ links λ l k.
        Backed-map policy_id _
          (refresh-IsMild policy_id
            (derive_tag_link_metadata w.to_date remote (some (metadata_of d))) d)
          rows l (All-at _ l links p k);
    insert = λ _ remote s n p. All-of _ links λ l at.
        let (d, m, i, k, r, t) = All-at (Backed policy_id s.documents) l links p at in
        (d, Memᴰ.append_left _ m, i, k, r, t);
    mark = λ r remote rows n p.
        All-of _ links
          λ l k. Backed-map policy_id _ (mark-IsMild policy_id r) rows l (All-at _ l links p k);
  }

  -- One step of the first loop shows its document.
  module _ (ref : Text) (remote : TagDocumentRef) (c c' : ReconcileCounts) (s s' : Store) where
    insert_link-shows :
        (o : Option Text)
        → insert_link o w policy_id ref remote c s ≡ finished c' s'
        → Shown policy_id ref s'.documents
    unfolding insert_link
    insert_link-shows (some message) e = ground arith
    insert_link-shows none e = elim (Bool-cases (any (conflicts policy_id ref) s.documents)) [
      | inr free ↦
          let done = rw free at e in
          subst (Shown policy_id ref) (documents_of done) (
            new_link w policy_id ref remote s,
            Memᴰ.append_right s.documents (Memᴰ.head refl),
            ground (arith, eq_text_refl policy_id),
            refl,
          )
      | inl there ↦
          let done = rw there at e in
          let (d, m, k) = (any_iff (conflicts policy_id ref) s.documents).0 there in
          subst (Shown policy_id ref) (documents_of done) (
            mark_tagged policy_id ref d,
            Memᴰ.map (mark_tagged policy_id ref) m,
            ground arith,
            (mark-IsMild policy_id ref).ref d ∙ conflicts-ref policy_id ref d k,
          )
    ]

    merge_document-shows :
        (o : Option PolicyDocument)
        → IsFound links ref o
        → All (Backed policy_id s.documents) links
        → merge_document w policy_id o ref remote c s ≡ finished c' s'
        → Shown policy_id ref s'.documents
    unfolding merge_document create_link update_link IsFound
    merge_document-shows none u backed e = insert_link-shows (w.insert_error (length s.documents)) e
    merge_document-shows (some d) (m, r) backed e =
        let update = derive_tag_link_metadata w.to_date remote (some (metadata_of d)) in
        let (row, n, i, k, same, t) = All-at (Backed policy_id s.documents) d links backed m in
        elim (Bool-cases (has_keys update || not d.link_origin_tag)) [
          | inl writes ↦
              let done = rw writes at e in
              subst (Shown policy_id ref) (documents_of done) (
                update_document d.id (refresh_link update d) row,
                Memᴰ.map (update_document d.id (refresh_link update d)) n,
                refresh-tags policy_id update d row i k t,
                (refresh-IsMild policy_id update d).ref row ∙ same ∙ r,
              )
          | inr leaves ↦
              let done = rw leaves at e in
              subst (Shown policy_id ref) (documents_of done)
                (row, n, leaves-tags policy_id (has_keys update) d row leaves k t, same ∙ r)
        ]

  pub and_then-finished :
      (o : ReconcileOutcome) (rest : ReconcileCounts → Store → ReconcileOutcome)
      (c : ReconcileCounts) (s : Store)
      → and_then o rest ≡ finished c s
      → (c' : ReconcileCounts) × ((s' : Store) × (o ≡ finished c' s') × (rest c' s' ≡ finished c s))
  and_then-finished (aborted c' s') rest c s e = ground arith
  and_then-finished (threw message s') rest c s e = ground arith
  and_then-finished (finished c' s') rest c s e = (c', (s', refl, e))

  module _ (quiet : IsQuiet w) (on_progress : ℕ → Store → Store) (reports : IsReport on_progress)
      (version : ℕ) where
    -- The first loop, if it finishes, shows every document that it meets.
    pub merge_documents-shows :
        (rest : List (Text × TagDocumentRef)) (n : ℕ) (c c' : ReconcileCounts) (s s' : Store)
        → ((e : Text × TagDocumentRef) → Memᴰ e rest → Memᴰ e entries)
        → All (Backed policy_id s.documents) links
        → merge_documents w policy_id version on_progress (local_by_ref links []) rest n c s
          ≡ finished c' s'
        → (ref : Text) (remote : TagDocumentRef) → Memᴰ (ref, remote) rest
        → Shown policy_id ref s'.documents
    unfolding merge_documents
    merge_documents-shows [] n c c' s s' within backed e ref remote m = elim m [ ]
    merge_documents-shows ((r, doc) ∷ rest) n c c' s s' within backed e ref remote m =
        let fresh = w.others (before_document n) s in
        let reported = maybe_report_progress on_progress (n + 1) fresh in
        let Has : List PolicyDocument → Type 0 = λ rows. All (Backed policy_id rows) links in
        let now_backed : Has reported.documents =
          reported_documents Has w policy_id links {entries = entries} Backed-keeps quiet
            on_progress reports version (n + 1) fresh
            (subst Has (sym (quiet (before_document n) s)) backed) in
        elim (Bool-cases (is_current policy_id version fresh)) [
          | inr stale ↦ absurd (not_finished (rw stale at e))
          | inl current ↦
              let (c1, (s1, first, later)) = and_then-finished _ _ c' s' (rw current at e) in
              let backed1 : Has s1.documents =
                subst (λ o. Has (store_after o).documents) first
                  (merge_document-keeps Has w policy_id links {entries = entries} Backed-keeps
                    (get_elem? r (local_by_ref links [])) r doc c reported
                    (get_elem?-IsFound links r) (within (r, doc) (Memᴰ.head refl)) now_backed) in
              let shown1 : Shown policy_id r s1.documents =
                merge_document-shows r doc c c1 reported s1 (get_elem? r (local_by_ref links []))
                  (get_elem?-IsFound links r) now_backed first in
              let within' : (x : Text × TagDocumentRef) → Memᴰ x rest → Memᴰ x entries =
                λ x k. within x (Memᴰ.tail k) in
              elim m [
                | Memᴰ.head same ↦
                    subst (λ o. Shown policy_id ref (store_after o).documents) later
                      (merge_documents-keeps (Shown policy_id ref) w policy_id links
                        {entries = entries} (Shown-keeps ref) quiet on_progress reports version rest
                        (n + 1) c1 s1 within'
                        (subst (λ x. Shown policy_id x s1.documents) (sym (ap (λ x. x.0) same))
                          shown1))
                | Memᴰ.tail k ↦
                    merge_documents-shows rest (n + 1) c1 c' s1 s' within' backed1 later ref remote
                      k
              ]
        ]
      where
        not_finished : {d : ReconcileCounts} {t : Store} → ¬ (aborted d t ≡ finished c' s')
        not_finished h = ground arith
