-- ===== src/Paperless/Reconcile/Walk.antt =====
-- Induction over a run of reconcileAssignments: what each write to the documents keeps, the run keeps.
use mathlib.Core.List.{Memᴰ}
use versi_go.Prelude.{
  ◌||◌, ℕ, ◌+◌, ◌%◌, Text, is_empty, true, false, not, ◌==◌, ◌≡◌, refl, sym, ap, subst, ◌∙◌, ◌⊎◌,
  inl, inr, Option, none, some, List, [], ◌∷◌, ◌++◌, map, any, get_elem?, get_elem?-put, Bool-cases,
  Option-cases, arith, length,
}
use versi_go.Paperless.{PolicyDocument, Store, update_document, write_document}
use versi_go.Paperless.Metadata.{TagDocumentRef, derive_tag_link_metadata, metadata_of, has_keys}
use versi_go.Paperless.World.{World, Moment, before_document, before_removal}
use versi_go.Paperless.Reconcile.{
  update_link, insert_link, create_link, and_then, merge_document, merge_documents, remove_links,
}
use versi_go.Paperless.Links.{
  ReconcileCounts, ReconcileOutcome, aborted, finished, threw, is_current, put_link, local_by_ref,
  refresh_link, new_link, conflicts, mark_tagged, maybe_report_progress, is_lost, lose_tag,
}

abbrev pub store_after : ReconcileOutcome → Store
store_after (aborted c s) = s
store_after (finished c s) = s
store_after (threw message s) = s

-- The other transactions, and the report of the progress, leave the documents alone.
abbrev pub IsQuiet : World → Type 0
IsQuiet w = (m : Moment) (s : Store) → (w.others m s).documents ≡ s.documents

abbrev pub IsReport : (ℕ → Store → Store) → Type 0
IsReport on_progress = (n : ℕ) (s : Store) → (on_progress n s).documents ≡ s.documents

get_elem?-put_link :
    (o : Option Text) (link : PolicyDocument) (entries : List (Text × PolicyDocument)) (ref : Text)
    (d : PolicyDocument)
    → get_elem? ref (put_link o link entries) ≡ some d
    → ((d ≡ link) × (o ≡ some ref)) ⊎ (get_elem? ref entries ≡ some d)
unfolding put_link
get_elem?-put_link none link entries ref d e = inr e
get_elem?-put_link (some r) link entries ref d e = elim (Bool-cases (is_empty r)) [
  | inl blank ↦ inr (rw blank at e)
  | inr filled ↦ elim (get_elem?-put r ref link d entries (rw filled at e)) [
    | inl (same, key) ↦ inl (same, ap some (sym key))
    | inr before ↦ inr before
  ]
]

-- A link of the map stands in the list that the map was made of.
pub get_elem?-local_by_ref :
    (links : List PolicyDocument) (entries : List (Text × PolicyDocument)) (ref : Text)
    (d : PolicyDocument)
    → get_elem? ref (local_by_ref links entries) ≡ some d
    → (Memᴰ d links × (d.storage_ref ≡ some ref)) ⊎ (get_elem? ref entries ≡ some d)
unfolding local_by_ref
get_elem?-local_by_ref [] entries ref d e = inr e
get_elem?-local_by_ref (link ∷ links) entries ref d e =
    elim (get_elem?-local_by_ref links _ ref d e) [
      | inl (m, same) ↦ inl (Memᴰ.tail m, same)
      | inr there ↦ elim (get_elem?-put_link link.storage_ref link entries ref d there) [
        | inl (same, set) ↦ inl (Memᴰ.head same, ap (λ x. x.storage_ref) same ∙ set)
        | inr before ↦ inr before
      ]
    ]

-- What stands in the list of links, for a result of the map.
unfoldable pub IsFound : List PolicyDocument → Text → Option PolicyDocument → Type 0
IsFound links ref none = Unit {0}
IsFound links ref (some d) = Memᴰ d links × (d.storage_ref ≡ some ref)

pub get_elem?-IsFound :
    (links : List PolicyDocument) (ref : Text)
    → IsFound links ref (get_elem? ref (local_by_ref links []))
unfolding IsFound get_elem?
get_elem?-IsFound links ref = elim (Option-cases (get_elem? ref (local_by_ref links []))) [
  | inl absent ↦ subst (IsFound links ref) (sym absent) tt
  | inr (d, present) ↦ elim (get_elem?-local_by_ref links [] ref d present) [
    | inl found ↦ subst (IsFound links ref) (sym present) found
    | inr nowhere ↦ ground arith
  ]
]

module _ {ℓ} (P : List PolicyDocument → Type ℓ) (w : World) (policy_id : Text)
    (links : List PolicyDocument) where
  -- What the writes of the first loop keep.
  pub record MergeKeeps (entries : List (Text × TagDocumentRef)) : Type ℓ where
    pub refresh :
        (d : PolicyDocument) (ref : Text) (remote : TagDocumentRef) (all : List PolicyDocument)
        → Memᴰ d links
        → d.storage_ref ≡ some ref
        → Memᴰ (ref, remote) entries
        → P all
        → P (
            map
              (update_document d.id
                (refresh_link (derive_tag_link_metadata w.to_date remote (some (metadata_of d))) d))
              all)
    pub insert :
        (ref : Text) (remote : TagDocumentRef) (s : Store)
        → Memᴰ (ref, remote) entries
        → P s.documents
        → P (s.documents ++ (new_link w policy_id ref remote s ∷ []))
    pub mark :
        (ref : Text) (remote : TagDocumentRef) (all : List PolicyDocument)
        → Memᴰ (ref, remote) entries
        → P all
        → P (map (mark_tagged policy_id ref) all)

  abbrev pub Kept : ReconcileOutcome → Type ℓ
  Kept o = P (store_after o).documents

  pub Kept-and_then :
      (o : ReconcileOutcome) (rest : ReconcileCounts → Store → ReconcileOutcome)
      → Kept o
      → ((c : ReconcileCounts) (s : Store) → P s.documents → Kept (rest c s))
      → Kept (and_then o rest)
  Kept-and_then (aborted c s) rest p k = p
  Kept-and_then (threw message s) rest p k = p
  Kept-and_then (finished c s) rest p k = k c s p

  module _ {entries : List (Text × TagDocumentRef)} (keeps : MergeKeeps entries) where
    insert_link-keeps :
        (o : Option Text) (ref : Text) (remote : TagDocumentRef) (c : ReconcileCounts) (s : Store)
        → Memᴰ (ref, remote) entries
        → P s.documents
        → Kept (insert_link o w policy_id ref remote c s)
    unfolding insert_link
    insert_link-keeps (some message) ref remote c s m p = p
    insert_link-keeps none ref remote c s m p =
        elim (Bool-cases (any (conflicts policy_id ref) s.documents)) [
          | inl there ↦ rw there (keeps.mark ref remote s.documents m p)
          | inr free ↦ rw free (keeps.insert ref remote s m p)
        ]

    pub merge_document-keeps :
        (o : Option PolicyDocument) (ref : Text) (remote : TagDocumentRef) (c : ReconcileCounts)
        (s : Store)
        → IsFound links ref o
        → Memᴰ (ref, remote) entries
        → P s.documents
        → Kept (merge_document w policy_id o ref remote c s)
    unfolding merge_document update_link create_link IsFound
    merge_document-keeps (some d) ref remote c s (n, e) m p =
        let update = derive_tag_link_metadata w.to_date remote (some (metadata_of d)) in
        elim (Bool-cases (has_keys update || not d.link_origin_tag)) [
          | inl writes ↦ rw writes (keeps.refresh d ref remote s.documents n e m p)
          | inr leaves ↦ rw leaves p
        ]
    merge_document-keeps none ref remote c s u m p =
        insert_link-keeps (w.insert_error (length s.documents)) ref remote c s m p

    module _ (quiet : IsQuiet w) (on_progress : ℕ → Store → Store) (reports : IsReport on_progress)
        (version : ℕ) where
      pub reported_documents :
          (n : ℕ) (s : Store) → P s.documents → P (maybe_report_progress on_progress n s).documents
      reported_documents n s p = elim (Bool-cases (n % 10 == 0)) [
        | inl due ↦ rw due (subst P (sym (reports n s)) p)
        | inr early ↦ rw early p
      ]

      pub merge_documents-keeps :
          (rest : List (Text × TagDocumentRef)) (n : ℕ) (c : ReconcileCounts) (s : Store)
          → ((e : Text × TagDocumentRef) → Memᴰ e rest → Memᴰ e entries)
          → P s.documents
          → Kept
              (merge_documents w policy_id version on_progress (local_by_ref links []) rest n c s)
      unfolding merge_documents
      merge_documents-keeps [] n c s within p = p
      merge_documents-keeps ((ref, remote) ∷ rest) n c s within p =
          let fresh = w.others (before_document n) s in
          let p_fresh : P fresh.documents = subst P (sym (quiet (before_document n) s)) p in
          let reported = maybe_report_progress on_progress (n + 1) fresh in
          elim (Bool-cases (is_current policy_id version fresh)) [
            | inr stale ↦ rw stale p_fresh
            | inl current ↦ rw current (
                Kept-and_then
                  (merge_document w policy_id (get_elem? ref (local_by_ref links [])) ref remote c
                    reported)
                  _
                  (merge_document-keeps _ ref remote c reported (get_elem?-IsFound links ref)
                    (within (ref, remote) (Memᴰ.head refl))
                    (reported_documents (n + 1) fresh p_fresh))
                  (λ c' s' q.
                    merge_documents-keeps rest (n + 1) c' s' (λ e m. within e (Memᴰ.tail m)) q))
          ]

-- The second loop: what holds of the links that are left and of the documents.
module _ {ℓ} (P : List PolicyDocument → List PolicyDocument → Type ℓ) (w : World) (policy_id : Text)
    (entries : List (Text × TagDocumentRef)) where
  pub record RemoveKeeps : Type ℓ where
    pub keep :
        (link : PolicyDocument) (links all : List PolicyDocument)
        → is_lost entries link ≡ false
        → P (link ∷ links) all
        → P links all
    pub lose :
        (link : PolicyDocument) (links all : List PolicyDocument)
        → is_lost entries link ≡ true
        → P (link ∷ links) all
        → P links (map (update_document link.id (lose_tag w link)) all)

  -- No link is left where the run finished.
  abbrev pub Left : ReconcileOutcome → Type ℓ
  Left (finished c s) = P [] s.documents
  Left (aborted c s) = (links : List PolicyDocument) × P links s.documents
  Left (threw message s) = (links : List PolicyDocument) × P links s.documents

  pub remove_links-keeps :
      (keeps : RemoveKeeps) (quiet : IsQuiet w) (version : ℕ) (links : List PolicyDocument) (n : ℕ)
      (c : ReconcileCounts) (s : Store)
      → P links s.documents
      → Left (remove_links w policy_id version entries links n c s)
  unfolding remove_links
  remove_links-keeps keeps quiet version [] n c s p = p
  remove_links-keeps keeps quiet version (link ∷ links) n c s p =
      let fresh = w.others (before_removal n) s in
      let p_fresh : P (link ∷ links) fresh.documents =
        subst (P (link ∷ links)) (sym (quiet (before_removal n) s)) p in
      elim (Bool-cases (is_lost entries link)) [
        | inr stays ↦ rw stays (
            remove_links-keeps keeps quiet version links (n + 1) c s
              (keeps.keep link links _ stays p))
        | inl lost ↦ elim (Bool-cases (is_current policy_id version fresh)) [
          | inr stale ↦ rw (lost, stale) (link ∷ links, p_fresh)
          | inl current ↦
              rw (lost, current)
                (remove_links-keeps keeps quiet version links (n + 1) _
                  (write_document link.id (lose_tag w link) fresh)
                  (keeps.lose link links _ lost p_fresh))
        ]
      ]
