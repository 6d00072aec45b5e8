-- ===== src/Paperless/Reconcile/Manual.antt =====
-- reconcileAssignments and the links that a user made.
use mathlib.Core.List.{Memᴰ}
use mathlib.Core.List.Memᴰ
use versi_go.Prelude.{
  ℕ, Text, eq_text, eq_text_iff, true, ◌≡◌, refl, sym, ap, subst, ◌∙◌, inl, inr, none, some, List,
  [], map, filter, mem-filter, Bool-cases, arith,
}
use versi_go.Paperless.{PolicyDocument, Store, update_document}
use versi_go.Paperless.Metadata.{TagDocumentRef, derive_tag_link_metadata, metadata_of}
use versi_go.Paperless.Metadata.Laws.{KeepsValues, derive-keeps}
use versi_go.Paperless.World.{World}
use versi_go.Paperless.Reconcile.{reconcile_assignments, merge_documents, remove_links}
use versi_go.Paperless.Links.{
  ReconcileOutcome, is_link, mark_tagged, refresh_link, lose_tag, remote_by_id, no_counts, aborted,
  finished, threw, local_by_ref,
}
use versi_go.Paperless.Reconcile.Walk.{
  IsQuiet, IsReport, store_after, MergeKeeps, RemoveKeeps, merge_documents-keeps,
  remove_links-keeps, Left, Kept-and_then,
}

-- The row of a user's link, and what is left of it.
pub record IsSafe (old new : PolicyDocument) : Type 0 where
  pub same_id : new.id ≡ old.id
  pub same_policy : new.policy_id ≡ old.policy_id
  pub same_ref : new.storage_ref ≡ old.storage_ref
  pub visible : new.archived_at ≡ none
  pub manual : new.link_origin_manual ≡ true
  pub values : KeepsValues old new

-- Rows with one id are one row.
abbrev pub IsKeyed : List PolicyDocument → Type 0
IsKeyed all = (a b : PolicyDocument) → Memᴰ a all → Memᴰ b all → a.id ≡ b.id → a ≡ b

abbrev pub Survives : PolicyDocument → List PolicyDocument → Type 0
Survives old all = (new : PolicyDocument) × Memᴰ new all × IsSafe old new

-- A write to every row survives if it is safe for the row.
Survives-map :
    (f : PolicyDocument → PolicyDocument) (old : PolicyDocument) (all : List PolicyDocument)
    → ((new : PolicyDocument) → IsSafe old new → IsSafe old (f new))
    → Survives old all
    → Survives old (map f all)
Survives-map f old all step (new, m, safe) = (f new, Memᴰ.map f m, step new safe)

mark_tagged-IsSafe :
    (policy_id ref : Text) (old new : PolicyDocument)
    → IsSafe old new
    → IsSafe old (mark_tagged policy_id ref new)
mark_tagged-IsSafe policy_id ref old new safe = ground arith

module _ (w : World) (policy_id : Text) (old : PolicyDocument) (all : List PolicyDocument)
    (keyed : IsKeyed all) (there : Memᴰ old all) (by_hand : old.link_origin_manual ≡ true) where
  links : List PolicyDocument
  links = filter (is_link policy_id) all

  -- A link with the id of the user's link is that link.
  same_link : (d : PolicyDocument) → Memᴰ d links → d.id ≡ old.id → d ≡ old
  unfolding links
  same_link d m e = keyed d old ((mem-filter (is_link policy_id) d all).0 m).0 there e

  refresh-IsSafe :
      (d : PolicyDocument) (remote : TagDocumentRef) (new : PolicyDocument)
      → Memᴰ d links
      → IsSafe old new
      → IsSafe old (
          update_document d.id
            (refresh_link (derive_tag_link_metadata w.to_date remote (some (metadata_of d))) d)
            new)
  refresh-IsSafe d remote new m safe = elim (Bool-cases (eq_text new.id d.id)) [
    | inr differs ↦ rw differs safe
    | inl same ↦
        let is_old = same_link d m (sym ((eq_text_iff _ _).0 same) ∙ safe.same_id) in
        rw same (
          subst
            (λ e. IsSafe old (
              refresh_link (derive_tag_link_metadata w.to_date remote (some (metadata_of e))) e
                new))
            (sym is_old) (refreshed remote new safe))
  ]
    where
      refreshed :
          (remote : TagDocumentRef) (new : PolicyDocument)
          → IsSafe old new
          → IsSafe old (
              refresh_link
                (derive_tag_link_metadata w.to_date remote (some (metadata_of old)))
                old
                new)
      refreshed remote new safe =
          let kept = derive-keeps w.to_date remote old new by_hand safe.values in
          record {
            same_id = safe.same_id;
            same_policy = safe.same_policy;
            same_ref = safe.same_ref;
            visible = safe.visible;
            manual = safe.manual;
            values = record { name = kept.name; date = kept.date; mime = kept.mime };
          }

  lose-IsSafe :
      (link new : PolicyDocument)
      → Memᴰ link links
      → IsSafe old new
      → IsSafe old (update_document link.id (lose_tag w link) new)
  lose-IsSafe link new m safe = elim (Bool-cases (eq_text new.id link.id)) [
    | inr differs ↦ rw differs safe
    | inl same ↦
        let is_old = same_link link m (sym ((eq_text_iff _ _).0 same) ∙ safe.same_id) in
        let hand : link.link_origin_manual ≡ true =
          ap (λ x. x.link_origin_manual) is_old ∙ by_hand in
        rw (same, hand)
          (record {
            same_id = safe.same_id;
            same_policy = safe.same_policy;
            same_ref = safe.same_ref;
            visible = safe.visible;
            manual = safe.manual;
            values = record {
              name = safe.values.name;
              date = safe.values.date;
              mime = safe.values.mime;
            };
          })
  ]

  merge-safe :
      {entries : List (Text × TagDocumentRef)} → MergeKeeps (Survives old) w policy_id links entries
  merge-safe = record {
    refresh = λ d ref remote rows m e n p.
        Survives-map _ old rows (λ new. refresh-IsSafe d remote new m) p;
    insert = λ ref remote s n (new, m, safe). (new, Memᴰ.append_left _ m, safe);
    mark = λ ref remote rows n p. Survives-map _ old rows (mark_tagged-IsSafe policy_id ref old) p;
  }

  abbrev Within : List PolicyDocument → List PolicyDocument → Type 0
  Within rest rows = ((l : PolicyDocument) → Memᴰ l rest → Memᴰ l links) × Survives old rows

  remove-safe : (entries : List (Text × TagDocumentRef)) → RemoveKeeps Within w policy_id entries
  remove-safe entries = record {
    keep = λ link rest rows stays (within, p). (λ l m. within l (Memᴰ.tail m), p);
    lose = λ link rest rows lost (within, p). (
      λ l m. within l (Memᴰ.tail m),
      Survives-map _ old rows (λ new. lose-IsSafe link new (within link (Memᴰ.head refl))) p,
    );
  }

  Survives-Left :
      (entries : List (Text × TagDocumentRef)) (o : ReconcileOutcome)
      → Left Within w policy_id entries o
      → Survives old (store_after o).documents
  Survives-Left entries (finished c s) h = h.1
  Survives-Left entries (aborted c s) (rest, h) = h.1
  Survives-Left entries (threw message s) (rest, h) = h.1

-- A document that a user linked by hand and did not archive is there after a merge, however the merge
-- ends: under its id, in its policy, with its reference, not archived, still linked by hand, and with
-- the name, the date and the MIME type that it had. This holds where no two rows share an id and the
-- other transactions, which may change the configuration at any moment, leave the documents alone.
pub reconcile_assignments-IsSafe :
    (w : World) (quiet : IsQuiet w) (policy_id : Text) (version : ℕ) (remote : List TagDocumentRef)
    (on_progress : ℕ → Store → Store) (reports : IsReport on_progress) (s : Store)
    (keyed : IsKeyed s.documents) (old : PolicyDocument)
    → Memᴰ old s.documents
    → old.link_origin_manual ≡ true
    → old.archived_at ≡ none
    → Survives old
        (store_after (reconcile_assignments w policy_id version remote on_progress s)).documents
unfolding reconcile_assignments links
reconcile_assignments-IsSafe w quiet policy_id version remote on_progress reports s keyed old m hand
      shown =
    let all = s.documents in
    let entries = remote_by_id remote [] in
    let rows = filter (is_link policy_id) all in
    let start : Survives old all = (
      old,
      m,
      record {
        same_id = refl;
        same_policy = refl;
        same_ref = refl;
        visible = shown;
        manual = hand;
        values = record { name = λ k. refl; date = λ moment k. k; mime = λ mime_type k. k };
      },
    ) in
    Kept-and_then (Survives old) w policy_id rows
      (merge_documents w policy_id version on_progress (local_by_ref rows []) entries 0 no_counts s)
      (λ c s'. remove_links w policy_id version entries rows 0 c s')
      (merge_documents-keeps (Survives old) w policy_id rows
        (merge-safe w policy_id old all keyed m hand) quiet on_progress reports version entries 0
        no_counts s (λ e n. n) start)
      (λ c s' p. Survives-Left w policy_id old all keyed m hand entries _ (
        remove_links-keeps (Within w policy_id old all keyed m hand) w policy_id entries
          (remove-safe w policy_id old all keyed m hand entries) quiet version rows 0 c s'
          (λ l n. n, p)))
