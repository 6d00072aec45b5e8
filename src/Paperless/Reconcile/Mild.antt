-- ===== src/Paperless/Reconcile/Mild.antt =====
-- apps/worker/src/paperless-tag.processor.ts, reconcileAssignments: the rewrites of a row that keep what
-- the link shows.
use mathlib.Core.List.{Memᴰ}
use mathlib.Core.List.Memᴰ
use versi_go.Prelude.{
  Text, eq_text_iff, Bool, true, false, not, ◌||◌, ◌≡◌, ap, ◌∙◌, inl, inr, some, List, map,
  Bool-cases, arith,
}
use versi_go.Paperless.{PolicyDocument, Store, update_document}
use versi_go.Paperless.Metadata.{TagLinkMetadataUpdate}
use versi_go.Paperless.Links.{ReconcileCounts, is_link, mark_tagged, refresh_link, finished}
use versi_go.Paperless.Reconcile.Walk.{store_after}
use versi_go.Paperless.Reconcile.Mirror.{is_tag_link}

-- A row of the policy that carries the tag, with that reference.
abbrev pub Shown : Text → Text → List PolicyDocument → Type 0
Shown policy_id ref rows =
    (d : PolicyDocument) × Memᴰ d rows
    × (is_tag_link policy_id d ≡ true)
    × (d.storage_ref ≡ some ref)

-- The row that a link was read from, with its tag.
abbrev pub Backed : Text → List PolicyDocument → PolicyDocument → Type 0
Backed policy_id rows l =
    (d : PolicyDocument) × Memᴰ d rows
    × (d.id ≡ l.id)
    × (is_link policy_id d ≡ true)
    × (d.storage_ref ≡ l.storage_ref)
    × (l.link_origin_tag ≡ true → d.link_origin_tag ≡ true)

-- The writes of the first loop keep the columns that these depend on.
pub record IsMild (policy_id : Text) (f : PolicyDocument → PolicyDocument) : Type 0 where
  pub id : (d : PolicyDocument) → (f d).id ≡ d.id
  pub ref : (d : PolicyDocument) → (f d).storage_ref ≡ d.storage_ref
  pub link : (d : PolicyDocument) → is_link policy_id (f d) ≡ is_link policy_id d
  pub tag : (d : PolicyDocument) → d.link_origin_tag ≡ true → (f d).link_origin_tag ≡ true

pub refresh-IsMild :
    (policy_id : Text) (update : TagLinkMetadataUpdate) (e : PolicyDocument)
    → IsMild policy_id (update_document e.id (refresh_link update e))
refresh-IsMild policy_id update e = record {
  id = λ d. ground arith;
  ref = λ d. ground arith;
  link = λ d. ground arith;
  tag = λ d h. ground arith;
}

pub mark-IsMild : (policy_id ref : Text) → IsMild policy_id (mark_tagged policy_id ref)
mark-IsMild policy_id ref = record {
  id = λ d. ground arith;
  ref = λ d. ground arith;
  link = λ d. ground arith;
  tag = λ d h. ground arith;
}

module _ (policy_id : Text) (f : PolicyDocument → PolicyDocument) (mild : IsMild policy_id f) where
  pub Shown-map :
      (ref : Text) (rows : List PolicyDocument)
      → Shown policy_id ref rows
      → Shown policy_id ref (map f rows)
  Shown-map ref rows (d, m, t, e) =
      (f d, Memᴰ.map f m, ground (arith, mild.link d, mild.tag d), mild.ref d ∙ e)

  pub Backed-map :
      (rows : List PolicyDocument) (l : PolicyDocument)
      → Backed policy_id rows l
      → Backed policy_id (map f rows) l
  Backed-map rows l (d, m, i, k, r, t) =
      (f d, Memᴰ.map f m, mild.id d ∙ i, mild.link d ∙ k, mild.ref d ∙ r, λ h. mild.tag d (t h))

-- The refreshed row carries the tag, as the link did or not.
pub refresh-tags :
    (policy_id : Text) (update : TagLinkMetadataUpdate) (d row : PolicyDocument)
    → row.id ≡ d.id
    → is_link policy_id row ≡ true
    → (d.link_origin_tag ≡ true → row.link_origin_tag ≡ true)
    → is_tag_link policy_id (update_document d.id (refresh_link update d) row) ≡ true
refresh-tags policy_id update d row i k t = elim (Bool-cases d.link_origin_tag) [
  | inl had ↦ ground (arith, (eq_text_iff row.id d.id).1 i, t had)
  | inr had_not ↦ ground (arith, (eq_text_iff row.id d.id).1 i)
]

pub leaves-tags :
    (policy_id : Text) (keys : Bool) (d row : PolicyDocument)
    → (keys || not d.link_origin_tag) ≡ false
    → is_link policy_id row ≡ true
    → (d.link_origin_tag ≡ true → row.link_origin_tag ≡ true)
    → is_tag_link policy_id row ≡ true
leaves-tags policy_id keys d row leaves k t = elim (Bool-cases d.link_origin_tag) [
  | inl had ↦ ground (arith, t had)
  | inr had_not ↦ ground arith
]

pub documents_of :
    {c c' : ReconcileCounts} {s s' : Store}
    → finished c s ≡ finished c' s'
    → s.documents ≡ s'.documents
documents_of e = ap (λ o. (store_after o).documents) e
