-- ===== src/Paperless/Reconcile/Named.antt =====
-- apps/worker/src/paperless-tag.processor.ts, reconcileAssignments: the links that the listing names.
use mathlib.Core.List.{Memᴰ}
use mathlib.Core.List.Memᴰ
use versi_go.Prelude.{
  Text, eq_text, eq_text_iff, is_empty, Bool, true, false, ◌||◌, ◌≡◌, refl, sym, ap, subst, ◌∙◌,
  inl, inr, some, List, [], ◌∷◌, map, Bool-cases, arith, has, put, has-put, any, any_iff,
}
use versi_go.Paperless.{PolicyDocument, update_document}
use versi_go.Paperless.Metadata.{TagDocumentRef}
use versi_go.Paperless.World.{World}
use versi_go.Prelude.{to_string, to_string-some}
use versi_go.Paperless.Links.{lose_tag, is_lost, is_remote, remote_by_id}
use versi_go.Paperless.Reconcile.Walk.{RemoveKeeps}
use versi_go.Paperless.Reconcile.Mirror.{is_tag_link}

-- The id of a Paperless document as a reference.
abbrev pub names : Text → TagDocumentRef → Bool
names ref remote = eq_text (to_string remote.paperless_id) ref

-- The map holds the ids of the list.
pub has-remote_by_id :
    (ref : Text) (remote : List TagDocumentRef) (entries : List (Text × TagDocumentRef))
    → has ref (remote_by_id remote entries) ≡ (any (names ref) remote || has ref entries)
unfolding remote_by_id
has-remote_by_id ref [] entries = refl
has-remote_by_id ref (r ∷ remote) entries = ground (
  arith,
  has-remote_by_id ref remote (put (to_string r.paperless_id) r entries),
  has-put (to_string r.paperless_id) ref r entries,
)

pub Mem-has :
    (ref : Text) (entries : List (Text × TagDocumentRef))
    → has ref entries ≡ true
    → (remote : TagDocumentRef) × Memᴰ (ref, remote) entries
unfolding has
Mem-has ref [] e = ground arith
Mem-has ref ((k, v) ∷ entries) e = elim (Bool-cases (eq_text k ref)) [
  | inl here ↦ (v, Memᴰ.head (ap (λ x. (x, v)) (sym ((eq_text_iff k ref).0 here))))
  | inr later ↦ let (r, m) = Mem-has ref entries (rw later at e) in (r, Memᴰ.tail m)
]

-- The references of the tag's documents are not empty.
pub names-some :
    (ref : Text) (remote : List TagDocumentRef)
    → any (names ref) remote ≡ true
    → is_empty ref ≡ false
names-some ref remote e =
    let (r, m, k) = (any_iff (names ref) remote).0 e in
    subst (λ t. is_empty t ≡ false) ((eq_text_iff (to_string r.paperless_id) ref).0 k)
      (to_string-some r.paperless_id)

module _ (w : World) (policy_id : Text) (entries : List (Text × TagDocumentRef))
    (links : List PolicyDocument) (ref : Text) (filled : is_empty ref ≡ false)
    (there : has ref entries ≡ true) where
  -- The shown row, which has the reference of the link under its id.
  abbrev Steady : List PolicyDocument → Type 0
  Steady rows =
      (d : PolicyDocument) × Memᴰ d rows
      × (is_tag_link policy_id d ≡ true)
      × (d.storage_ref ≡ some ref)
      × ((l : PolicyDocument) → Memᴰ l links → l.id ≡ d.id → l.storage_ref ≡ d.storage_ref)

  abbrev pub Stays : List PolicyDocument → List PolicyDocument → Type 0
  Stays rest rows = ((l : PolicyDocument) → Memᴰ l rest → Memᴰ l links) × Steady rows

  not_lost : (l : PolicyDocument) → l.storage_ref ≡ some ref → is_lost entries l ≡ true → ⊥
  not_lost l e lost =
      let remote : is_remote entries l.storage_ref ≡ true = rw e (ground arith) in ground arith

  lose-Steady :
      (link : PolicyDocument) (rows : List PolicyDocument)
      → Memᴰ link links
      → is_lost entries link ≡ true
      → Steady rows
      → Steady (map (update_document link.id (lose_tag w link)) rows)
  lose-Steady link rows n lost (d, m, t, e, k) = elim (Bool-cases (eq_text d.id link.id)) [
    | inl same ↦ absurd (not_lost link (k link n (sym ((eq_text_iff _ _).0 same)) ∙ e) lost)
    | inr differs ↦ (
      d,
      subst (λ x. Memᴰ x (map (update_document link.id (lose_tag w link)) rows)) (unchanged differs)
          (Memᴰ.map (update_document link.id (lose_tag w link)) m),
      t,
      e,
      k,
    )
  ]
    where
      unchanged : eq_text d.id link.id ≡ false → update_document link.id (lose_tag w link) d ≡ d
      unchanged differs = rw differs refl

  pub Stays-keeps : RemoveKeeps Stays w policy_id entries
  Stays-keeps = record {
    keep = λ link rest rows stays (within, p). (λ l m. within l (Memᴰ.tail m), p);
    lose = λ link rest rows lost (within, p). (
      λ l m. within l (Memᴰ.tail m),
      lose-Steady link rows (within link (Memᴰ.head refl)) lost p,
    );
  }
