-- ===== src/Paperless/Reconcile/Mirror.antt =====
-- reconcileAssignments and the tag: which documents carry the automatic origin after a finished merge.
use mathlib.Core.List.{Memᴰ}
use versi_go.Prelude.{
  ℕ, Text, eq_text, eq_text_iff, eq_text_refl, Bool, true, false, ◌&&◌, ◌≡◌, refl, sym, ap, ◌∙◌,
  ◌⊎◌, inl, inr, Option, none, some, List, [], ◌∷◌, filter, mem-filter, Bool-cases, arith, has, All,
  All-map, All-append, All-of, All-at,
}
use versi_go.Paperless.{PolicyDocument, Store, update_document, eq_some}
use versi_go.Paperless.Metadata.{
  TagDocumentRef, derive_tag_link_metadata, metadata_of, TagLinkMetadataUpdate,
}
use versi_go.Paperless.World.{World}
use versi_go.Paperless.Links.{
  is_link, mark_tagged, refresh_link, lose_tag, new_link, is_lost, is_remote, conflicts,
}
use versi_go.Paperless.Reconcile.Walk.{MergeKeeps, RemoveKeeps}
use versi_go.Paperless.Reconcile.Manual.{IsKeyed}

-- `remoteById.has(storageRef)`
abbrev pub ref_listed : List (Text × TagDocumentRef) → Option Text → Bool
ref_listed entries none = false
ref_listed entries (some ref) = has ref entries

abbrev pub is_listed : List (Text × TagDocumentRef) → PolicyDocument → Bool
is_listed entries d = ref_listed entries d.storage_ref

pub eq_some_lem : (ref : Text) (o : Option Text) → eq_some ref o ≡ true → o ≡ some ref
eq_some_lem ref none e = cc
eq_some_lem ref (some u) e = ap some ((eq_text_iff u ref).0 e)

-- The reference of a row that the unique index would compare.
pub conflicts-ref :
    (policy_id ref : Text) (d : PolicyDocument)
    → conflicts policy_id ref d ≡ true
    → d.storage_ref ≡ some ref
conflicts-ref policy_id ref d e = eq_some_lem ref d.storage_ref (ground arith)

abbrev pub is_tag_link : Text → PolicyDocument → Bool
is_tag_link policy_id d = is_link policy_id d && d.link_origin_tag

-- A key of the map is there.
pub has-Mem :
    (ref : Text) (remote : TagDocumentRef) (entries : List (Text × TagDocumentRef))
    → Memᴰ (ref, remote) entries
    → has ref entries ≡ true
unfolding has
has-Mem ref remote [] m = elim m [ ]
has-Mem ref remote ((k, v) ∷ entries) (Memᴰ.head e) =
    rw (sym (ap (λ x. x.0) e)) (ground (arith, eq_text_refl ref))
has-Mem ref remote ((k, v) ∷ entries) (Memᴰ.tail m) = ground (arith, has-Mem ref remote entries m)

module _ (w : World) (policy_id : Text) (entries : List (Text × TagDocumentRef))
    (links : List PolicyDocument) where
  -- A link that the second loop has yet to take the tag from.
  abbrev Pending : List PolicyDocument → PolicyDocument → Type 0
  Pending rest d = (l : PolicyDocument) × Memᴰ l rest × (l.id ≡ d.id) × (is_lost entries l ≡ true)

  -- A row has the reference that the link under its id was read with; and if it carries the tag, it is
  -- listed, or its link is pending.
  pub record IsGood (rest : List PolicyDocument) (d : PolicyDocument) : Type 0 where
    pub ref : (l : PolicyDocument) → Memᴰ l links → l.id ≡ d.id → l.storage_ref ≡ d.storage_ref
    pub tag : is_tag_link policy_id d ≡ true → (is_listed entries d ≡ true) ⊎ Pending rest d

  refresh-IsGood :
      (rest : List PolicyDocument) (e : PolicyDocument) (r : Text) (remote : TagDocumentRef)
      (update : TagLinkMetadataUpdate) (d : PolicyDocument)
      → Memᴰ e links
      → e.storage_ref ≡ some r
      → Memᴰ (r, remote) entries
      → IsGood rest d
      → IsGood rest (update_document e.id (refresh_link update e) d)
  refresh-IsGood rest e r remote update d m er n good = elim (Bool-cases (eq_text d.id e.id)) [
    | inr differs ↦ rw differs good
    | inl same ↦
        let same_ref = good.ref e m (sym ((eq_text_iff _ _).0 same)) in
        let listed = has-Mem r remote entries n in
        rw same (record { ref = good.ref; tag = λ t. inl (rw (sym same_ref ∙ er) listed) })
  ]

  mark-IsGood :
      (rest : List PolicyDocument) (r : Text) (remote : TagDocumentRef) (d : PolicyDocument)
      → Memᴰ (r, remote) entries
      → IsGood rest d
      → IsGood rest (mark_tagged policy_id r d)
  mark-IsGood rest r remote d n good = elim (Bool-cases (conflicts policy_id r d)) [
    | inr other ↦ rw other good
    | inl there ↦ rw there (record {
      ref = good.ref;
      tag = λ t. inl (rw (conflicts-ref policy_id r d there) (has-Mem r remote entries n));
    })
  ]

  insert-IsGood :
      (rest : List PolicyDocument) (r : Text) (remote : TagDocumentRef) (s : Store)
      → ((l : PolicyDocument) (n : ℕ) → Memᴰ l links → ¬ (l.id ≡ w.uuid n))
      → Memᴰ (r, remote) entries
      → IsGood rest (new_link w policy_id r remote s)
  insert-IsGood rest r remote s fresh n = record {
    ref = λ l m e. absurd (fresh l _ m e);
    tag = λ t. inl (has-Mem r remote entries n);
  }

  lose-IsGood :
      (link d : PolicyDocument) (rest : List PolicyDocument)
      → IsGood (link ∷ rest) d
      → IsGood rest (update_document link.id (lose_tag w link) d)
  lose-IsGood link d rest good = elim (Bool-cases (eq_text d.id link.id)) [
    | inr differs ↦ rw differs (record {
      ref = good.ref;
      tag = λ t. elim (good.tag t) [
        | inl listed ↦ inl listed
        | inr (l, Memᴰ.head e, same, lost) ↦ absurd (clash (ap (λ x. x.id) (sym e) ∙ same) differs)
        | inr (l, Memᴰ.tail m, same, lost) ↦ inr (l, m, same, lost)
      ];
    })
    | inl same ↦ elim (Bool-cases link.link_origin_manual) [
      | inl hand ↦ rw (same, hand) (record { ref = good.ref; tag = λ t. ground arith })
      | inr own ↦ rw (same, own) (record { ref = good.ref; tag = λ t. ground arith })
    ]
  ]
    where
      clash : link.id ≡ d.id → eq_text d.id link.id ≡ false → ⊥
      clash e differs = ground (arith, eq_text_iff d.id link.id)

  keep-IsGood :
      (link d : PolicyDocument) (rest : List PolicyDocument)
      → is_lost entries link ≡ false
      → IsGood (link ∷ rest) d
      → IsGood rest d
  keep-IsGood link d rest stays good = record {
    ref = good.ref;
    tag = λ t. elim (good.tag t) [
      | inl listed ↦ inl listed
      | inr (l, Memᴰ.head e, same, lost) ↦ absurd (cc)
      | inr (l, Memᴰ.tail m, same, lost) ↦ inr (l, m, same, lost)
    ];
  }

  pub merge-IsGood :
      ((l : PolicyDocument) (n : ℕ) → Memᴰ l links → ¬ (l.id ≡ w.uuid n))
      → MergeKeeps (λ rows. All (IsGood links) rows) w policy_id links entries
  merge-IsGood fresh = record {
    refresh = λ d ref remote rows m e n p.
        All-map (IsGood links) (IsGood links) _ rows p (λ x k good.
          refresh-IsGood links d ref remote
            (derive_tag_link_metadata w.to_date remote (some (metadata_of d))) x m e n good);
    insert = λ ref remote s n p.
        All-append (IsGood links) s.documents _ p (insert-IsGood links ref remote s fresh n, tt);
    mark = λ ref remote rows n p.
        All-map (IsGood links) (IsGood links) _ rows p
          (λ x k good. mark-IsGood links ref remote x n good);
  }

  pub remove-IsGood : RemoveKeeps (λ rest rows. All (IsGood rest) rows) w policy_id entries
  remove-IsGood = record {
    keep = λ link rest rows stays p.
        All-of (IsGood rest) rows
          (λ d m. keep-IsGood link d rest stays (All-at (IsGood (link ∷ rest)) d rows p m));
    lose = λ link rest rows lost p.
        All-map (IsGood (link ∷ rest)) (IsGood rest) _ rows p
          (λ d m good. lose-IsGood link d rest good);
  }

not-lost_listed :
    (entries : List (Text × TagDocumentRef)) (o : Option Text)
    → is_remote entries o ≡ true
    → ref_listed entries o ≡ true
not-lost_listed entries none e = e
not-lost_listed entries (some ref) e = ground arith

-- The documents as they are read.
pub start-IsGood :
    (w : World) (policy_id : Text) (entries : List (Text × TagDocumentRef))
    (all : List PolicyDocument)
    → IsKeyed all
    → All
        (IsGood w policy_id entries
          (filter (is_link policy_id) all)
          (filter (is_link policy_id) all))
        all
start-IsGood w policy_id entries all keyed = All-of _ all λ d m. record {
  ref = λ l n e.
      ap (λ x. x.storage_ref) (keyed l d ((mem-filter (is_link policy_id) l all).0 n).0 m e);
  tag = λ t. elim (Bool-cases (is_remote entries d.storage_ref)) [
    | inl remote ↦ inl (not-lost_listed entries d.storage_ref remote)
    | inr gone ↦
        inr (d, (mem-filter (is_link policy_id) d all).1 (m, ground arith), refl, ground arith)
  ];
}
