-- ===== src/Paperless/Client/Unseen.antt =====
-- The filter at the end of listDocumentsByTag, which keeps the first document of each id.
use versi_go.Prelude.{
  ℕ, ◌≤◌, Bool, true, not, ◌==◌, ◌&&◌, ◌≡◌, refl, sym, ap, subst, ==_iff, ◌∙◌, inl, inr, List, [],
  ◌∷◌, any, count, count-filter-le, filter, Bool-cases, arith,
}
use versi_go.Paperless.Metadata.{TagDocumentRef}
use versi_go.Paperless.Client.{unseen}

-- The first document of each id, without a set of ids: behind a document all others of its id go.
unfoldable pub first_of_each : List TagDocumentRef → List TagDocumentRef
first_of_each [] = []
first_of_each (d ∷ docs) =
    d ∷ filter (λ x. not (x.paperless_id == d.paperless_id)) (first_of_each docs)

abbrev is_new : List ℕ → TagDocumentRef → Bool
is_new seen x = not (any (λ id. id == x.paperless_id) seen)

filter-filter :
    (p q r : TagDocumentRef → Bool) (docs : List TagDocumentRef)
    → ((x : TagDocumentRef) → (q x && p x) ≡ r x)
    → filter p (filter q docs) ≡ filter r docs
filter-filter p q r [] same = refl
filter-filter p q r (d ∷ docs) same = ground (arith, same d, filter-filter p q r docs same)

filter-all :
    (p : TagDocumentRef → Bool) (docs : List TagDocumentRef)
    → ((x : TagDocumentRef) → p x ≡ true)
    → filter p docs ≡ docs
filter-all p [] h = refl
filter-all p (d ∷ docs) h = ground (arith, h d, filter-all p docs h)

-- The others of a document whose id was seen are those of another id that were not seen.
seen-twice :
    (seen : List ℕ) (d x : TagDocumentRef)
    → any (λ id. id == d.paperless_id) seen ≡ true
    → (not (x.paperless_id == d.paperless_id) && is_new seen x) ≡ is_new seen x
seen-twice seen d x h = elim (Bool-cases (x.paperless_id == d.paperless_id)) [
  | inl same ↦
      let at_x : any (λ id. id == x.paperless_id) seen ≡ true =
        ap (λ n. any (λ id. id == n) seen) ((==_iff x.paperless_id d.paperless_id).0 same) ∙ h in
      rw (same, at_x) refl
  | inr other ↦ rw other refl
]

-- To be new behind a document is to be of another id, and new before it.
seen-also :
    (seen : List ℕ) (d x : TagDocumentRef)
    → (not (x.paperless_id == d.paperless_id) && is_new seen x) ≡ is_new (d.paperless_id ∷ seen) x
seen-also seen d x = ground arith

unseen-filter :
    (seen : List ℕ) (docs : List TagDocumentRef)
    → unseen seen docs ≡ filter (is_new seen) (first_of_each docs)
unfolding unseen first_of_each
unseen-filter seen [] = refl
unseen-filter seen (d ∷ docs) = elim (Bool-cases (any (λ id. id == d.paperless_id) seen)) [
  | inl old ↦ rw old (
      unseen-filter seen docs
      ∙ sym (
          filter-filter (is_new seen) (λ x. not (x.paperless_id == d.paperless_id)) (is_new seen)
            (first_of_each docs) (λ x. seen-twice seen d x old)))
  | inr new ↦ rw new (
      ap (λ xs. d ∷ xs)
        (unseen-filter (d.paperless_id ∷ seen) docs
          ∙ sym (
              filter-filter (is_new seen) (λ x. not (x.paperless_id == d.paperless_id))
                (is_new (d.paperless_id ∷ seen)) (first_of_each docs) (λ x. seen-also seen d x))))
]

pub unseen-first_of_each : (docs : List TagDocumentRef) → unseen [] docs ≡ first_of_each docs
unseen-first_of_each docs =
    unseen-filter [] docs ∙ filter-all (is_new []) (first_of_each docs) (λ x. refl)

count-filter_other :
    (id : ℕ) (docs : List TagDocumentRef)
    → count (λ d. d.paperless_id == id) (filter (λ x. not (x.paperless_id == id)) docs) ≡ 0
count-filter_other id [] = refl
count-filter_other id (d ∷ docs) = ground (arith, count-filter_other id docs)

-- No id stands twice in what is kept.
pub first_of_each-once :
    (id : ℕ) (docs : List TagDocumentRef)
    → count (λ d. d.paperless_id == id) (first_of_each docs) ≤ 1
unfolding first_of_each
first_of_each-once id [] = omega arith
first_of_each-once id (d ∷ docs) = elim (Bool-cases (d.paperless_id == id)) [
  | inl here ↦
      let same : d.paperless_id ≡ id = (==_iff d.paperless_id id).0 here in
      let gone : count (λ x. x.paperless_id == id)
            (filter (λ x. not (x.paperless_id == d.paperless_id)) (first_of_each docs))
          ≡ 0 =
        subst
          (λ k.
            count (λ x. x.paperless_id == id)
              (filter (λ x. not (x.paperless_id == k)) (first_of_each docs))
            ≡ 0)
          (sym same) (count-filter_other id (first_of_each docs)) in
      ground arith
  | inr other ↦ ground (
    arith,
    first_of_each-once id docs,
    count-filter-le (λ x. x.paperless_id == id) (λ x. not (x.paperless_id == d.paperless_id))
        (first_of_each docs),
  )
]
