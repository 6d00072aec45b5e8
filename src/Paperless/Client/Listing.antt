-- ===== src/Paperless/Client/Listing.antt =====
-- listDocumentsByTag: a complete walk over the pages, or nothing.
use mathlib.Core.Option.{some-injective}
use versi_go.Prelude.{
  ℕ, zero, suc, ◌+◌, ◌≤◌, Bool, true, false, ◌==◌, ◌≡◌, refl, sym, ap, subst, ◌∙◌, inl, inr, ◌↔◌,
  Option, none, some, List, [], ◌∷◌, ◌++◌, map, count, Bool-cases, arith, if◌then◌else◌,
}
use versi_go.Paperless.Metadata.{TagDocumentRef, map_tag_document}
use versi_go.Paperless.Client.Unseen.{first_of_each, unseen-first_of_each, first_of_each-once}
use versi_go.Paperless.Client.Answered.{Answered, fetch_page-Answered, Answered-fetch_page}
use versi_go.Paperless.Client.{
  Connection, TagDocumentFields, metadata_fields, PaperlessPage, fetch_page, on_page, walk_pages,
  unseen, list_documents_by_tag, is_unconfigured,
}

-- A walk over a number of pages that were all answered, the last one without a successor: its
-- documents, in the order of the pages.
pub data Walked (c : Connection) (tag_id : ℕ)
    : ℕ → ℕ → TagDocumentFields → List TagDocumentRef → Type 0 where
  last_page :
      {page : ℕ} {fields next_fields : TagDocumentFields} (p : PaperlessPage)
      → Answered c tag_id page p fields next_fields
      → p.next ≡ false
      → Walked c tag_id 1 page fields (map map_tag_document p.results)
  more_pages :
      {n page : ℕ} {fields next_fields : TagDocumentFields} {docs : List TagDocumentRef}
      (p : PaperlessPage)
      → Answered c tag_id page p fields next_fields
      → p.next ≡ true
      → Walked c tag_id n (page + 1) next_fields docs
      → Walked c tag_id (suc n) page fields (map map_tag_document p.results ++ docs)

append_assoc : (xs ys zs : List TagDocumentRef) → (xs ++ ys) ++ zs ≡ xs ++ (ys ++ zs)
append_assoc [] ys zs = refl
append_assoc (x ∷ xs) ys zs = ap (λ l. x ∷ l) (append_assoc xs ys zs)

module _ (c : Connection) (on : is_unconfigured c ≡ false) (tag_id : ℕ) where
  walk_pages_complete :
      (n rounds page : ℕ) (fields : TagDocumentFields) (all docs : List TagDocumentRef)
      → Walked c tag_id n page fields docs
      → n ≤ rounds
      → walk_pages c tag_id rounds page fields all ≡ some (unseen [] (all ++ docs))
  unfolding walk_pages on_page
  walk_pages_complete n zero page fields all docs (last_page p e h) le = ground arith
  walk_pages_complete n zero page fields all docs (more_pages p e h walk) le = ground arith
  walk_pages_complete n (suc rounds) page fields all docs (last_page p e h) le =
      subst
        (λ r.
          on_page r all (λ f g. walk_pages c tag_id rounds (page + 1) f g)
          ≡ some (unseen [] (all ++ docs)))
        (sym (Answered-fetch_page c on tag_id page p e)) (rw h refl)
  walk_pages_complete n (suc rounds) page fields all docs
        (more_pages {n = m} {docs = more} p e h walk) le =
      subst
        (λ r.
          on_page r all (λ f g. walk_pages c tag_id rounds (page + 1) f g)
          ≡ some (unseen [] (all ++ docs)))
        (sym (Answered-fetch_page c on tag_id page p e))
        (rw h (
          walk_pages_complete m rounds (page + 1) _ _ more walk (omega arith)
          ∙ ap (λ l. some (unseen [] l)) (append_assoc all (map map_tag_document p.results) more)))

  walk_pages_sound :
      (rounds page : ℕ) (fields : TagDocumentFields) (all result : List TagDocumentRef)
      → walk_pages c tag_id rounds page fields all ≡ some result
      → (n : ℕ) × ((docs : List TagDocumentRef) × Walked c tag_id n page fields docs
          × (n ≤ rounds)
          × (result ≡ unseen [] (all ++ docs)))
  unfolding walk_pages on_page
  walk_pages_sound zero page fields all result e = ground arith
  walk_pages_sound (suc rounds) page fields all result e =
      at_page (fetch_page c tag_id page fields) refl e (walk_pages_sound rounds (page + 1))
    where
      Found : Type 0
      Found =
          (n : ℕ) × ((docs : List TagDocumentRef) × Walked c tag_id n page fields docs
            × (n ≤ suc rounds)
            × (result ≡ unseen [] (all ++ docs)))

      later : TagDocumentFields → List TagDocumentRef → Option (List TagDocumentRef)
      later f gathered = walk_pages c tag_id rounds (page + 1) f gathered

      at_page :
          (r : TagDocumentFields × Option PaperlessPage)
          → fetch_page c tag_id page fields ≡ r
          → on_page r all later ≡ some result
          → ((f : TagDocumentFields) (gathered result : List TagDocumentRef)
              → later f gathered ≡ some result
              → (n : ℕ) × ((docs : List TagDocumentRef) × Walked c tag_id n (page + 1) f docs
                  × (n ≤ rounds)
                  × (result ≡ unseen [] (gathered ++ docs))))
          → Found
      at_page (f, none) fetched e again = ground arith
      at_page (f, some p) fetched e again = elim (Bool-cases p.next) [
        | inr last ↦ (
          1,
          (
            map map_tag_document p.results,
            last_page p (fetch_page-Answered c on tag_id page p fields f fetched) last,
            omega arith,
            sym (some-injective _ _ (rw last at e)),
          ),
        )
        | inl more ↦
            let (n, (docs, walk, le, same)) =
              again f (all ++ map map_tag_document p.results) result (rw more at e) in
            (
              suc n,
              (
                map map_tag_document p.results ++ docs,
                more_pages p (fetch_page-Answered c on tag_id page p fields f fetched) more walk,
                omega arith,
                same ∙ ap (unseen []) (append_assoc all (map map_tag_document p.results) docs),
              ),
            )
      ]

-- The list is known exactly if Paperless is configured and it answered all the pages of the tag, at most
-- fifty, with the status 200 and a body of the form of a page, the last of them without a successor, where
-- the first page that is refused with 400 is asked for again, and the later ones are asked for, with the
-- minimal fields. The list then holds the documents of all the pages in their order, of each id the
-- first one, and so no id twice. A page without such an answer leaves no list at all.
pub list_documents_by_tag_iff :
    (c : Connection) (tag_id : ℕ) (result : List TagDocumentRef)
    → (list_documents_by_tag c tag_id ≡ some result) ↔ (
        (is_unconfigured c ≡ false)
        × ((n : ℕ) × ((docs : List TagDocumentRef) × Walked c tag_id n 1 metadata_fields docs
              × (n ≤ 50)
              × (result ≡ first_of_each docs)))
        × ((id : ℕ) → count (λ d. d.paperless_id == id) result ≤ 1))
unfolding list_documents_by_tag
list_documents_by_tag_iff c tag_id result = (
  λ e.
      let (on, walked) = gate.0 e in
      let (n, (docs, walk, le, kept)) =
        walk_pages_sound c on tag_id 50 1 metadata_fields [] result walked in
      let same : result ≡ first_of_each docs = kept ∙ unseen-first_of_each docs in
      (
        on,
        (n, (docs, walk, le, same)),
        λ id.
            subst (λ r. count (λ d. d.paperless_id == id) r ≤ 1) (sym same)
              (first_of_each-once id docs),
      ),
  λ (on, (n, (docs, walk, le, same)), once). gate.1 (
    on,
    walk_pages_complete c on tag_id n 50 1 metadata_fields [] docs walk le
        ∙ ap some (unseen-first_of_each docs ∙ sym same),
  ),
)
  where
    gate :
        {b : Bool} {x : Option (List TagDocumentRef)}
        → ((if b then none else x) ≡ some result) ↔ ((b ≡ false) × (x ≡ some result))
    gate {b} {x} = ground arith
