-- ===== src/Paperless/Client/Answered.antt =====
-- The request for one page of the documents of a tag, in terms of what the server answers.
use versi_go.Prelude.{
  ℕ, true, false, ◌==◌, ==_iff, ◌≡◌, refl, ap, subst, inl, inr, Option, none, some, Bool-cases,
  arith,
}
use versi_go.Paperless.Client.{
  Connection, Reply, TagDocumentFields, metadata_fields, minimal_fields, PaperlessPage, fetch_page,
  is_rejected, page_of, request, is_unconfigured,
}

-- What Paperless answers when a page is asked for, first with some fields and, where it refuses the
-- metadata with 400, once more with the minimal ones: a body of the form of a page under the status 200.
-- The second field set is the one that the later pages are asked for with.
pub data Answered (c : Connection) (tag_id page : ℕ) (p : PaperlessPage)
    : TagDocumentFields → TagDocumentFields → Type 0 where
  at_once :
      {fields : TagDocumentFields}
      → c.server.get_documents tag_id page fields ≡ some (record { status = 200; body = some p })
      → Answered c tag_id page p fields fields
  reduced :
      {body : Option PaperlessPage}
      → c.server.get_documents tag_id page metadata_fields
        ≡ some (record { status = 400; body = body })
      → c.server.get_documents tag_id page minimal_fields
        ≡ some (record { status = 200; body = some p })
      → Answered c tag_id page p metadata_fields minimal_fields

-- An answer by its status and its body.
abbrev of : {A : Type 0} → ℕ → Option A → Reply A
of status body = record { status = status; body = body }

of_fields : {A : Type 0} (s t : ℕ) (b c : Option A) → s ≡ t → b ≡ c → some (of s b) ≡ some (of t c)
of_fields s t b c e f = rw (e, f) refl

page_of-some :
    (r : Option (Reply PaperlessPage)) (p : PaperlessPage)
    → page_of r ≡ some p
    → r ≡ some (record { status = 200; body = some p })
page_of-some none p e = ground arith
page_of-some (some res) p e = elim (Bool-cases (res.status == 200)) [
  | inl fine ↦ of_fields _ _ _ _ ((==_iff res.status 200).0 fine) (rw fine at e)
  | inr other ↦ let none_there : none ≡ some p = rw other at e in ground arith
]

rejected-400 :
    (r : Option (Reply PaperlessPage))
    → is_rejected metadata_fields r ≡ true
    → (body : Option PaperlessPage) × (r ≡ some (record { status = 400; body = body }))
rejected-400 none e = ground arith
rejected-400 (some res) e = (res.body, of_fields _ _ _ _ ((==_iff res.status 400).0 e) refl)

accepts-200 :
    (fields : TagDocumentFields) (body : Option PaperlessPage)
    → is_rejected fields (some (record { status = 200; body = body })) ≡ false
accepts-200 metadata_fields body = refl
accepts-200 minimal_fields body = refl

module _ (c : Connection) (on : is_unconfigured c ≡ false) (tag_id page : ℕ)
    (p : PaperlessPage) where
  -- A page that is fetched was answered.
  pub fetch_page-Answered :
      (fields next_fields : TagDocumentFields)
      → fetch_page c tag_id page fields ≡ (next_fields, some p)
      → Answered c tag_id page p fields next_fields
  unfolding fetch_page request
  fetch_page-Answered minimal_fields next_fields e =
      let sent : (minimal_fields, page_of (c.server.get_documents tag_id page minimal_fields))
          ≡ (next_fields, some p) =
        rw on at e in
      subst (λ g. Answered c tag_id page p minimal_fields g) (ap (λ x. x.0) sent)
        (at_once (page_of-some _ p (ap (λ x. x.1) sent)))
  fetch_page-Answered metadata_fields next_fields e =
      elim (Bool-cases (is_rejected metadata_fields reply)) [
        | inl refused ↦
            let sent : (minimal_fields, page_of (c.server.get_documents tag_id page minimal_fields))
                ≡ (next_fields, some p) =
              rw (on, refused) at e in
            subst (λ g. Answered c tag_id page p metadata_fields g) (ap (λ x. x.0) sent)
              (reduced (rejected-400 reply refused).1 (page_of-some _ p (ap (λ x. x.1) sent)))
        | inr taken ↦
            let sent : (metadata_fields, page_of reply) ≡ (next_fields, some p) =
              rw (on, taken) at e in
            subst (λ g. Answered c tag_id page p metadata_fields g) (ap (λ x. x.0) sent)
              (at_once (page_of-some reply p (ap (λ x. x.1) sent)))
      ]
    where
      reply : Option (Reply PaperlessPage)
      reply = c.server.get_documents tag_id page metadata_fields

  -- A page that is answered is fetched.
  pub Answered-fetch_page :
      {fields next_fields : TagDocumentFields}
      → Answered c tag_id page p fields next_fields
      → fetch_page c tag_id page fields ≡ (next_fields, some p)
  unfolding fetch_page request
  Answered-fetch_page (at_once {fields} e) = rw (on, e, accepts-200 fields (some p)) refl
  Answered-fetch_page (reduced e f) = rw (on, e, f) refl
