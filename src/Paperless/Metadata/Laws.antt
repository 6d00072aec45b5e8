-- ===== src/Paperless/Metadata/Laws.antt =====
-- deriveTagLinkMetadata: a sync that finds nothing new writes nothing, and a user's values stay.
use versi_go.Prelude.{
  ℕ, Text, eq_text_refl, is_empty, trim, trim_idem, Bool, true, false, not, ◌≡◌, refl, Option, none,
  some, [], arith,
}
use versi_go.Paperless.{PolicyDocument}
use versi_go.Paperless.Metadata.{
  TagDocumentRef, derive_name, derive_date, derive_mime, derive_tag_link_metadata, metadata_of,
  write_metadata, has_keys, or_else, keep_or, parse_paperless_date,
}

derive_name_idem :
    (auto_managed : Bool) (title old : Text)
    → trim title ≡ title
    → derive_name auto_managed title
        (trim (or_else (derive_name auto_managed title (trim old)) old))
      ≡ none
unfolding derive_name
derive_name_idem auto_managed title old h = ground (arith, trim_idem old, eq_text_refl title)

derive_date_idem :
    (auto_managed : Bool) (date old : Option ℕ)
    → derive_date auto_managed date (keep_or (derive_date auto_managed date old) old) ≡ none
unfolding derive_date
derive_date_idem auto_managed date old = ground arith

derive_mime_idem :
    (auto_managed : Bool) (mime : Text) (old : Option Text)
    → derive_mime auto_managed mime (keep_or (derive_mime auto_managed mime old) old) ≡ none
unfolding derive_mime
derive_mime_idem auto_managed mime old = ground (arith, eq_text_refl mime)

-- After the derived metadata of a Paperless document have been written to a link, deriving again from
-- the same document gives nothing to write, however the link came about.
pub derive-write_idem :
    (to_date : Text → Option ℕ) (remote : TagDocumentRef) (d : PolicyDocument)
    → has_keys (
        derive_tag_link_metadata to_date remote (
          some (
            metadata_of
              (write_metadata (derive_tag_link_metadata to_date remote (some (metadata_of d))) d))))
      ≡ false
unfolding derive_tag_link_metadata
derive-write_idem to_date remote d =
    let auto = not d.link_origin_manual in
    rw
      (
        derive_name_idem auto (trim (or_else remote.title [])) d.file_name
            (trim_idem (or_else remote.title [])),
        derive_date_idem auto (parse_paperless_date to_date remote.created_at) d.document_date,
        derive_mime_idem auto (trim (or_else remote.mime_type [])) d.mime_type,
      )
      refl

-- What a user set: the name unless it is blank, and the columns that are not null.
pub record KeepsValues (old new : PolicyDocument) : Type 0 where
  pub name : is_empty (trim old.file_name) ≡ false → new.file_name ≡ old.file_name
  pub date : (moment : ℕ) → old.document_date ≡ some moment → new.document_date ≡ some moment
  pub mime : (mime_type : Text) → old.mime_type ≡ some mime_type → new.mime_type ≡ some mime_type

-- What is derived for a manually made link replaces no value that the link had, also where the row
-- has been written since it was read.
pub derive-keeps :
    (to_date : Text → Option ℕ) (remote : TagDocumentRef) (old new : PolicyDocument)
    → old.link_origin_manual ≡ true
    → KeepsValues old new
    → KeepsValues old
        (write_metadata (derive_tag_link_metadata to_date remote (some (metadata_of old))) new)
unfolding derive_tag_link_metadata derive_name derive_date derive_mime
derive-keeps to_date remote old new h kept = record {
  name = λ k. ground (arith, kept.name k);
  date = λ moment k. ground (arith, kept.date moment k);
  mime = λ mime_type k. ground (arith, kept.mime mime_type k);
}
