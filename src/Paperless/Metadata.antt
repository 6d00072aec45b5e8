-- ===== src/Paperless/Metadata.antt =====
-- apps/worker/src/paperless-tag.client.ts (mapTagDocument) and paperless-tag.processor.ts
-- (parsePaperlessDate, deriveTagLinkMetadata): what the sync writes into the columns that a document
-- takes from Paperless. `new Date(text)` is the argument `to_date`: the moment, or none for a text
-- that is no date.
pub mod Laws
use versi_go.Prelude.{
  ℕ, Text, eq_text, is_empty, trim, Bool, true, false, not, ◌==◌, ◌||◌, ◌&&◌, Option, none, some,
  [], if◌then◌else◌,
}
use versi_go.Paperless.{PolicyDocument, is_null}

-- A field of a JSON object: a string, or anything else (a missing field included).
pub data Field : Type 0 where
  string : Text → Field
  other : Field

pub record PaperlessTagDocumentEntry : Type 0 where
  pub id : ℕ
  pub title : Field
  pub created : Field
  pub mime_type : Field

pub record TagDocumentRef : Type 0 where
  pub paperless_id : ℕ
  pub title : Option Text
  pub created_at : Option Text
  pub mime_type : Option Text

abbrev pub string_or_null : Field → Option Text
string_or_null (string t) = some t
string_or_null other = none

unfoldable pub map_tag_document : PaperlessTagDocumentEntry → TagDocumentRef
map_tag_document entry = record {
  paperless_id = entry.id;
  title = string_or_null entry.title;
  created_at = string_or_null entry.created;
  mime_type = string_or_null entry.mime_type;
}

-- The columns of an existing link, and what of them is to be written.
pub record ExistingTagLinkMetadata : Type 0 where
  pub link_origin_manual : Bool
  pub file_name : Text
  pub document_date : Option ℕ
  pub mime_type : Option Text

pub record TagLinkMetadataUpdate : Type 0 where
  pub file_name : Option Text
  pub document_date : Option ℕ
  pub mime_type : Option Text

abbrev pub metadata_of : PolicyDocument → ExistingTagLinkMetadata
metadata_of d = record {
  link_origin_manual = d.link_origin_manual;
  file_name = d.file_name;
  document_date = d.document_date;
  mime_type = d.mime_type;
}

unfoldable pub parse_paperless_date : (Text → Option ℕ) → Option Text → Option ℕ
parse_paperless_date to_date none = none
parse_paperless_date to_date (some value) = if is_empty (trim value) then none else to_date value

abbrev pub or_else {ℓ} : {A : Type ℓ} → Option A → A → A
or_else none a = a
or_else (some b) a = b

-- `existing === null || !existing.linkOriginManual`
abbrev pub is_auto_managed : Option ExistingTagLinkMetadata → Bool
is_auto_managed none = true
is_auto_managed (some existing) = not existing.link_origin_manual

abbrev pub current_name : Option ExistingTagLinkMetadata → Text
current_name none = []
current_name (some existing) = existing.file_name

abbrev pub current_date : Option ExistingTagLinkMetadata → Option ℕ
current_date none = none
current_date (some existing) = existing.document_date

abbrev pub current_mime : Option ExistingTagLinkMetadata → Option Text
current_mime none = none
current_mime (some existing) = existing.mime_type

-- `title` is the trimmed title and may be empty; so is `mime_type` below.
unfoldable pub derive_name : Bool → Text → Text → Option Text
derive_name auto_managed title current =
    if is_empty title
    then none
    else (if (if auto_managed then not (eq_text current title) else is_empty current)
        then some title
        else none)

unfoldable pub derive_date : Bool → Option ℕ → Option ℕ → Option ℕ
derive_date auto_managed none current = none
derive_date auto_managed (some date) none = some date
derive_date auto_managed (some date) (some current) =
    if auto_managed && not (current == date) then some date else none

unfoldable pub derive_mime : Bool → Text → Option Text → Option Text
derive_mime auto_managed mime_type none = if is_empty mime_type then none else some mime_type
derive_mime auto_managed mime_type (some current) =
    if is_empty mime_type
    then none
    else (if auto_managed && not (eq_text current mime_type) then some mime_type else none)

unfoldable pub derive_tag_link_metadata :
    (Text → Option ℕ) → TagDocumentRef → Option ExistingTagLinkMetadata → TagLinkMetadataUpdate
unfolding derive_name derive_date derive_mime parse_paperless_date
derive_tag_link_metadata to_date remote existing = record {
  file_name =
      derive_name (is_auto_managed existing) (trim (or_else remote.title []))
        (trim (current_name existing));
  document_date =
      derive_date (is_auto_managed existing) (parse_paperless_date to_date remote.created_at)
        (current_date existing);
  mime_type =
      derive_mime (is_auto_managed existing) (trim (or_else remote.mime_type []))
        (current_mime existing);
}

abbrev pub keep_or {ℓ} : {A : Type ℓ} → Option A → Option A → Option A
keep_or none old = old
keep_or (some new) old = some new

-- `update({ data })`: an absent field leaves its column.
abbrev pub write_metadata : TagLinkMetadataUpdate → PolicyDocument → PolicyDocument
write_metadata update d = record d {
  file_name = or_else update.file_name d.file_name;
  document_date = keep_or update.document_date d.document_date;
  mime_type = keep_or update.mime_type d.mime_type;
}

-- `Object.keys(data).length > 0`
abbrev pub has_keys : TagLinkMetadataUpdate → Bool
has_keys update =
    not (is_null update.file_name && is_null update.document_date && is_null update.mime_type)
