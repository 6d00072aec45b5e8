-- ===== src/Paperless/Client.antt =====
-- apps/worker/src/paperless-tag.client.ts: the worker's requests to Paperless-ngx. What the server
-- answers is an argument: for each request of a call the status and the fields that the client reads, or
-- none where the request ends without an answer (a network error or a timeout). A document
-- is named by the digits of its id, as in the path of the request, and a tag by its number.

pub mod Listing
pub mod Unseen
pub mod Answered
mod Tests
pub mod Assignment
use versi_go.Prelude.{
  ℕ, zero, suc, ◌+◌, Text, codes, drop_while_end, is_empty, trim, Bool, true, false, not, ◌==◌,
  ◌||◌, ◌&&◌, Option, none, some, List, [], ◌∷◌, ◌++◌, if◌then◌else◌, map, any,
}
use versi_go.Paperless.Metadata.{PaperlessTagDocumentEntry, TagDocumentRef, map_tag_document}

pub record Reply {ℓ} (Data : Type ℓ) : Type ℓ where
  pub status : ℕ
  -- none where the body is not of the form that the client reads
  pub body : Option Data

pub record TagBody : Type 0 where
  pub id : ℕ
  pub name : Text

pub record PaperlessPage : Type 0 where
  pub results : List PaperlessTagDocumentEntry
  -- whether `next` is truthy
  pub next : Bool

-- TAG_DOCUMENT_METADATA_FIELDS and TAG_DOCUMENT_MINIMAL_FIELDS
pub data TagDocumentFields : Type 0 where
  metadata_fields minimal_fields : TagDocumentFields

-- `GET /documents/{id}/`: the entries of `tags` that are numbers, none where `tags` is no array.
pub record DocumentBody : Type 0 where
  pub tags : Option (List ℕ)
  pub content : Option Text

pub record Server : Type 0 where
  pub get_tag : ℕ → Option (Reply TagBody)
  pub get_documents : ℕ → ℕ → TagDocumentFields → Option (Reply PaperlessPage)
  -- the answers to the successive requests for one document within one call
  pub get_document : Text → ℕ → Option (Reply DocumentBody)
  pub post_bulk_edit : Text → ℕ → Option (Reply (Unit {0}))
  pub patch_document : Text → List ℕ → Option (Reply (Unit {0}))

-- The effective settings, and the server they name.
pub record Connection : Type 0 where
  pub paperless_enabled : Option Bool
  pub paperless_url : Option Text
  pub paperless_api_token : Option Text
  pub server : Server

abbrev pub or_value {ℓ} : {A : Type ℓ} → Option A → A → A
or_value none a = a
or_value (some b) a = b

-- `url.replace(/\/+$/, '')`
abbrev pub is_slash : ℕ → Bool
is_slash c = c == 47

abbrev pub base_url : Connection → Text
base_url c = drop_while_end is_slash (or_value c.paperless_url [])

-- `!enabled || baseUrl.length === 0 || apiToken.length === 0`
abbrev pub is_unconfigured : Connection → Bool
is_unconfigured c =
    not (or_value c.paperless_enabled false)
    || is_empty (base_url c)
    || is_empty (or_value c.paperless_api_token [])

unfoldable pub request {ℓ} : {A : Type ℓ} → Connection → Option (Reply A) → Option (Reply A)
request c answer = if is_unconfigured c then none else answer

pub data TagLookupErrorKind : Type 0 where
  lookup_not_found lookup_auth_failed lookup_unreachable lookup_not_configured : TagLookupErrorKind

pub data TagLookupResult : Type 0 where
  found : ℕ → Text → TagLookupResult
  lookup_failed : TagLookupErrorKind → TagLookupResult

abbrev is_auth_status : ℕ → Bool
is_auth_status status = status == 401 || status == 403

tag_of : Option TagBody → TagLookupResult
tag_of none = lookup_failed lookup_unreachable
tag_of (some body) = found body.id body.name

read_tag : Option (Reply TagBody) → TagLookupResult
unfolding tag_of
read_tag none = lookup_failed lookup_unreachable
read_tag (some res) =
    if res.status == 404
    then lookup_failed lookup_not_found
    else (if is_auth_status res.status
        then lookup_failed lookup_auth_failed
        else (if res.status == 200 then tag_of res.body else lookup_failed lookup_unreachable))

unfoldable pub get_tag : Connection → ℕ → TagLookupResult
unfolding read_tag request
get_tag c tag_id =
    if is_unconfigured c
    then lookup_failed lookup_not_configured
    else read_tag (request c (c.server.get_tag tag_id))

-- `text.length > 0 ? text : null`
usable_text : Option DocumentBody → Option Text
usable_text none = none
usable_text (some body) =
    let text = trim (or_value body.content []) in if is_empty text then none else some text

read_content : Option (Reply DocumentBody) → Option Text
unfolding usable_text
read_content none = none
read_content (some res) = if res.status == 200 then usable_text res.body else none

unfoldable pub get_document_content : Connection → Text → Option Text
unfolding read_content request
get_document_content c paperless_id =
    read_content (request c (c.server.get_document paperless_id 0))

abbrev pub paperless_tag_max_pages : ℕ
paperless_tag_max_pages = 50

-- `all.filter((d) => seen.has(d.paperlessId) ? false : (seen.add(d.paperlessId), true))`
unfoldable pub unseen : List ℕ → List TagDocumentRef → List TagDocumentRef
unseen seen [] = []
unseen seen (d ∷ rest) =
    let dropped = unseen seen rest in
    let kept = unseen (d.paperless_id ∷ seen) rest in
    if any (λ id. id == d.paperless_id) seen then dropped else d ∷ kept

-- `res.status === 400 && fields !== TAG_DOCUMENT_MINIMAL_FIELDS`
abbrev pub is_rejected : TagDocumentFields → Option (Reply PaperlessPage) → Bool
is_rejected minimal_fields res = false
is_rejected metadata_fields none = false
is_rejected metadata_fields (some res) = res.status == 400

-- The page, or none where `!res || res.status !== 200 || !isPage(res.body)`.
abbrev pub page_of : Option (Reply PaperlessPage) → Option PaperlessPage
page_of none = none
page_of (some res) = if res.status == 200 then res.body else none

-- The first request of a round, and the second one with the minimal fields: the page, and the fields
-- of the later rounds.
unfoldable pub fetch_page :
    Connection → ℕ → ℕ → TagDocumentFields → TagDocumentFields × Option PaperlessPage
unfolding request
fetch_page c tag_id page fields =
    let res = request c (c.server.get_documents tag_id page fields) in
    let again = request c (c.server.get_documents tag_id page minimal_fields) in
    if is_rejected fields res then (minimal_fields, page_of again) else (fields, page_of res)

-- What a round does with its page, and the later rounds.
unfoldable pub on_page :
    TagDocumentFields × Option PaperlessPage
    → List TagDocumentRef
    → (TagDocumentFields → List TagDocumentRef → Option (List TagDocumentRef))
    → Option (List TagDocumentRef)
on_page (next_fields, none) all rest = none
on_page (next_fields, some found_page) all rest =
    let gathered = all ++ map map_tag_document found_page.results in
    if found_page.next then rest next_fields gathered else some (unseen [] gathered)

-- The loop over the pages: `rounds` of them are left.
unfoldable pub walk_pages :
    Connection → ℕ → ℕ → ℕ → TagDocumentFields → List TagDocumentRef → Option (List TagDocumentRef)
unfolding fetch_page on_page
walk_pages c tag_id zero page fields all = none
walk_pages c tag_id (suc rounds) page fields all =
    on_page (fetch_page c tag_id page fields) all
      λ next_fields gathered. walk_pages c tag_id rounds (page + 1) next_fields gathered

unfoldable pub list_documents_by_tag : Connection → ℕ → Option (List TagDocumentRef)
unfolding walk_pages
list_documents_by_tag c tag_id =
    if is_unconfigured c
    then none
    else walk_pages c tag_id paperless_tag_max_pages 1 metadata_fields []
