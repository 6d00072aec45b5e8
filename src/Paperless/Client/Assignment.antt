-- ===== src/Paperless/Client/Assignment.antt =====
-- apps/worker/src/paperless-tag.client.ts, assignTagToDocument: the patch, its verification, and the bulk
-- edit that it falls back to.
use versi_go.Prelude.{
  ℕ, zero, suc, ◌+◌, Text, codes, Bool, true, false, ◌==◌, ◌||◌, ◌&&◌, Option, none, some, List, [],
  ◌∷◌, ◌++◌, if◌then◌else◌, any,
}
use versi_go.Paperless.Client.{
  Connection, DocumentBody, Reply, is_auth_status, is_unconfigured, request,
}

pub record TagAssignmentResult : Type 0 where
  pub success : Bool
  pub verified : Bool
  pub error_code : Option Text

abbrev pub verified_assignment : TagAssignmentResult
verified_assignment = record { success = true; verified = true; error_code = none }

abbrev pub refused : Text → TagAssignmentResult
refused code = record { success = false; verified = false; error_code = some code }

abbrev has_status : ℕ → {A : Type 0} → Option (Reply A) → Bool
has_status status none = false
has_status status (some res) = res.status == status

abbrev tags_of : Option (Reply DocumentBody) → Option (List ℕ)
tags_of none = none
tags_of (some res) = elim res.body [ none ↦ none | some body ↦ body.tags ]

abbrev carries : ℕ → Option (List ℕ) → Bool
carries tag_id none = false
carries tag_id (some tags) = any (λ t. t == tag_id) tags

-- `new Set([...beforeTags, tagId])`
abbrev distinct : List ℕ → List ℕ → List ℕ
distinct seen [] = []
distinct seen (t ∷ rest) =
    let dropped = distinct seen rest in
    let kept = distinct (t ∷ seen) rest in if any (λ s. s == t) seen then dropped else t ∷ kept

-- The `PATCH` of the merged tags, where the bulk edit is not offered and the tags were read.
patched : Connection → Text → ℕ → Option (List ℕ) → Bool
unfolding request
patched c document_id tag_id none = false
patched c document_id tag_id (some before_tags) =
    has_status 200
      (request c (c.server.patch_document document_id (distinct [] (before_tags ++ (tag_id ∷ [])))))

-- Up to three reads of the document, from the `attempt`-th request on; a read without an answer ends
-- the loop.
verify : Connection → Text → ℕ → ℕ → ℕ → TagAssignmentResult
unfolding request
verify c document_id tag_id attempt zero = refused (codes "VERIFY_FAILED")
verify c document_id tag_id attempt (suc rounds) =
    let rest = verify c document_id tag_id (attempt + 1) rounds in
    let after = request c (c.server.get_document document_id attempt) in
    elim after [
      | none ↦ refused (codes "VERIFY_FAILED")
      | some res ↦
          if res.status == 200 && carries tag_id (tags_of (some res))
          then verified_assignment
          else rest
    ]

bulk_error : Option (Reply (Unit {0})) → Text
bulk_error none = codes "UNREACHABLE"
bulk_error (some bulk) =
    if is_auth_status bulk.status
    then codes "AUTH_FAILED"
    else (if bulk.status == 404 then codes "DOCUMENT_NOT_FOUND" else codes "API_ERROR")

-- From the bulk edit on.
modify_tags :
    Connection → Text → ℕ → Option (List ℕ) → Option (Reply (Unit {0})) → TagAssignmentResult
unfolding patched verify bulk_error
modify_tags c document_id tag_id before_tags bulk =
    let fallback = has_status 404 bulk || has_status 405 bulk in
    let assigned = has_status 200 bulk || (fallback && patched c document_id tag_id before_tags) in
    if assigned then verify c document_id tag_id 1 3 else refused (bulk_error bulk)

unfoldable pub assign_tag_to_document : Connection → Text → ℕ → TagAssignmentResult
unfolding modify_tags request
assign_tag_to_document c document_id tag_id =
    let before = request c (c.server.get_document document_id 0) in
    if is_unconfigured c
    then refused (codes "NOT_CONFIGURED")
    else (if has_status 404 before
        then refused (codes "DOCUMENT_NOT_FOUND")
        else (if has_status 401 before || has_status 403 before
            then refused (codes "AUTH_FAILED")
            else (if carries tag_id (tags_of before)
                then verified_assignment
                else modify_tags c document_id tag_id (tags_of before)
                    (request c (c.server.post_bulk_edit document_id tag_id)))))
