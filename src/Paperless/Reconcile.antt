-- ===== src/Paperless/Reconcile.antt =====
-- apps/worker/src/paperless-tag.processor.ts (reconcileAssignments): the merge of a tag's documents
-- into the document list of a policy. A database error ends the run where it occurs and leaves what
-- was written.
pub mod Walk
pub mod Manual
pub mod Mirror
pub mod Tagged
pub mod Exact
pub mod Counts
mod Tests
pub mod Mild
pub mod Named
pub mod Finishes
use versi_go.Prelude.{
  ℕ, suc, ◌+◌, ◌%◌, Text, codes, eq_text, is_empty, Bool, true, false, not, ◌==◌, ◌||◌, ◌&&◌,
  Option, none, some, List, [], ◌∷◌, ◌++◌, if◌then◌else◌, map, filter, find, any, length, put,
  get_elem?, has,
}
use versi_go.Paperless.{
  PolicyDocument, paperless_link, PolicyPaperlessTag, Store, write_document, update_document,
  is_paperless_link, is_null, eq_some,
}
use versi_go.Paperless.Metadata.{
  TagDocumentRef, derive_tag_link_metadata, metadata_of, write_metadata, has_keys,
  TagLinkMetadataUpdate,
}
use versi_go.Paperless.World.{World, before_document, before_removal}
use versi_go.Prelude.{to_string}
use versi_go.Paperless.Links.{
  ReconcileCounts, ReconcileOutcome, aborted, add_added, add_removed, add_unchanged, add_updated,
  conflicts, finished, is_current, is_link, is_lost, local_by_ref, lose_tag, mark_tagged,
  maybe_report_progress, new_link, no_counts, refresh_link, remote_by_id, threw,
}

unfoldable pub update_link :
    World → TagDocumentRef → PolicyDocument → ReconcileCounts → Store → ReconcileOutcome
update_link w remote existing counts s =
    let update = derive_tag_link_metadata w.to_date remote (some (metadata_of existing)) in
    if has_keys update || not existing.link_origin_tag
    then finished (add_updated counts) (write_document existing.id (refresh_link update existing) s)
    else finished (add_unchanged counts) s

-- The insertion: the error that it meets other than P2002, and what is done at P2002 instead.
unfoldable pub insert_link :
    Option Text → World → Text → Text → TagDocumentRef → ReconcileCounts → Store → ReconcileOutcome
insert_link (some message) w policy_id ref remote counts s = threw message s
insert_link none w policy_id ref remote counts s =
    let inserted = s.documents ++ (new_link w policy_id ref remote s ∷ []) in
    let marked = map (mark_tagged policy_id ref) s.documents in
    if any (conflicts policy_id ref) s.documents
    then finished (add_unchanged counts) (record s { documents = marked })
    else finished (add_added counts) (record s { documents = inserted })

unfoldable pub create_link :
    World → Text → Text → TagDocumentRef → ReconcileCounts → Store → ReconcileOutcome
unfolding insert_link
create_link w policy_id ref remote counts s =
    insert_link (w.insert_error (length s.documents)) w policy_id ref remote counts s

-- `localByRef.get(ref)`, and what is done with a link that is there or not.
unfoldable pub merge_document :
    World
    → Text
    → Option PolicyDocument
    → Text
    → TagDocumentRef
    → ReconcileCounts
    → Store
    → ReconcileOutcome
unfolding update_link create_link
merge_document w policy_id (some existing) ref remote counts s =
    update_link w remote existing counts s
merge_document w policy_id none ref remote counts s = create_link w policy_id ref remote counts s

-- An abort or an exception ends the run.
abbrev pub and_then :
    ReconcileOutcome → (ReconcileCounts → Store → ReconcileOutcome) → ReconcileOutcome
and_then (aborted c s) rest = aborted c s
and_then (threw message s) rest = threw message s
and_then (finished c s) rest = rest c s

-- The loop over the remote documents.
unfoldable pub merge_documents :
    World
    → Text
    → ℕ
    → (ℕ → Store → Store)
    → List (Text × PolicyDocument)
    → List (Text × TagDocumentRef)
    → ℕ
    → ReconcileCounts
    → Store
    → ReconcileOutcome
unfolding merge_document
merge_documents w policy_id version on_progress locals [] processed counts s = finished counts s
merge_documents w policy_id version on_progress locals ((ref, remote) ∷ entries) processed counts
      s =
    let fresh = w.others (before_document processed) s in
    let reported = maybe_report_progress on_progress (processed + 1) fresh in
    if is_current policy_id version fresh
    then and_then (merge_document w policy_id (get_elem? ref locals) ref remote counts reported)
        (λ c s'.
          merge_documents w policy_id version on_progress locals entries (processed + 1) c s')
    else aborted counts fresh

-- The loop over the local links.
unfoldable pub remove_links :
    World
    → Text
    → ℕ
    → List (Text × TagDocumentRef)
    → List PolicyDocument
    → ℕ
    → ReconcileCounts
    → Store
    → ReconcileOutcome
remove_links w policy_id version entries [] index counts s = finished counts s
remove_links w policy_id version entries (link ∷ links) index counts s =
    let fresh = w.others (before_removal index) s in
    let kept = remove_links w policy_id version entries links (index + 1) counts s in
    let rest =
      remove_links w policy_id version entries links (index + 1) (add_removed counts)
        (write_document link.id (lose_tag w link) fresh) in
    if is_lost entries link
    then (if is_current policy_id version fresh then rest else aborted counts fresh)
    else kept

unfoldable pub reconcile_assignments :
    World → Text → ℕ → List TagDocumentRef → (ℕ → Store → Store) → Store → ReconcileOutcome
unfolding merge_documents remove_links
reconcile_assignments w policy_id version remote on_progress s =
    let entries = remote_by_id remote [] in
    let local_links = filter (is_link policy_id) s.documents in
    and_then
      (merge_documents w policy_id version on_progress (local_by_ref local_links []) entries 0
        no_counts s)
      λ c s'. remove_links w policy_id version entries local_links 0 c s'
