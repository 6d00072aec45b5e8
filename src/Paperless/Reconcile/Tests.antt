-- ===== src/Paperless/Reconcile/Tests.antt =====
-- A merge of two documents of the tag into a list with a lost and a manual link.
use mathlib.Core.List.{Memᴰ}
use versi_go.Prelude.{
  ℕ, codes, true, ◌≡◌, refl, ◌↔◌, ◌&&◌, none, some, any, has, put, get_elem?, eq_text, trim,
  drop_while, drop_while_end, is_space,
}
use versi_go.Paperless.{Store}
use versi_go.Paperless.Metadata.{
  derive_tag_link_metadata, derive_name, derive_date, derive_mime, parse_paperless_date,
  TagDocumentRef,
}
use versi_go.Prelude.{to_string, digits}
use versi_go.Paperless.Reconcile.{
  reconcile_assignments, merge_documents, remove_links, merge_document, update_link, create_link,
  insert_link,
}
use versi_go.Paperless.Links.{
  ReconcileCounts, ReconcileOutcome, finished, aborted, threw, no_counts, remote_by_id,
  local_by_ref, put_link, has_ref,
}
use versi_go.Paperless.Reconcile.Walk.{store_after}
use versi_go.Paperless.Reconcile.Manual.{Survives, reconcile_assignments-IsSafe}
use versi_go.Paperless.Reconcile.Mirror.{is_tag_link}
use versi_go.Paperless.Reconcile.Exact.{reconcile_assignments-exact}
use versi_go.Paperless.Reconcile.Named.{names}
use versi_go.Paperless.Samples.Facts.{store_IsKeyed, store_fresh}
use versi_go.Paperless.Samples.{calm, remote, manual, store}

abbrev silent : ℕ → Store → Store
silent n s = s

abbrev merged : ReconcileOutcome
merged = reconcile_assignments calm (codes "p") 1 remote silent store

abbrev counts_of : ReconcileOutcome → ReconcileCounts
counts_of (finished c s) = c
counts_of (aborted c s) = c
counts_of (threw message s) = no_counts

-- One document is added, one link is refreshed, and one is lost.
merge_runs : counts_of merged ≡ record { added = 1; updated = 1; unchanged = 0; removed = 1 }
unfolding reconcile_assignments merge_documents remove_links merge_document update_link create_link
    insert_link remote_by_id local_by_ref put_link has put get_elem? eq_text to_string digits
    derive_tag_link_metadata derive_name derive_date derive_mime parse_paperless_date trim
    drop_while drop_while_end is_space
merge_runs = refl

finishes : merged ≡ finished (counts_of merged) (store_after merged)
unfolding reconcile_assignments merge_documents remove_links merge_document update_link create_link
    insert_link remote_by_id local_by_ref put_link has put get_elem? eq_text to_string digits
    derive_tag_link_metadata derive_name derive_date derive_mime parse_paperless_date trim
    drop_while drop_while_end is_space
finishes = refl

reconcile_assignments-exact_example :
    (any (λ d. is_tag_link (codes "p") d && has_ref (codes "5") d) (store_after merged).documents
      ≡ true)
    ↔ (any (names (codes "5")) remote ≡ true)
reconcile_assignments-exact_example =
    reconcile_assignments-exact calm (λ m s. refl) (codes "p") 1 remote silent (λ n s. refl) store
      store_IsKeyed store_fresh (counts_of merged) (store_after merged) finishes (codes "5")

reconcile_assignments-IsSafe_example : Survives manual (store_after merged).documents
reconcile_assignments-IsSafe_example =
    reconcile_assignments-IsSafe calm (λ m s. refl) (codes "p") 1 remote silent (λ n s. refl) store
      store_IsKeyed manual (Memᴰ.tail (Memᴰ.head refl)) refl refl

abbrev police : TagDocumentRef
police = record {
  paperless_id = 7;
  title = some (codes " Police ");
  created_at = none;
  mime_type = some (codes "application/pdf");
}
