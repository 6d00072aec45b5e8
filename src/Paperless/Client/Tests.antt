-- ===== src/Paperless/Client/Tests.antt =====
-- A listing over two pages.
use versi_go.Prelude.{ℕ, codes, false, ◌≡◌, refl, ◌↔◌, ◌≤◌, ◌==◌, count, some, List, drop_while_end}
use versi_go.Paperless.Metadata.{TagDocumentRef, map_tag_document}
use versi_go.Paperless.Client.{
  list_documents_by_tag, walk_pages, on_page, fetch_page, unseen, is_unconfigured, request,
  metadata_fields,
}
use versi_go.Paperless.Client.Assignment.{assign_tag_to_document, verified_assignment}
use versi_go.Paperless.Client.Listing.{Walked, list_documents_by_tag_iff}
use versi_go.Paperless.Client.Unseen.{first_of_each}
use versi_go.Paperless.Samples.{connection, remote}

listing_runs : list_documents_by_tag connection 4 ≡ some remote
unfolding list_documents_by_tag walk_pages on_page fetch_page unseen request drop_while_end
    map_tag_document
listing_runs = refl

assignment_runs : assign_tag_to_document connection (codes "7") 4 ≡ verified_assignment
unfolding assign_tag_to_document request drop_while_end
assignment_runs = refl

list_documents_by_tag_iff_example : (list_documents_by_tag connection 4 ≡ some remote) ↔ (
    (is_unconfigured connection ≡ false)
    × ((n : ℕ) × ((docs : List TagDocumentRef) × Walked connection 4 n 1 metadata_fields docs
          × (n ≤ 50)
          × (remote ≡ first_of_each docs)))
    × ((id : ℕ) → count (λ d. d.paperless_id == id) remote ≤ 1))
list_documents_by_tag_iff_example = list_documents_by_tag_iff connection 4 remote
