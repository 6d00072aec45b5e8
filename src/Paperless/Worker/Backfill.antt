-- ===== src/Paperless/Worker/Backfill.antt =====
-- apps/worker/src/paperless-tag.processor.ts, scheduleManualLinkBackfill: what it leaves of the links
-- and of the configurations.
use versi_go.Prelude.{
  ℕ, Text, eq_text, Bool-cases, ◌&&◌, ◌≡◌, refl, ◌∙◌, none, some, inl, inr, List, [], ◌∷◌, any,
  length, map,
}
use versi_go.Paperless.{
  PolicyDocument, Store, update_document, write_document, tag_document, tagging_pending, new_job,
}
use versi_go.Paperless.World.{World}
use versi_go.Paperless.Links.{has_ref}
use versi_go.Paperless.Reconcile.Mirror.{is_tag_link}
use versi_go.Paperless.Jobs.{enqueue_row, message_of}
use versi_go.Paperless.Worker.{is_tagging, to_tagging, create_job, backfill}

any-tagging :
    (policy_id ref document_id : Text) (documents : List PolicyDocument)
    → any
        (λ d. is_tag_link policy_id d && has_ref ref d)
        (map (update_document document_id (to_tagging tagging_pending none)) documents)
      ≡ any (λ d. is_tag_link policy_id d && has_ref ref d) documents
any-tagging policy_id ref document_id [] = refl
any-tagging policy_id ref document_id (d ∷ documents) =
    elim (Bool-cases (eq_text d.id document_id)) [
      | inl here ↦ rw (here, any-tagging policy_id ref document_id documents) refl
      | inr other ↦ rw (other, any-tagging policy_id ref document_id documents) refl
    ]

pub any-backfill :
    (w : World) (policy_id ref : Text) (version : ℕ) (documents : List PolicyDocument) (s : Store)
    → any
        (λ d. is_tag_link policy_id d && has_ref ref d)
        (backfill w policy_id version documents s).documents
      ≡ any (λ d. is_tag_link policy_id d && has_ref ref d) s.documents
unfolding backfill
any-backfill w policy_id ref version [] s = refl
any-backfill w policy_id ref version (d ∷ documents) s =
    let job = new_job (w.uuid (length s.jobs)) policy_id (some d.id) tag_document version in
    let marked = write_document d.id (to_tagging tagging_pending none) s in
    let created = create_job w policy_id (some d.id) tag_document version marked in
    elim (Bool-cases (any (is_tagging policy_id d.id) s.jobs)) [
      | inl busy ↦ rw busy (any-backfill w policy_id ref version documents s)
      | inr free ↦ rw free (
          any-backfill w policy_id ref version documents (enqueue_row w (message_of job) created)
          ∙ any-tagging policy_id ref d.id s.documents)
    ]

pub backfill-tags :
    (w : World) (policy_id : Text) (version : ℕ) (documents : List PolicyDocument) (s : Store)
    → (backfill w policy_id version documents s).tags ≡ s.tags
unfolding backfill
backfill-tags w policy_id version [] s = refl
backfill-tags w policy_id version (d ∷ documents) s =
    elim (Bool-cases (any (is_tagging policy_id d.id) s.jobs)) [
      | inl busy ↦ rw busy (backfill-tags w policy_id version documents s)
      | inr free ↦ rw free (backfill-tags w policy_id version documents _)
    ]
