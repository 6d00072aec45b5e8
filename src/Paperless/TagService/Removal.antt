-- ===== src/Paperless/TagService/Removal.antt =====
-- paperless-tag.service.ts: the documents behind a removal, and the version of a tag that is set again.
use mathlib.Core.List.{Memᴰ}
use mathlib.Core.List.Memᴰ
use versi_go.Prelude.{
  ℕ, Text, eq_text, Bool, true, false, not, ◌&&◌, ◌≡◌, refl, sym, ap, subst, ◌∙◌, Option, none,
  some, List, [], ◌∷◌, map, filter, find, any, ==_iff, arith,
}
use versi_go.Http.{Result, ok, err, ◌>>◌}
use versi_go.Paperless.{PolicyPaperlessTag, PolicyDocument, Store}
use versi_go.Paperless.Client.{TagLookupResult}
use versi_go.Paperless.World.{World}
use versi_go.Paperless.Links.{find_config, is_current, is_version}
use versi_go.Paperless.Reconcile.Manual.{IsSafe, Survives}
use versi_go.Paperless.TagService.{set_tag, save_config, is_config_of, assert_policy_write_access}
use versi_go.Paperless.TagService.Requests.{remove_tag, unassign_tag, untag}
use versi_go.Paperless.TagService.Saved.{set_tag-next, save_config-find}

-- The tables behind a removal that found a tag.
remove_tag-next :
    (w : World) (household_id user_id policy_id : Text) (s next : Store)
    → remove_tag w household_id user_id policy_id s ≡ ok (true, next)
    → (next.documents ≡ map (untag w policy_id) s.documents)
      × (next.tags ≡ filter (λ c. not (is_config_of policy_id c)) s.tags)
unfolding remove_tag unassign_tag
remove_tag-next w household_id user_id policy_id s next e =
    by_access (assert_policy_write_access household_id user_id policy_id s)
      (find_config policy_id s) e
  where
    tables : Result (Bool × Store) → Store
    tables (ok (b, t)) = t
    tables (err x) = s

    by_access :
        (access : Result (Unit {0})) (o : Option PolicyPaperlessTag)
        → access >> ok (unassign_tag o w user_id policy_id s) ≡ ok (true, next)
        → (next.documents ≡ map (untag w policy_id) s.documents)
          × (next.tags ≡ filter (λ c. not (is_config_of policy_id c)) s.tags)
    by_access (err x) o e = ground arith
    by_access (ok u) none e = ground arith
    by_access (ok u) (some existing) e =
        (ap (λ r. (tables r).documents) (sym e), ap (λ r. (tables r).tags) (sym e))

untag-IsSafe :
    (w : World) (policy_id : Text) (d : PolicyDocument)
    → d.link_origin_manual ≡ true
    → d.archived_at ≡ none
    → IsSafe d (untag w policy_id d)
untag-IsSafe w policy_id d hand shown = ground arith

untag-origin :
    (w : World) (policy_id : Text) (d : PolicyDocument)
    → (eq_text (untag w policy_id d).policy_id policy_id && (untag w policy_id d).link_origin_tag)
      ≡ false
untag-origin w policy_id d = ground arith

any-map-false :
    (p : PolicyDocument → Bool) (f : PolicyDocument → PolicyDocument) (rows : List PolicyDocument)
    → ((d : PolicyDocument) → p (f d) ≡ false)
    → any p (map f rows) ≡ false
any-map-false p f [] h = refl
any-map-false p f (d ∷ rows) h = ground (arith, h d, any-map-false p f rows h)

-- When a tag was removed, no document of the policy carries the automatic origin, and every document
-- that was linked by hand and not archived is there as before: not archived, linked by hand, under its
-- id and its reference, with its name, its date and its MIME type.
pub remove_tag-documents :
    (w : World) (household_id user_id policy_id : Text) (s next : Store)
    → remove_tag w household_id user_id policy_id s ≡ ok (true, next)
    → (any (λ d. eq_text d.policy_id policy_id && d.link_origin_tag) next.documents ≡ false)
      × ((d : PolicyDocument)
          → Memᴰ d s.documents
          → d.link_origin_manual ≡ true
          → d.archived_at ≡ none
          → Survives d next.documents)
remove_tag-documents w household_id user_id policy_id s next e =
    let documents = (remove_tag-next w household_id user_id policy_id s next e).0 in
    (
      ap (any (λ d. eq_text d.policy_id policy_id && d.link_origin_tag)) documents
          ∙ any-map-false (λ d. eq_text d.policy_id policy_id && d.link_origin_tag)
              (untag w policy_id) s.documents (untag-origin w policy_id),
      λ d m hand shown. subst (Survives d) (sym documents) (
        untag w policy_id d,
        Memᴰ.map (untag w policy_id) m,
        untag-IsSafe w policy_id d hand shown,
      ),
    )

find-removed :
    (policy_id : Text) (tags : List PolicyPaperlessTag)
    → find (is_config_of policy_id) (filter (λ c. not (is_config_of policy_id c)) tags) ≡ none
find-removed policy_id [] = refl
find-removed policy_id (c ∷ tags) = ground (arith, find-removed policy_id tags)

save_config-removed :
    (o : Option PolicyPaperlessTag) (w : World) (policy_id : Text) (tag_id : ℕ) (name : Option Text)
    (s : Store)
    → o ≡ none
    → ((save_config o w policy_id tag_id name s).0.config_version ≡ 1)
      × ((save_config o w policy_id tag_id name s).0.paperless_tag_id ≡ tag_id)
unfolding save_config
save_config-removed none w policy_id tag_id name s e = (refl, refl)
save_config-removed (some c) w policy_id tag_id name s e = ground arith

-- A tag that is set after a removal has the version 1, whichever version and tag the policy had before.
pub remove_tag-set_tag :
    (w w' : World) (lookup : TagLookupResult) (household_id user_id policy_id : Text) (tag_id : ℕ)
    (tag_name : Option Text) (s removed next : Store)
    → remove_tag w household_id user_id policy_id s ≡ ok (true, removed)
    → set_tag w' lookup household_id user_id policy_id tag_id tag_name removed ≡ ok next
    → (is_current policy_id 1 next ≡ true)
      × ((config : PolicyPaperlessTag) × ((find_config policy_id next ≡ some config)
            × (config.paperless_tag_id ≡ tag_id)))
remove_tag-set_tag w w' lookup household_id user_id policy_id tag_id tag_name s removed next e f =
    let (name, (jobs, tags)) =
      set_tag-next w' lookup household_id user_id policy_id tag_id tag_name removed next f in
    let gone : find_config policy_id removed ≡ none =
      ap (find (is_config_of policy_id))
        (remove_tag-next w household_id user_id policy_id s removed e).1
      ∙ find-removed policy_id s.tags in
    let (version, tag) =
      save_config-removed (find_config policy_id removed) w' policy_id tag_id name removed gone in
    let saved =
      ap (find (is_config_of policy_id)) tags ∙ save_config-find w' policy_id tag_id name removed in
    (
      ap (is_version 1) saved ∙ (==_iff _ 1).1 version,
      (
        (save_config (find_config policy_id removed) w' policy_id tag_id name removed).0,
        (saved, tag),
      ),
    )
