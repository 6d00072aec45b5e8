-- ===== src/Paperless/Samples/Facts.antt =====
-- What the tests use of the household with one insurance.
use mathlib.Core.List.{Memᴰ}
use versi_go.Prelude.{ℕ, codes, ◌≡◌, sym, ap, ◌∙◌, [], ◌∷◌, arith}
use versi_go.Paperless.{PolicyDocument}
use versi_go.Paperless.Reconcile.Manual.{IsKeyed}
use versi_go.Paperless.Samples.{store, calm}

-- No two documents of the store share an id.
pub store_IsKeyed : IsKeyed store.documents
store_IsKeyed a b (Memᴰ.head e) (Memᴰ.head f) same = e ∙ sym f
store_IsKeyed a b (Memᴰ.head e) (Memᴰ.tail (Memᴰ.head f)) same =
    absurd (differ (sym (ap (λ d. d.id) e) ∙ same ∙ ap (λ d. d.id) f))
  where
    differ : ¬ (codes "a" ≡ codes "b")
    differ h = ground arith
store_IsKeyed a b (Memᴰ.tail (Memᴰ.head e)) (Memᴰ.head f) same =
    absurd (differ (sym (ap (λ d. d.id) e) ∙ same ∙ ap (λ d. d.id) f))
  where
    differ : ¬ (codes "b" ≡ codes "a")
    differ h = ground arith
store_IsKeyed a b (Memᴰ.tail (Memᴰ.head e)) (Memᴰ.tail (Memᴰ.head f)) same = e ∙ sym f
store_IsKeyed a b (Memᴰ.head e) (Memᴰ.tail (Memᴰ.tail m)) same = elim m [ ]
store_IsKeyed a b (Memᴰ.tail (Memᴰ.head e)) (Memᴰ.tail (Memᴰ.tail m)) same = elim m [ ]
store_IsKeyed a b (Memᴰ.tail (Memᴰ.tail m)) n same = elim m [ ]

-- No document of the store has an id that the database gives to a new row.
pub store_fresh : (d : PolicyDocument) (n : ℕ) → Memᴰ d store.documents → ¬ (d.id ≡ calm.uuid n)
store_fresh d n (Memᴰ.head e) same = absurd (differ (sym (ap (λ x. x.id) e) ∙ same))
  where
    differ : ¬ (codes "a" ≡ 110 ∷ n ∷ [])
    differ h = ground arith
store_fresh d n (Memᴰ.tail (Memᴰ.head e)) same = absurd (differ (sym (ap (λ x. x.id) e) ∙ same))
  where
    differ : ¬ (codes "b" ≡ 110 ∷ n ∷ [])
    differ h = ground arith
store_fresh d n (Memᴰ.tail (Memᴰ.tail m)) same = elim m [ ]
