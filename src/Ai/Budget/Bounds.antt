-- ===== src/Ai/Budget/Bounds.antt =====
-- input-token-budget.ts: what the returned documents cost.
use native.Mathlib.Nat.{div-le_self}
use versi_go.Prelude.{
  Text, Number, not_a_number, infinity, negative_infinity, negative, natural, ℕ, ◌-◌, ◌*◌, ◌/◌, ◌≤◌,
  ◌<◌, ◌≡◌, refl, ap, true, false, Option, none, some, ◌↔◌, inl, inr, List, [], ◌∷◌, arith, leb,
  ltb, length, take, length-append, length-take, Bool-cases,
}
use versi_go.Ai.Budget.{
  truncation_marker, approx_token_count, last_index_of, or_zero, max_index, cut_at_word_boundary,
  truncate_to_chars, total_tokens_of, spend, apply_input_token_budget,
}

-- An index that was found lies inside the text.
last_index_of-bound : (unit : ℕ) (text : Text) → or_zero (last_index_of unit text) ≤ length text
unfolding last_index_of
last_index_of-bound unit [] = omega arith
last_index_of-bound unit (c ∷ rest) = ground (arith, last_index_of-bound unit rest)

max_index-bound :
    (i j : Option ℕ) (n : ℕ) → or_zero i ≤ n → or_zero j ≤ n → or_zero (max_index i j) ≤ n
unfolding max_index
max_index-bound none j n h k = k
max_index-bound (some i) none n h k = h
max_index-bound (some i) (some j) n h k = omega arith

length-take-le {ℓ} : {A : Type ℓ} (n : ℕ) (xs : List A) → length (take n xs) ≤ n
length-take-le n xs = omega (arith, length-take n xs)

pub length-cut_at_word_boundary :
    (text : Text) (limit : ℕ) → length (cut_at_word_boundary text limit) ≤ limit
unfolding cut_at_word_boundary
length-cut_at_word_boundary text limit =
    let head = take limit text in
    let i = last_index_of 32 head in
    let j = last_index_of 10 head in
    let inside : or_zero (max_index i j) ≤ limit =
      max_index-bound i j limit
        (omega (arith, last_index_of-bound 32 head, length-take-le limit text))
        (omega (arith, last_index_of-bound 10 head, length-take-le limit text)) in
    ground (arith, inside, length-take-le limit text, length-take-le (or_zero (max_index i j)) text)

pub length-truncate_to_chars :
    (text : Text) (limit : ℕ) → length (truncate_to_chars text limit) ≤ limit
unfolding truncate_to_chars
length-truncate_to_chars text limit =
    let marker_budget = limit - length truncation_marker in
    ground (
      arith,
      length-take-le limit text,
      length-cut_at_word_boundary text marker_budget,
      length-append (cut_at_word_boundary text marker_budget) truncation_marker,
    )

-- A shortened text costs at most its quota.
pub approx_token_count-truncate :
    (text : Text) (quota : ℕ) → approx_token_count (truncate_to_chars text (quota * 4)) ≤ quota
unfolding approx_token_count
approx_token_count-truncate text quota = omega (arith, length-truncate_to_chars text (quota * 4))

-- The loop never spends more than it is given.
pub spend-total :
    (remaining : ℕ) (list : List Text) → total_tokens_of (spend remaining list).contents ≤ remaining
unfolding spend total_tokens_of
spend-total remaining [] = omega arith
spend-total remaining (text ∷ rest) =
    let quota = remaining / length (text ∷ rest) in
    let shortened_text = truncate_to_chars text (quota * 4) in
    let within : quota ≤ remaining = div-le_self remaining (length (text ∷ rest)) in
    ground (
      arith,
      within,
      approx_token_count-truncate text quota,
      spend-total (remaining - approx_token_count text) rest,
      spend-total (remaining - approx_token_count shortened_text) rest,
    )

-- With a positive finite budget the documents that are returned cost together at most the budget.
pub apply_input_token_budget-total :
    (list : List Text) (max_tokens : ℕ)
    → 0 < max_tokens
    → total_tokens_of (apply_input_token_budget list (natural max_tokens)).contents ≤ max_tokens
unfolding apply_input_token_budget
apply_input_token_budget-total list max_tokens h = ground (arith, spend-total max_tokens list)

-- The loop shortens nothing exactly where it hands every text on, and then the texts fit.
spend-unshortened :
    (remaining : ℕ) (list : List Text)
    → (spend remaining list).shortened ≡ 0
    → (spend remaining list).contents ≡ list
unfolding spend
spend-unshortened remaining [] h = refl
spend-unshortened remaining (text ∷ rest) h =
    ground (arith, spend-unshortened (remaining - approx_token_count text) rest)

spend-shortened :
    (remaining : ℕ) (list : List Text)
    → remaining < total_tokens_of list
    → 0 < (spend remaining list).shortened
spend-shortened remaining list h = elim (Bool-cases (leb (spend remaining list).shortened 0)) [
  | inl e ↦ absurd (
      omega (
        arith,
        spend-total remaining list,
        ap total_tokens_of (spend-unshortened remaining list (ground arith)),
      ))
  | inr e ↦ ground arith
]

-- For a finite budget the result says `truncated` exactly when the budget is positive and the
-- documents cost more than it; the flag agrees with the number of shortened documents; and the
-- total is that of the documents given.
pub apply_input_token_budget-truncated :
    (list : List Text) (max_tokens : ℕ)
    → ((apply_input_token_budget list (natural max_tokens)).truncated ≡ true
        ↔ (0 < max_tokens) × (max_tokens < total_tokens_of list))
      × ((apply_input_token_budget list (natural max_tokens)).truncated
          ≡ ltb 0 (apply_input_token_budget list (natural max_tokens)).truncated_documents)
      × ((apply_input_token_budget list (natural max_tokens)).total_tokens ≡ total_tokens_of list)
unfolding apply_input_token_budget
apply_input_token_budget-truncated list max_tokens = (
  (λ h. ground arith, λ h. ground (arith, spend-shortened max_tokens list)),
  ground arith,
  ground arith,
)

-- Whatever the budget, a result that is not marked `truncated` holds the documents as they came.
pub apply_input_token_budget-unchanged :
    (list : List Text) (max_tokens : Number)
    → (apply_input_token_budget list max_tokens).truncated ≡ false
    → (apply_input_token_budget list max_tokens).contents ≡ list
unfolding apply_input_token_budget
apply_input_token_budget-unchanged list not_a_number h = refl
apply_input_token_budget-unchanged list infinity h = refl
apply_input_token_budget-unchanged list negative_infinity h = refl
apply_input_token_budget-unchanged list (negative n) h = refl
apply_input_token_budget-unchanged list (natural n) h = ground (arith, spend-unshortened n list)
