-- ===== src/Ai/Budget/Fairness.antt =====
-- input-token-budget.ts: which documents are passed on as they are, and what becomes of the others.
use native.Mathlib.Nat.{div-mul-le_self, le-div_iff_mul-le}
use versi_go.Prelude.{
  Text, Number, not_a_number, infinity, negative_infinity, negative, natural, ℕ, zero, suc, ◌-◌,
  ◌*◌, ◌/◌, ◌≤◌, ◌<◌, ◌≡◌, refl, ap, sym, ◌⊎◌, inl, inr, List, [], ◌∷◌, ◌++◌, arith, leb, ltb,
  length, take, Bool-cases, false,
}
use versi_go.Ai.Budget.{
  truncation_marker, approx_token_count, or_zero, max_index, last_index_of, is_usable,
  total_tokens_of, cut_at_word_boundary, truncate_to_chars, spend, apply_input_token_budget,
}
use versi_go.Ai.Budget.Bounds.{approx_token_count-truncate}

-- Each returned text belongs to the document at its place: it is that document, a prefix of it, or
-- a prefix with the marker behind it; and it is the document itself where that costs `share`.
abbrev pub IsShortening : Text → Text → Type 0
IsShortening text out =
    (out ≡ text)
    ⊎ (((n : ℕ) × (out ≡ take n text)) ⊎ ((n : ℕ) × (out ≡ take n text ++ truncation_marker)))

-- Places of the two lists match, none is dropped or added.
abbrev pub IsFair : ℕ → List Text → List Text → Type 0
IsFair share [] [] = Unit
IsFair share [] (y ∷ ys) = ⊥
IsFair share (x ∷ xs) [] = ⊥
IsFair share (x ∷ xs) (y ∷ ys) =
    IsShortening x y × ((share < approx_token_count x) ⊎ (y ≡ x)) × IsFair share xs ys

take-length : (text : Text) → take (length text) text ≡ text
take-length [] = refl
take-length (c ∷ rest) = ap (◌∷◌ c) (take-length rest)

cut_at_word_boundary-prefix :
    (text : Text) (limit : ℕ) → (n : ℕ) × (cut_at_word_boundary text limit ≡ take n text)
unfolding cut_at_word_boundary
cut_at_word_boundary-prefix text limit =
    let head = take limit text in
    let boundary = max_index (last_index_of 32 head) (last_index_of 10 head) in
    elim (Bool-cases (leb (length text) limit)) [
      | inl short ↦ (length text, rw short (sym (take-length text)))
      | inr long ↦ elim (Bool-cases (is_usable boundary limit)) [
        | inl e ↦ (or_zero boundary, rw (long, e))
        | inr e ↦ (limit, rw (long, e))
      ]
    ]

truncate_to_chars-IsShortening :
    (text : Text) (limit : ℕ) → IsShortening text (truncate_to_chars text limit)
unfolding truncate_to_chars
truncate_to_chars-IsShortening text limit =
    let budget = limit - length truncation_marker in
    elim (Bool-cases (leb (length text) limit)) [
      | inl short ↦ inl (rw short)
      | inr long ↦ elim (Bool-cases (ltb budget 20)) [
        | inl e ↦ inr (inl (limit, rw (long, e)))
        | inr e ↦
            let (n, cut) = cut_at_word_boundary-prefix text budget in
            inr (inr (n, rw (long, e, cut)))
      ]
    ]

-- A share that fits the documents that are left still fits them after one has been charged.
share_left :
    (share remaining documents charge : ℕ)
    → share * suc documents ≤ remaining
    → charge ≤ remaining / suc documents
    → share * documents ≤ remaining - charge
share_left share remaining documents charge h k =
    let quota = remaining / suc documents in
    let below : share ≤ quota = (le-div_iff_mul-le {k = suc documents} (omega arith)).1 h in
    let scaled : share * documents ≤ quota * documents = grind arith in
    omega (arith, div-mul-le_self remaining (suc documents))

-- What one round of the loop hands on.
spend-kept :
    (remaining : ℕ) (text : Text) (rest : List Text)
    → approx_token_count text ≤ remaining / suc (length rest)
    → (spend remaining (text ∷ rest)).contents
      ≡ text ∷ (spend (remaining - approx_token_count text) rest).contents
unfolding spend
spend-kept remaining text rest h = ground arith

abbrev shortened_to : ℕ → Text → ℕ → Text
shortened_to remaining text documents = truncate_to_chars text (remaining / documents * 4)

spend-shortened_text :
    (remaining : ℕ) (text : Text) (rest : List Text)
    → remaining / suc (length rest) < approx_token_count text
    → (spend remaining (text ∷ rest)).contents
      ≡ shortened_to remaining text (suc (length rest))
        ∷ (spend
            (remaining - approx_token_count (shortened_to remaining text (suc (length rest))))
            rest).contents
unfolding spend
spend-shortened_text remaining text rest h = ground arith

spend-IsFair :
    (share remaining : ℕ) (list : List Text)
    → share * length list ≤ remaining
    → IsFair share list (spend remaining list).contents
spend-IsFair share remaining [] h = unfold spend in tt
spend-IsFair share remaining (text ∷ rest) h =
    let quota = remaining / suc (length rest) in
    let out = shortened_to remaining text (suc (length rest)) in
    let below : share ≤ quota = (le-div_iff_mul-le {k = suc (length rest)} (omega arith)).1 h in
    elim (Bool-cases (leb (approx_token_count text) quota)) [
      | inl e ↦
          let fits : approx_token_count text ≤ quota = ground arith in
          let left = share_left share remaining (length rest) (approx_token_count text) h fits in
          rw (spend-kept remaining text rest fits)
            (inl refl, inr refl, spend-IsFair share (remaining - approx_token_count text) rest left)
      | inr e ↦
          let over : quota < approx_token_count text = ground arith in
          let left =
            share_left share remaining (length rest) (approx_token_count out) h
              (approx_token_count-truncate text quota) in
          rw (spend-shortened_text remaining text rest over) (
            truncate_to_chars-IsShortening text (quota * 4),
            inl (omega arith),
            spend-IsFair share (remaining - approx_token_count out) rest left,
          )
    ]

untouched-IsFair : (share : ℕ) (list : List Text) → IsFair share list list
untouched-IsFair share [] = tt
untouched-IsFair share (x ∷ xs) = (inl refl, inr refl, untouched-IsFair share xs)

-- What a budget promises of the texts that it returns: no document is touched by a budget that is no
-- finite number, 0 or below 0, and any other one is fair at an equal share.
abbrev pub Keeps : Number → List Text → List Text → Type 0
Keeps (natural (suc n)) list out = IsFair (suc n / length list) list out
Keeps _ list out = out ≡ list

-- A budget that is no finite number, 0 or a negative integer returns the documents as they are. One
-- that is a positive integer returns a text for every document, in order, each the document itself, a
-- prefix of it or a prefix with the marker; and a document that costs at most an equal share of the
-- budget (of the budget divided by the number of documents, rounded down) is returned whole.
pub apply_input_token_budget-Keeps :
    (list : List Text) (max_tokens : Number)
    → Keeps max_tokens list (apply_input_token_budget list max_tokens).contents
unfolding apply_input_token_budget
apply_input_token_budget-Keeps list not_a_number = refl
apply_input_token_budget-Keeps list infinity = refl
apply_input_token_budget-Keeps list negative_infinity = refl
apply_input_token_budget-Keeps list (negative n) = refl
apply_input_token_budget-Keeps list (natural zero) = refl
apply_input_token_budget-Keeps list (natural (suc n)) =
    elim (Bool-cases (leb (total_tokens_of list) (suc n))) [
      | inl f ↦ rw (positive n, f) (untouched-IsFair (suc n / length list) list)
      | inr f ↦
          rw (positive n, f)
            (spend-IsFair (suc n / length list) (suc n) list
              (div-mul-le_self (suc n) (length list)))
    ]
  where
    positive : (n : ℕ) → leb (suc n) 0 ≡ false
    positive n = ground arith
