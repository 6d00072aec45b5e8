-- ===== src/Ai/Budget.antt =====
-- packages/foundation/src/ai/input-token-budget.ts: the share of an AI call's input budget that each
-- document gets. A text is the list of its UTF-16 code units, as `length` and `slice` count them.
pub mod Bounds
pub mod Fairness
mod Tests
use versi_go.Prelude.{
  Text, codes, ℕ, suc, ◌+◌, ◌-◌, ◌*◌, ◌/◌, Bool, true, false, Option, none, some, List, [], ◌∷◌,
  ◌++◌, leb, ltb, ◌==◌, if◌then◌else◌, length, take, max, Number, not_a_number, infinity,
  negative_infinity, negative, natural,
}

abbrev pub chars_per_approx_token : ℕ
chars_per_approx_token = 4

-- Both line feeds, and the sentence behind them.
pub truncation_marker : Text
truncation_marker =
    10 ∷ 10 ∷ codes "[...] Dokument gekuerzt: das konfigurierte Token-Limit ist erreicht."

-- `Math.ceil(text.length / CHARS_PER_APPROX_TOKEN)`
pub approx_token_count : Text → ℕ
approx_token_count text = (length text + (chars_per_approx_token - 1)) / chars_per_approx_token

-- `text.lastIndexOf(unit)`; the code's -1 is `none`.
pub last_index_of : ℕ → Text → Option ℕ
last_index_of unit [] = none
last_index_of unit (c ∷ rest) = elim (last_index_of unit rest) [
  | some i ↦ some (suc i)
  | none ↦ if c == unit then some 0 else none
]

-- `Math.max` of two indexes, where `none` is -1.
pub max_index : Option ℕ → Option ℕ → Option ℕ
max_index none j = j
max_index (some i) none = some i
max_index (some i) (some j) = some (max i j)

-- `boundary > charLimit / 2`, false at -1; the division is by real numbers.
pub is_usable : Option ℕ → ℕ → Bool
is_usable none char_limit = false
is_usable (some i) char_limit = ltb char_limit (2 * i)

abbrev pub or_zero : Option ℕ → ℕ
or_zero none = 0
or_zero (some i) = i

pub cut_at_word_boundary : Text → ℕ → Text
cut_at_word_boundary text char_limit =
    if leb (length text) char_limit
    then text
    else (let head = take char_limit text in
        let boundary = max_index (last_index_of 32 head) (last_index_of 10 head) in
        if is_usable boundary char_limit then take (or_zero boundary) text else head)

-- `markerBudget < 20` also holds where the code's difference is negative.
pub truncate_to_chars : Text → ℕ → Text
truncate_to_chars text char_limit =
    if leb (length text) char_limit
    then text
    else (let marker_budget = char_limit - length truncation_marker in
        if ltb marker_budget 20
        then take char_limit text
        else cut_at_word_boundary text marker_budget ++ truncation_marker)

pub record InputTokenBudgetResult : Type 0 where
  pub contents : List Text
  pub truncated : Bool
  pub truncated_documents : ℕ
  pub total_tokens : ℕ

-- The sum of the counts over the documents, as `reduce` forms it.
pub total_tokens_of : List Text → ℕ
total_tokens_of [] = 0
total_tokens_of (text ∷ rest) = approx_token_count text + total_tokens_of rest

-- What the loop has pushed, and how many of these texts it had to shorten.
pub record Spent : Type 0 where
  pub contents : List Text
  pub shortened : ℕ

-- The loop of `applyInputTokenBudget` over the documents that are left. The tokens that are left
-- never fall below zero (`spend-total`).
pub spend : ℕ → List Text → Spent
spend remaining [] = record { contents = []; shortened = 0 }
spend remaining (text ∷ rest) =
    let quota = remaining / length (text ∷ rest) in
    let used = approx_token_count text in
    elim (leb used quota) [
      | true ↦
          let later = spend (remaining - used) rest in
          record { contents = text ∷ later.contents; shortened = later.shortened }
      | false ↦
          let shortened_text = truncate_to_chars text (quota * chars_per_approx_token) in
          let later = spend (remaining - approx_token_count shortened_text) rest in
          record { contents = shortened_text ∷ later.contents; shortened = suc later.shortened }
    ]

pub untouched : List Text → InputTokenBudgetResult
untouched list = record {
  contents = list;
  truncated = false;
  truncated_documents = 0;
  total_tokens = total_tokens_of list;
}

pub limited : List Text → ℕ → InputTokenBudgetResult
limited list max_tokens =
    let result = spend max_tokens list in
    record {
      contents = result.contents;
      truncated = ltb 0 result.shortened;
      truncated_documents = result.shortened;
      total_tokens = total_tokens_of list;
    }

pub apply_input_token_budget : List Text → Number → InputTokenBudgetResult
unfolding untouched limited
apply_input_token_budget list not_a_number = untouched list
apply_input_token_budget list infinity = untouched list
apply_input_token_budget list negative_infinity = untouched list
apply_input_token_budget list (negative n) = untouched list
apply_input_token_budget list (natural max_tokens) =
    if leb max_tokens 0
    then untouched list
    else if leb (total_tokens_of list) max_tokens
    then untouched list
    else limited list max_tokens
