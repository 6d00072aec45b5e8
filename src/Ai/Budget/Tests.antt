-- ===== src/Ai/Budget/Tests.antt =====
-- input-token-budget.ts: concrete runs, and the properties at them.
use versi_go.Prelude.{
  Text, codes, negative, natural, ◌≤◌, ◌/◌, ◌≡◌, refl, false, List, [], ◌∷◌, ◌++◌, arith, length,
  take,
}
use versi_go.Ai.Budget.{
  truncation_marker, approx_token_count, last_index_of, max_index, is_usable, cut_at_word_boundary,
  truncate_to_chars, total_tokens_of, spend, apply_input_token_budget,
}
use versi_go.Ai.Budget.Bounds.{apply_input_token_budget-total}
use versi_go.Ai.Budget.Fairness.{IsFair, apply_input_token_budget-Keeps}

budget : Unit {0}
unfolding apply_input_token_budget spend total_tokens_of truncate_to_chars cut_at_word_boundary
    is_usable max_index last_index_of approx_token_count truncation_marker
budget = tt

abbrev short : Text
short = codes "Police 4711"

abbrev long : Text
long =
    codes
      "Die Versicherung deckt Schaeden durch Leitungswasser, Sturm und Hagel ab, sofern sie unverzueglich gemeldet wurden und kein grober Vorsatz vorliegt."

abbrev papers : List Text
papers = long ∷ short ∷ []

counts : (total_tokens_of papers ≡ 40) × (length truncation_marker ≡ 70)
unfolding budget
counts = (refl, refl)

-- 60 tokens: nothing is cut. 33 tokens: the long text keeps a hard-cut prefix; the rest fits.
runs :
    ((apply_input_token_budget papers (natural 60)).contents ≡ papers)
    × ((apply_input_token_budget papers (natural 0)).truncated ≡ false)
    × ((apply_input_token_budget papers (negative 7)).truncated ≡ false)
    × ((apply_input_token_budget papers (natural 33)).truncated_documents ≡ 1)
    × ((apply_input_token_budget papers (natural 33)).contents ≡ take 64 long ∷ short ∷ [])
    × (truncate_to_chars long 110 ≡ take 37 long ++ truncation_marker)
unfolding budget
runs = (refl, refl, refl, refl, refl, refl)

apply_input_token_budget-total_example :
    total_tokens_of (apply_input_token_budget papers (natural 33)).contents ≤ 33
apply_input_token_budget-total_example = apply_input_token_budget-total papers 33 (omega arith)

apply_input_token_budget-Keeps_example :
    IsFair (33 / length papers) papers (apply_input_token_budget papers (natural 33)).contents
apply_input_token_budget-Keeps_example = apply_input_token_budget-Keeps papers (natural 33)
