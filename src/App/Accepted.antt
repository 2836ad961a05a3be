-- ===== src/App/Accepted.antt =====
-- What the other parts may count on once a configuration is accepted (`Validate` of
-- internal/config/validate.go before `New` of internal/app/app.go).
use agent.Base.{◌≡◌, true, none, [], ◌∷◌, ◌<◌, arith}
use agent.Num.{ℤ, pos, ◌≤ℤ◌}
use agent.Text.{Text, text_eq, trim_space}
use agent.Map.{Map, lookup, insert, lookup-insert}
use agent.Config.{Config}
use agent.Config.Normalize.{normalize_ai_config}
use agent.Config.Validate.{
  Parsers, validate_token_usage, check_user_budgets, validate_circuit_breaker,
}
use agent.Config.Whole.{validate, validate_ai}
use agent.Budget.{new_budget_limiter, budget_for_identity, trim_budgets, budget_or}

module _ {F : Type 0} (p : Parsers F) (c : Config F) (ok : validate p c ≡ none) where
  pub ai-accepted : validate_ai p c.ai ≡ none
  unfolding validate
  ai-accepted = ground arith

  pub token_usage-accepted : validate_token_usage c.token_usage ≡ none
  unfolding validate
  token_usage-accepted = ground arith

  -- The defaults of the handler change nothing of a configuration that was accepted.
  pub normalize_ai_config-accepted : normalize_ai_config c.ai ≡ c.ai
  unfolding normalize_ai_config validate_ai validate_circuit_breaker
  normalize_ai_config-accepted = ground (arith, ai-accepted)

-- Each budget of a map is at least one token.
record Positive (budgets : Map Text ℤ) : Type 0 where
  positive : (k : Text) → pos 1 ≤ℤ budget_or (lookup k budgets) (pos 1)

check_user_budgets-Positive :
    (raw budgets : Map Text ℤ)
    → check_user_budgets raw ≡ none
    → Positive budgets
    → Positive (trim_budgets raw budgets)
unfolding check_user_budgets trim_budgets
check_user_budgets-Positive [] budgets ok h = h
check_user_budgets-Positive ((identity, budget) ∷ raw) budgets ok h =
    let k = trim_space identity in
    check_user_budgets-Positive raw (insert k budget budgets) (ground (arith, ok)) (record {
      positive = λ j. ground (arith, ok, lookup-insert j k budget budgets, h.positive j);
    })

no_budgets-Positive : Positive []
unfolding lookup
no_budgets-Positive = record { positive = λ k. ground arith }

-- Once a configuration is accepted that limits tokens, every identity, configured or not, has a
-- budget of at least one token, and the budget's window is at least a nanosecond, so that finding
-- the window of a time never divides by zero.
pub validate-budgets :
    {F : Type 0} (p : Parsers F) (c : Config F)
    → validate p c ≡ none
    → c.token_usage.enabled ≡ true
    → (identity : Text)
    → let l = new_budget_limiter c.token_usage in
      (0 < l.window) × (pos 1 ≤ℤ budget_for_identity l identity)
unfolding new_budget_limiter validate_token_usage budget_for_identity
validate-budgets p c ok on identity =
    let accepted = token_usage-accepted p c ok in
    let b =
      check_user_budgets-Positive c.token_usage.user_budgets [] (ground (arith, accepted, on))
        no_budgets-Positive in
    (ground (arith, accepted, on), ground (arith, accepted, on, b.positive identity))
