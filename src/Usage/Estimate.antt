-- ===== src/Usage/Estimate.antt =====
-- The estimate of a request before it is served (internal/tokenusage/usage.go).
use agent.Base.{ℕ, ◌+◌, ◌≡◌, ◌≤◌, ◌<◌, ap, true, false, some, arith, leb, if◌then◌else◌}
use agent.Num.{ℤ, pos, pos_part, max_int, add_int, add_int-pos, add_int-overflow}
use agent.Text.{trim_space, is_empty}
use agent.Usage.{
  ContentJson, RequestPayload, RequestEstimate, estimate_prompt_tokens,
  completion_budget_from_request, estimate_request, is_nil,
}

pub completion_budget-nonneg :
    (p : RequestPayload) (default : ℤ)
    → completion_budget_from_request p default
      ≡ pos (pos_part (completion_budget_from_request p default))
unfolding completion_budget_from_request
completion_budget-nonneg p default = ground arith

-- The counts of a request that is estimated: its prompt, and the completion that it may take.
abbrev pub prompt_of : ContentJson → RequestPayload → ℕ
prompt_of json p = estimate_prompt_tokens json p.messages

abbrev pub completion_of : RequestPayload → ℤ → ℕ
completion_of p default = pos_part (completion_budget_from_request p default)

-- A reservable estimate of the request at a total.
abbrev pub estimated_at : ContentJson → RequestPayload → ℤ → ℤ → RequestEstimate
estimated_at json p default total = record {
  usage = record {
    model = trim_space p.model;
    prompt_tokens = pos (prompt_of json p);
    completion_tokens = pos (completion_of p default);
    total_tokens = total;
    estimated = true;
  };
  completion_budget = pos (completion_of p default);
  reservable = true;
}

module _ (json : ContentJson) (p : RequestPayload) (default : ℤ)
    (named : is_empty (trim_space p.model) ≡ false) (asks : is_nil p.messages ≡ false) where
  -- A request with a model and a message is estimated, and reservable, at its prompt and its
  -- completion together, and at one token if that is none, as long as the sum is in the range of an
  -- `int`.
  pub estimate_request-total :
      prompt_of json p + completion_of p default ≤ max_int
      → estimate_request json (some p) default
        ≡ some (
            estimated_at json p default (
              if leb (prompt_of json p + completion_of p default) 0
              then pos 1
              else pos (prompt_of json p + completion_of p default)))
  unfolding estimate_request
  estimate_request-total h = ground (
    arith,
    completion_budget-nonneg p default,
    ap (add_int (pos (prompt_of json p))) (completion_budget-nonneg p default),
    add_int-pos (prompt_of json p) (completion_of p default),
  )

  -- Where the sum leaves the range of an `int`, the request is estimated, and reservable, at one
  -- token only, whatever it asks for.
  pub estimate_request-overflow :
      prompt_of json p ≤ max_int
      → completion_of p default ≤ max_int
      → max_int < prompt_of json p + completion_of p default
      → estimate_request json (some p) default ≡ some (estimated_at json p default (pos 1))
  unfolding estimate_request
  estimate_request-overflow hp hc h = ground (
    arith,
    completion_budget-nonneg p default,
    ap (add_int (pos (prompt_of json p))) (completion_budget-nonneg p default),
    add_int-overflow (prompt_of json p) (completion_of p default),
  )
