-- ===== src/Tests/Budgets.antt =====
-- Runs of the token budget.
use agent.Base.{◌≡◌, refl, true, false, Option, none, some, [], ◌∷◌, arith, eqb_iff, leb}
use agent.Num.{ℤ, pos, negsuc, pos_part, max_int}
use agent.Text.{Text, text_eq, codes, trim_space, text_beq_iff, contains, to_lower}
use agent.Map.{nat_eq, lookup, insert, range_update}
use agent.Budget.{
  BudgetWindow, IdentityBudget, Reservation, BudgetLimiter, reserve, release, budget_for_identity,
  at_least_one, cleanup_locked,
}
use agent.Budget.Window.{window_of}
use agent.Budget.Reserve.{IsCounted, IsBudget, current_window, reserve-idle}
use agent.Budget.Ledger.{Ledger, Steps, here, next, releases, IsConserved, held, Steps-IsConserved}
use agent.Usage.{
  ContentJson, RequestPayload, RequestEstimate, ResponseUsage, ResponsePayload, ResponseJson,
  estimate_request, usage_from_response_body, estimate_prompt_tokens, estimate_tokens,
  completion_budget_from_request, message_content_text,
}
use agent.Usage.Estimate.{estimated_at, estimate_request-overflow}
use agent.Usage.Response.{IsCharged, usage_from_response_body-IsCharged}
use agent.Capture.{write, capture_status, capture_calls}
use agent.Controller.{Json, HandlerRun, returned, charged, reserve_and_serve}
use agent.Controller.Settled.{answer_of, reserve_and_serve-settled}

abbrev ann : Text
ann = codes "ann"

abbrev used_five : BudgetWindow
used_five = record { used = pos 5; reserved = pos 3 }

abbrev account : IdentityBudget
account = record { windows = (1, used_five) ∷ []; last_seen = 100 }

abbrev limiter : BudgetLimiter
limiter = record {
  identity_header = codes "X-User-Id";
  window = 100;
  default_budget_tokens = pos 10;
  default_max_completion_tokens = pos 4;
  user_budgets = [];
  identity_idle_ttl = 50;
  accounts = (ann, account) ∷ [];
}

ten_tokens-IsBudget : IsBudget (budget_for_identity limiter ann)
unfolding budget_for_identity lookup
ten_tokens-IsBudget = record { positive = omega arith; in_range = omega arith }

window-IsCounted : IsCounted (current_window ann 120 limiter)
unfolding cleanup_locked lookup range_update insert
window-IsCounted = record {
  used_nonneg = omega arith;
  reserved_nonneg = omega arith;
  fits = omega arith;
}

idle_example :
    (reserve ann (pos 9) 150 limiter).3
    ≡ leb (pos_part (at_least_one (pos 9))) (pos_part (budget_for_identity limiter ann))
unfolding lookup
idle_example =
    reserve-idle ann (pos 9) 150 limiter refl (omega arith) (omega arith) ten_tokens-IsBudget

abbrev three : Reservation
three = record { identity = ann; window_id = 1; tokens = pos 3; done = false }

held-IsCounted : IsCounted (window_of limiter ann 1)
unfolding lookup
held-IsCounted = record {
  used_nonneg = omega arith;
  reserved_nonneg = omega arith;
  fits = omega arith;
}

abbrev one_out : Ledger
one_out = record { limiter = limiter; outstanding = three ∷ [] }

abbrev given_back : Ledger
given_back = record { limiter = (release 130 three limiter).0; outstanding = [] }

one_out-IsConserved : IsConserved one_out
unfolding held lookup budget_for_identity
one_out-IsConserved = record {
  reserved_held = λ k i. ground (arith, text_beq_iff ann k, eqb_iff 1 i);
  counted = λ k i. ground arith;
  budgets = λ k. ground arith;
  ttl_pos = omega arith;
  open_ones = ((refl, omega arith, omega arith), tt);
}

abbrev one_release : Steps one_out given_back
one_release = next here (releases [] three [] 130 refl)

ledger_run_example : IsConserved given_back
ledger_run_example = Steps-IsConserved one_out-IsConserved one_release

abbrev content : ContentJson
content = record { as_text = λ s. some s; as_parts = λ s. none }

abbrev payload : Option ℤ → RequestPayload
payload max_tokens = record {
  model = codes "m";
  messages = record { role = codes "user"; content = codes "hello" } ∷ [];
  max_tokens = max_tokens;
  max_completion_tokens = none;
}

abbrev largest : RequestPayload
largest = payload (some (pos max_int))

overflow_example :
    estimate_request content (some largest) (pos 4)
    ≡ some (estimated_at content largest (pos 4) (pos 1))
unfolding trim_space estimate_prompt_tokens estimate_tokens completion_budget_from_request
    message_content_text
overflow_example =
    estimate_request-overflow content largest (pos 4) refl refl (omega arith) (omega arith)
      (omega arith)

abbrev estimate : RequestEstimate
estimate = record {
  usage = record {
    model = codes "m";
    prompt_tokens = pos 1;
    completion_tokens = pos 1;
    total_tokens = pos 2;
    estimated = true;
  };
  completion_budget = pos 1;
  reservable = true;
}

estimate-IsCharged : IsCharged estimate.usage
estimate-IsCharged = record {
  prompt_nonneg = omega arith;
  completion_nonneg = omega arith;
  total_pos = omega arith;
}

abbrev reported : ResponseUsage
reported = record { prompt_tokens = negsuc 4; completion_tokens = pos 6; total_tokens = pos 9 }

abbrev chunk : ResponsePayload
chunk = record { model = []; contents = []; usage = some reported }

abbrev responses : ResponseJson
responses = record { as_payload = λ s. some chunk; as_chunk = λ s. some chunk }

charged_example :
    IsCharged (usage_from_response_body responses (codes "{}") (codes "json") false estimate)
charged_example =
    usage_from_response_body-IsCharged estimate estimate-IsCharged responses (codes "{}")
      (codes "json") false

abbrev json : Json
json = record { content = content; as_request = λ s. none; response = responses }

abbrev run : HandlerRun
run = returned (write (codes "{}") ∷ []) (codes "json")

settled_example :
    let handled = reserve_and_serve json true estimate ann 120 130 run limiter in
    (answer_of handled.reply ≡ some (some run))
    × (window_of handled.limiter ann 1 ≡ record { used = pos 14; reserved = pos 3 })
unfolding lookup cleanup_locked range_update insert charged capture_status capture_calls
    usage_from_response_body contains to_lower budget_for_identity
settled_example =
    reserve_and_serve-settled json true estimate ann 120 130 run limiter ten_tokens-IsBudget
      window-IsCounted (omega arith) ann 1
