-- ===== src/Metrics/Counts.antt =====
-- The success rate of a backend (internal/observability/request_metrics.go).
use agent.Base.{
  ℕ, ◌+◌, ◌^◌, ◌≡◌, ◌≤◌, ◌<◌, refl, ap, ◌∙◌, ◌&&◌, Option, none, some, List, [], ◌∷◌, ◌++◌, arith,
  if◌then◌else◌, length, eqb,
}
use agent.Num.{ℤ, pos, ltb_ℤ}
use agent.Text.{Text, text_eq, text_beq_iff, is_empty}
use agent.Map.{◌==◌, lookup, lookup-insert}
use agent.Metrics.{
  request_result_success, request_result_failure, or_zero, counted, Metrics, VecCall, inc,
  observe_seconds, set_rate, requests_total, request_duration, request_success_rate, observe, rate,
  count_request, show_rate, observe_model_backend_request,
}

-- A finished request: its backend, its result and its duration.
abbrev pub Finished : Type 0
Finished = Text × Text × ℤ

-- How many of the requests a backend had, and how many of those succeeded.
unfoldable pub requests_of : Text → List Finished → ℕ
requests_of backend [] = 0
requests_of backend ((b, result, d) ∷ rs) =
    let n = requests_of backend rs in if b == backend then n + 1 else n

unfoldable pub successes_of : Text → List Finished → ℕ
successes_of backend [] = 0
successes_of backend ((b, result, d) ∷ rs) =
    let n = successes_of backend rs in
    if (b == backend) && (result == request_result_success) then n + 1 else n

successes-le :
    (backend : Text) (rs : List Finished) → successes_of backend rs ≤ requests_of backend rs
unfolding successes_of requests_of
successes-le backend [] = omega arith
successes-le backend ((b, result, d) ∷ rs) = ground (arith, successes-le backend rs)

requests-le : (backend : Text) (rs : List Finished) → requests_of backend rs ≤ length rs
unfolding requests_of
requests-le backend [] = omega arith
requests-le backend ((b, result, d) ∷ rs) = ground (arith, requests-le backend rs)

-- What the success rate of a backend stands at after calls on the vectors, if it was set at all.
abbrev pub after_call : {F : Type 0} → Text → VecCall F → Option F → Option F
after_call backend (set_rate request_success_rate (b ∷ []) r) o = if b == backend then some r else o
after_call backend _ o = o

unfoldable pub shown : {F : Type 0} → Text → List (VecCall F) → Option F → Option F
shown backend [] o = o
shown backend (c ∷ cs) o = shown backend cs (after_call backend c o)

shown-append :
    {F : Type 0} (backend : Text) (cs ds : List (VecCall F)) (o : Option F)
    → shown backend (cs ++ ds) o ≡ shown backend ds (shown backend cs o)
unfolding shown
shown-append backend [] ds o = refl
shown-append backend (c ∷ cs) ds o = shown-append backend cs ds (after_call backend c o)

-- A result that is not given is no success either.
result_or_failure :
    (result : Text)
    → ((if is_empty result then request_result_failure else result) == request_result_success)
      ≡ (result == request_result_success)
result_or_failure [] = refl
result_or_failure (c ∷ cs) = refl

module _ {F : Type 0} (ratio : ℕ → ℕ → F) (no_rate : F) where
  request-shown :
      (backend b result : Text) (d : ℤ) (m : Metrics F)
      → let given = if is_empty result then request_result_failure else result in
        let c = counted given (or_zero (lookup b m.request_stats)) in
        shown backend (observe_model_backend_request ratio no_rate b result d m).calls none
        ≡ (if b == backend then some (rate ratio no_rate c) else shown backend m.calls none)
  unfolding observe_model_backend_request count_request show_rate observe shown
  request-shown backend b result d m =
      let given = if is_empty result then request_result_failure else result in
      let seconds = if ltb_ℤ d (pos 0) then pos 0 else d in
      let counts =
        inc requests_total (b ∷ given ∷ [])
        ∷ observe_seconds request_duration (b ∷ given ∷ []) seconds
        ∷ [] in
      let c = counted given (or_zero (lookup b m.request_stats)) in
      let last = set_rate request_success_rate (b ∷ []) (rate ratio no_rate c) ∷ [] in
      shown-append backend (m.calls ++ counts) last none
      ∙ ap (shown backend last) (shown-append backend m.calls counts none)

  -- New metrics that have observed requests one after the other, the last one first in the list.
  unfoldable pub observe_all : List Finished → Metrics F
  unfolding observe_model_backend_request
  observe_all [] = record { request_stats = []; calls = [] }
  observe_all ((backend, result, d) ∷ rs) =
      observe_model_backend_request ratio no_rate backend result d (observe_all rs)

  observe_all-counts :
      (backend : Text) (rs : List Finished)
      → length rs < 2 ^ 64
      → let c = or_zero (lookup backend (observe_all rs).request_stats) in
        (c.success ≡ successes_of backend rs) × (c.total ≡ requests_of backend rs)
  unfolding observe_all observe_model_backend_request count_request show_rate observe successes_of
      requests_of lookup
  observe_all-counts backend [] h = (refl, refl)
  observe_all-counts backend ((b, result, d) ∷ rs) h =
      let (s, t) = observe_all-counts backend rs (omega (arith, h)) in
      let given = if is_empty result then request_result_failure else result in
      let c = counted given (or_zero (lookup b (observe_all rs).request_stats)) in
      ground (
        arith,
        s,
        t,
        h,
        result_or_failure result,
        successes-le backend rs,
        requests-le backend rs,
        text_beq_iff b backend,
        lookup-insert backend b c (observe_all rs).request_stats,
      )

  -- The gauge shows each backend the share of its requests that succeeded among all that it had,
  -- whatever requests of other backends came between, and nothing for a backend that had none; the
  -- share is never more than the whole. For fewer than 2^64 requests, each of which has set the
  -- gauge before the next one is counted.
  pub observe_all-shown :
      (backend : Text) (rs : List Finished)
      → length rs < 2 ^ 64
      → (shown backend (observe_all rs).calls none ≡ (
          if eqb (requests_of backend rs) 0
          then none
          else some (ratio (successes_of backend rs) (requests_of backend rs))))
        × (successes_of backend rs ≤ requests_of backend rs)
  unfolding observe_all observe_model_backend_request count_request show_rate observe successes_of
      requests_of shown
  observe_all-shown backend [] h = (refl, omega arith)
  observe_all-shown backend ((b, result, d) ∷ rs) h =
      let (before, le) = observe_all-shown backend rs (omega (arith, h)) in
      let (s, t) = observe_all-counts b rs (omega (arith, h)) in
      let called = request-shown backend b result d (observe_all rs) in
      let given = if is_empty result then request_result_failure else result in
      (
        ground (
          arith,
          called,
          before,
          s,
          t,
          h,
          result_or_failure result,
          successes-le b rs,
          requests-le b rs,
          text_beq_iff b backend,
        ),
        successes-le backend ((b, result, d) ∷ rs),
      )
