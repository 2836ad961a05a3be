-- ===== src/Controller/Settled.antt =====
-- What a request leaves of the budget (internal/tokenusage/middleware.go).
use agent.Base.{
  ℕ, ◌+◌, ◌-◌, ◌≡◌, ◌≤◌, refl, Bool, false, ◌&&◌, Option, none, some, arith, if◌then◌else◌, eqb_iff,
  leb, subst, Bool-cases, inl, inr,
}
use agent.Num.{ℤ, pos, pos_part, max_int, ◌≤ℤ◌}
use agent.Text.{Text, text_eq, text_beq_iff}
use agent.Map.{◌==◌, nat_eq}
use agent.Budget.{
  BudgetLimiter, Reservation, window_id, reserve, budget_for_identity, at_least_one, cleanup_locked,
}
use agent.Budget.Window.{window_of}
use agent.Budget.Reserve.{
  IsCounted, IsBudget, current_window, fits_budget, reserve-fits_budget, commit-view, release-view,
}
use agent.Usage.{Usage, RequestEstimate, usage_from_response_body}
use agent.Controller.{
  Json, HandlerRun, returned, panicked, Reply, over_budget, served, max_response_body_bytes,
  charged, settle_run, serve, reserve_and_serve,
}
use agent.Capture.{new_capture_writer, capture_calls, capture_status}

-- The tokens that a run is charged.
abbrev pub charge : Option Usage → ℕ
charge none = 0
charge (some usage) = pos_part usage.total_tokens

abbrev pub total_of : RequestEstimate → ℤ
total_of e = e.usage.total_tokens

settle_run-view :
    (o : Option Usage) (identity : Text) (later : ℕ) (r : Reservation) (l : BudgetLimiter)
    → r.done ≡ false
    → pos 0 ≤ℤ r.tokens
    → pos_part r.tokens ≤ max_int
    → IsCounted (window_of l r.identity r.window_id)
    → pos_part (window_of l r.identity r.window_id).used + charge o ≤ max_int
    → (j : Text) (i : ℕ)
    → window_of (settle_run o identity later r l).0 j i ≡ (
        if (r.identity == j) && (r.window_id == i)
        then record {
          used = pos (pos_part (window_of l j i).used + charge o);
          reserved = pos (pos_part (window_of l j i).reserved - pos_part r.tokens);
        }
        else window_of l j i)
unfolding settle_run
settle_run-view none identity later r l d t t' c fits j i =
    ground
      (arith, text_beq_iff r.identity j, eqb_iff r.window_id i, release-view later r l d t t' c j i)
settle_run-view (some u) identity later r l d t t' c fits j i =
    commit-view u.total_tokens later r l d t t' c fits j i

reserve-shape :
    (k : Text) (tokens : ℤ) (now : ℕ) (l : BudgetLimiter)
    → (reserve k tokens now l).1 ≡ (
        if (reserve k tokens now l).3
        then some (record {
          identity = k;
          window_id = window_id l now;
          tokens = at_least_one tokens;
          done = false;
        })
        else none)
unfolding reserve
reserve-shape k tokens now l = ground arith

-- The status of a response if its handler returns, and what the response then costs.
abbrev pub succeeds : Bool → HandlerRun → Bool
succeeds can_flush (panicked calls) = false
succeeds can_flush (returned calls content_type) =
    let status =
      capture_status (capture_calls calls (new_capture_writer can_flush max_response_body_bytes)) in
    leb 200 status && leb status 299

abbrev pub reported : Json → Bool → RequestEstimate → HandlerRun → ℕ
reported json can_flush e (panicked calls) = 0
reported json can_flush e (returned calls content_type) =
    let w = capture_calls calls (new_capture_writer can_flush max_response_body_bytes) in
    pos_part (usage_from_response_body json.response w.body content_type w.truncated e).total_tokens

charged-succeeds :
    (json : Json) (can_flush : Bool) (e : RequestEstimate) (next : HandlerRun)
    → charge (charged json can_flush e next)
      ≡ (if succeeds can_flush next then reported json can_flush e next else 0)
unfolding charged
charged-succeeds json can_flush e (panicked calls) = refl
charged-succeeds json can_flush e (returned calls content_type) = ground arith

-- How a request is answered once its identity is known: refused (`some none`), or by a run of the
-- handler.
abbrev pub answer_of : Reply → Option (Option HandlerRun)
answer_of (over_budget snapshot seconds) = some none
answer_of (served snapshot next) = some (some next)
answer_of _ = none

module _ (json : Json) (can_flush : Bool) (e : RequestEstimate) (k : Text) (now later : ℕ)
    (next : HandlerRun) (l : BudgetLimiter) (b : IsBudget (budget_for_identity l k))
    (c : IsCounted (current_window k now l)) where
  open_reservation : Reservation
  open_reservation = record {
    identity = k;
    window_id = window_id l now;
    tokens = at_least_one (total_of e);
    done = false;
  }

  reserve-cases :
      (reserve k (total_of e) now l).1
      ≡ (if fits_budget k (total_of e) now l then some open_reservation else none)
  unfolding open_reservation
  reserve-cases =
      ground
        (arith, reserve-fits_budget k (total_of e) now l b c, reserve-shape k (total_of e) now l)

  reserve_and_serve-answer :
      answer_of (reserve_and_serve json can_flush e k now later next l).reply
      ≡ some (if fits_budget k (total_of e) now l then some next else none)
  unfolding reserve_and_serve serve
  reserve_and_serve-answer = ground (arith, reserve-cases)

  pub reserve_and_serve-window :
      pos_part (current_window k now l).used + charge (charged json can_flush e next) ≤ max_int
      → (j : Text) (i : ℕ)
      → window_of (reserve_and_serve json can_flush e k now later next l).limiter j i ≡ (
          if fits_budget k (total_of e) now l && (k == j) && (window_id l now == i)
          then record (window_of (cleanup_locked now l) j i) {
            used = pos (
                pos_part (window_of (cleanup_locked now l) j i).used
                + charge (charged json can_flush e next));
          }
          else window_of (cleanup_locked now l) j i)
  unfolding reserve_and_serve serve open_reservation
  reserve_and_serve-window fits j i =
      let id = window_id l now in
      let l₁ = (reserve k (total_of e) now l).0 in
      let o = charged json can_flush e next in
      let (ok, view) = reserve-fits_budget k (total_of e) now l b c in
      elim (Bool-cases (fits_budget k (total_of e) now l)) [
        | inr no_room ↦ ground (arith, reserve-cases, view j i)
        | inl room ↦
            let here = view k id in
            let still : IsCounted (window_of l₁ k id) =
              ground (arith, text_beq_iff k k, eqb_iff id id) in
            ground (
              arith,
              reserve-cases,
              view j i,
              text_beq_iff k j,
              eqb_iff id i,
              settle_run-view o k later open_reservation l₁ refl (ground arith) (ground arith) still
                  (ground (arith, text_beq_iff k k, eqb_iff id id)) j i,
            )
      ]

  -- A request that fits in the budget is answered by its handler, and one that does not is refused
  -- and its handler is not run. Whatever the handler does, what it costs is settled: afterwards the
  -- identity's window has the tokens reserved that it had before, and as many more used as the
  -- response reports or is estimated at if the handler has returned with a status of 200 to 299,
  -- and none more if it panicked or has another status; every other window, and every window after
  -- a refusal, is as the cleanup at the start left it. For a budget and counts in the range of an
  -- `int`.
  pub reserve_and_serve-settled :
      let cost = if succeeds can_flush next then reported json can_flush e next else 0 in
      pos_part (current_window k now l).used + cost ≤ max_int
      → (j : Text) (i : ℕ)
      → let handled = reserve_and_serve json can_flush e k now later next l in
        let before = window_of (cleanup_locked now l) j i in
        (answer_of handled.reply
          ≡ some (if fits_budget k (total_of e) now l then some next else none))
        × (window_of handled.limiter j i ≡ (
            if fits_budget k (total_of e) now l && (k == j) && (window_id l now == i)
            then record before { used = pos (pos_part before.used + cost) }
            else before))
  reserve_and_serve-settled fits j i =
      let cost = charged-succeeds json can_flush e next in
      (
        reserve_and_serve-answer,
        subst
            (λ n. window_of (reserve_and_serve json can_flush e k now later next l).limiter j i ≡ (
              if fits_budget k (total_of e) now l && (k == j) && (window_id l now == i)
              then record (window_of (cleanup_locked now l) j i) {
                used = pos (pos_part (window_of (cleanup_locked now l) j i).used + n);
              }
              else window_of (cleanup_locked now l) j i))
            cost (reserve_and_serve-window (omega (arith, fits, cost)) j i),
      )
