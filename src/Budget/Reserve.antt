-- ===== src/Budget/Reserve.antt =====
-- What `reserve`, `Commit` and `Release` of internal/tokenusage/budget.go do to the windows.
use agent.Base.{
  ℕ, ◌+◌, ◌-◌, ◌≡◌, ◌≤◌, ◌<◌, Bool, false, ◌&&◌, some, leb, arith, if◌then◌else◌, eqb_iff,
}
use agent.Num.{ℤ, pos, pos_part, ◌≤ℤ◌, max_int, sub_int, add_int, add_int-pos}
use agent.Text.{Text, text_eq, text_beq_iff}
use agent.Map.{◌==◌, nat_eq, lookup}
use agent.Budget.{
  BudgetWindow, IdentityBudget, Reservation, BudgetLimiter, empty_window, or_empty_window,
  account_locked, window_id, cleanup_locked, reserve, commit, release, budget_for_identity,
  snapshot_locked, at_least_one, committed, give_back,
}
use agent.Budget.Window.{
  window_of, account_locked-view, store_window-view, settle-view, cleanup_locked-view,
}

-- A window whose counts fit in an `int` together.
pub record IsCounted (w : BudgetWindow) : Type 0 where
  pub used_nonneg : pos 0 ≤ℤ w.used
  pub reserved_nonneg : pos 0 ≤ℤ w.reserved
  pub fits : pos_part w.used + pos_part w.reserved ≤ max_int

abbrev pub taken : BudgetWindow → ℕ
taken w = pos_part w.used + pos_part w.reserved

-- A budget that the configuration's validation lets through, in the range of an `int`.
pub record IsBudget (limit : ℤ) : Type 0 where
  pub positive : pos 1 ≤ℤ limit
  pub in_range : pos_part limit ≤ max_int

snapshot-remaining :
    (l : BudgetLimiter) (w : BudgetWindow) (limit : ℤ) (id : ℕ)
    → IsCounted w
    → IsBudget limit
    → (snapshot_locked l w limit id).remaining ≡ pos (pos_part limit - taken w)
unfolding snapshot_locked sub_int
snapshot-remaining l w limit id c b = ground arith

cleanup-config :
    (now : ℕ) (l : BudgetLimiter)
    → ((cleanup_locked now l).window ≡ l.window)
      × ((cleanup_locked now l).user_budgets ≡ l.user_budgets)
      × ((cleanup_locked now l).default_budget_tokens ≡ l.default_budget_tokens)
unfolding cleanup_locked
cleanup-config now l = ground arith

account-config :
    (k : Text) (now : ℕ) (l : BudgetLimiter)
    → ((account_locked k now l).0.window ≡ l.window)
      × ((account_locked k now l).0.user_budgets ≡ l.user_budgets)
      × ((account_locked k now l).0.default_budget_tokens ≡ l.default_budget_tokens)
unfolding account_locked
account-config k now l = ground arith

-- The window that a reservation is for, as the cleanup leaves it.
abbrev pub current_window : Text → ℕ → BudgetLimiter → BudgetWindow
current_window k now l = window_of (cleanup_locked now l) k (window_id l now)

-- Whether a request for so many tokens fits in the budget, over the integers.
abbrev pub fits_budget : Text → ℤ → ℕ → BudgetLimiter → Bool
fits_budget k tokens now l =
    leb (pos_part (at_least_one tokens) + taken (current_window k now l))
      (pos_part (budget_for_identity l k))

module _ (k : Text) (tokens : ℤ) (now : ℕ) (l : BudgetLimiter) where
  reserve-limit :
      budget_for_identity (account_locked k now (cleanup_locked now l)).0 k
      ≡ budget_for_identity l k
  unfolding budget_for_identity
  reserve-limit = ground (arith, cleanup-config now l, account-config k now (cleanup_locked now l))

  -- A reservation is granted exactly if the tokens, at least one, together with those used and
  -- reserved in the identity's current window stay within its budget; then they are added to the
  -- window's reserved tokens with no overflow. Every other window is as the cleanup leaves it, and
  -- so is every window if the reservation is refused. For a budget and a window in range.
  pub reserve-fits_budget :
      IsBudget (budget_for_identity l k)
      → IsCounted (current_window k now l)
      → ((reserve k tokens now l).3 ≡ fits_budget k tokens now l)
        × ((j : Text) (i : ℕ)
            → window_of (reserve k tokens now l).0 j i ≡ (
                if fits_budget k tokens now l && (k == j) && (window_id l now == i)
                then record (window_of (cleanup_locked now l) j i) {
                  reserved = pos (
                      pos_part (window_of (cleanup_locked now l) j i).reserved
                      + pos_part (at_least_one tokens));
                }
                else window_of (cleanup_locked now l) j i))
  unfolding reserve
  reserve-fits_budget b c =
      let id = window_id l now in
      let l₀ = cleanup_locked now l in
      let l₁ = (account_locked k now l₀).0 in
      let a = (account_locked k now l₀).1 in
      let w = or_empty_window (lookup id a.windows) in
      let same : w ≡ current_window k now l = (account_locked-view k now l₀ k id).1 in
      let left =
        snapshot-remaining l₁ w (budget_for_identity l₁ k) id (rw same c) (rw reserve-limit b) in
      let n = pos_part (at_least_one tokens) in
      let w' : BudgetWindow = record w { reserved = add_int w.reserved (at_least_one tokens) } in
      (
        ground (arith, left, same, reserve-limit),
        λ j i. ground (
          arith,
          left,
          same,
          reserve-limit,
          text_beq_iff k j,
          eqb_iff id i,
          account_locked-view k now l₀ j i,
          account_locked-view k now l₀ k i,
          store_window-view k j id i a w' l₁,
          add_int-pos (pos_part w.reserved) n,
        ),
      )

  -- An identity that has been idle for the time to live has its counts forgotten, also those of the
  -- window that is still running: the next reservation of it is granted exactly if its tokens
  -- alone are within the budget, whatever was used or reserved in that window before.
  pub reserve-idle :
      {a : IdentityBudget}
      → lookup k l.accounts ≡ some a
      → 0 < l.identity_idle_ttl
      → a.last_seen + l.identity_idle_ttl ≤ now
      → IsBudget (budget_for_identity l k)
      → (reserve k tokens now l).3
        ≡ leb (pos_part (at_least_one tokens)) (pos_part (budget_for_identity l k))
  reserve-idle {a} found ttl idle b =
      let view = cleanup_locked-view now l k (window_id l now) ttl in
      let gone : current_window k now l ≡ empty_window = ground arith in
      ground (arith, reserve-fits_budget b (rw gone (omega arith)), gone)

give_back_lem :
    (t : ℤ) (w : BudgetWindow)
    → pos 0 ≤ℤ t
    → pos_part t ≤ max_int
    → IsCounted w
    → (give_back w t).reserved ≡ pos (pos_part w.reserved - pos_part t)
unfolding sub_int
give_back_lem t w t₀ t' c = ground arith

committed_lem :
    (t actual : ℤ) (w : BudgetWindow)
    → pos 0 ≤ℤ w.used
    → pos_part w.used + pos_part actual ≤ max_int
    → (committed t actual w).used ≡ pos (pos_part w.used + pos_part actual)
committed_lem t actual w u fits = ground (arith, add_int-pos (pos_part w.used) (pos_part actual))

-- `Commit` moves what was reserved to what was used, on the reservation's own window: its tokens
-- leave the reserved ones (which stop at 0) and the actual tokens, if not negative, are added to
-- the used ones. No other window changes. For a reservation not settled yet and counts in range.
pub commit-view :
    (actual : ℤ) (now : ℕ) (r : Reservation) (l : BudgetLimiter)
    → r.done ≡ false
    → pos 0 ≤ℤ r.tokens
    → pos_part r.tokens ≤ max_int
    → IsCounted (window_of l r.identity r.window_id)
    → pos_part (window_of l r.identity r.window_id).used + pos_part actual ≤ max_int
    → (j : Text) (i : ℕ)
    → window_of (commit actual now r l).0 j i ≡ (
        if (r.identity == j) && (r.window_id == i)
        then record {
          used = pos (pos_part (window_of l j i).used + pos_part actual);
          reserved = pos (pos_part (window_of l j i).reserved - pos_part r.tokens);
        }
        else window_of l j i)
unfolding commit
commit-view actual now r l open_one t t' c fits j i =
    let w = window_of l r.identity r.window_id in
    let back = give_back_lem r.tokens w t t' c in
    let spent = committed_lem r.tokens actual w c.used_nonneg fits in
    ground (
      arith,
      text_beq_iff r.identity j,
      eqb_iff r.window_id i,
      settle-view (committed r.tokens actual) now r l j i,
      back,
      spent,
    )

-- `Release` gives the reserved tokens back and uses none: the reservation's tokens leave the
-- reserved ones of its window (which stop at 0), and nothing else changes.
pub release-view :
    (now : ℕ) (r : Reservation) (l : BudgetLimiter)
    → r.done ≡ false
    → pos 0 ≤ℤ r.tokens
    → pos_part r.tokens ≤ max_int
    → IsCounted (window_of l r.identity r.window_id)
    → (j : Text) (i : ℕ)
    → window_of (release now r l).0 j i ≡ (
        if (r.identity == j) && (r.window_id == i)
        then record (window_of l j i) {
          reserved = pos (pos_part (window_of l j i).reserved - pos_part r.tokens);
        }
        else window_of l j i)
unfolding release sub_int
release-view now r l open_one t t' c j i = ground (
  arith,
  text_beq_iff r.identity j,
  eqb_iff r.window_id i,
  settle-view (λ w. give_back w r.tokens) now r l j i,
)
