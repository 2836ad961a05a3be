-- ===== src/Budget/Window.antt =====
-- The windows of the budget as a table by identity and window number: what each part of
-- internal/tokenusage/budget.go reads and writes of it.
use agent.Base.{
  ℕ, ◌+◌, ◌<◌, ◌≡◌, refl, ◌&&◌, Option, none, some, [], ltb, leb, arith, if◌then◌else◌,
  Option-cases, Bool-cases, inl, inr, eqb_iff,
}
use agent.Text.{Text, text_eq, text_beq_iff}
use agent.Map.{Map, ◌==◌, nat_eq, lookup, insert, lookup-insert, lookup-range_update, range_update}
use agent.Budget.{
  BudgetWindow, IdentityBudget, Reservation, BudgetLimiter, empty_window, or_empty_window,
  or_new_account, with_window, store_account, store_window, account_locked, window_locked,
  window_id, keep_window, keep_account, cleanup_locked, settle, is_zero,
}

abbrev pub account_windows : Option IdentityBudget → Map ℕ BudgetWindow
account_windows none = []
account_windows (some a) = a.windows

-- A window that is not stored is an empty one.
abbrev pub window_of : BudgetLimiter → Text → ℕ → BudgetWindow
window_of l identity id = or_empty_window (lookup id (account_windows (lookup identity l.accounts)))

with_window-lookup :
    (a : IdentityBudget) (id i : ℕ)
    → or_empty_window (lookup i (with_window a id).windows) ≡ or_empty_window (lookup i a.windows)
with_window-lookup a id i = elim (Option-cases (lookup id a.windows)) [
  | inl e ↦ ground (arith, lookup-insert i id empty_window a.windows, eqb_iff id i)
  | inr (w, e) ↦ ground arith
]

store_account-view :
    (k j : Text) (i : ℕ) (a : IdentityBudget) (l : BudgetLimiter)
    → window_of (store_account k a l) j i
      ≡ (if k == j then or_empty_window (lookup i a.windows) else window_of l j i)
store_account-view k j i a l = elim (Bool-cases (k == j)) [
  | inl e ↦ rw (lookup-insert j k a l.accounts, e) refl
  | inr e ↦ rw (lookup-insert j k a l.accounts, e) refl
]

module _ (k : Text) (now : ℕ) (l : BudgetLimiter) where
  -- Looking an account up changes no window, and the account found holds the identity's windows.
  pub account_locked-view :
      (j : Text) (i : ℕ)
      → (window_of (account_locked k now l).0 j i ≡ window_of l j i)
        × (or_empty_window (lookup i (account_locked k now l).1.windows) ≡ window_of l k i)
  unfolding account_locked lookup
  account_locked-view j i =
      let a = or_new_account (lookup k l.accounts) now in
      ground (
        arith,
        text_beq_iff k j,
        store_account-view k j i (with_window a (window_id l now)) l,
        with_window-lookup a (window_id l now) i,
      )

pub store_window-view :
    (k j : Text) (id i : ℕ) (a : IdentityBudget) (w : BudgetWindow) (l : BudgetLimiter)
    → window_of (store_window k a id w l) j i ≡ (
        if k == j
        then (if id == i then w else or_empty_window (lookup i a.windows))
        else window_of l j i)
store_window-view k j id i a w l = ground (
  arith,
  store_account-view k j i (record a { windows = insert id w a.windows }) l,
  lookup-insert i id w a.windows,
)

-- Settling a reservation changes its own window and no other.
pub settle-view :
    (change : BudgetWindow → BudgetWindow) (now : ℕ) (r : Reservation) (l : BudgetLimiter)
    (j : Text) (i : ℕ)
    → window_of (settle change now r l).0 j i ≡ (
        if (r.identity == j) && (r.window_id == i)
        then change (window_of l j i)
        else window_of l j i)
unfolding settle window_locked
settle-view change now r l j i =
    let k = r.identity in
    let l₁ = (account_locked k now l).0 in
    let a = (account_locked k now l).1 in
    let w = change (or_empty_window (lookup r.window_id a.windows)) in
    ground (
      arith,
      text_beq_iff k j,
      eqb_iff r.window_id i,
      store_window-view k j r.window_id i (with_window a r.window_id) w l₁,
      account_locked-view k now l j i,
      account_locked-view k now l k r.window_id,
      with_window-lookup a r.window_id i,
    )

-- What the cleanup leaves of a window: nothing if the identity has been idle for the time to live,
-- or if the window is older than the one before the current and nothing is reserved in it.
abbrev pub recalled : BudgetLimiter → ℕ → Option IdentityBudget → ℕ → BudgetWindow
recalled l now none i = empty_window
recalled l now (some a) i =
    if leb (a.last_seen + l.identity_idle_ttl) now
    then empty_window
    else if ltb (i + 1) (window_id l now) && is_zero (or_empty_window (lookup i a.windows)).reserved
    then empty_window
    else or_empty_window (lookup i a.windows)

cleanup_window :
    (current i : ℕ) (windows : Map ℕ BudgetWindow)
    → or_empty_window (lookup i (range_update (keep_window current) windows)) ≡ (
        if ltb (i + 1) current && is_zero (or_empty_window (lookup i windows)).reserved
        then empty_window
        else or_empty_window (lookup i windows))
cleanup_window current i windows = elim (Option-cases (lookup i windows)) [
  | inl e ↦ ground (arith, lookup-range_update (keep_window current) i windows)
  | inr (w, e) ↦ ground (arith, lookup-range_update (keep_window current) i windows)
]

pub cleanup_locked-view :
    (now : ℕ) (l : BudgetLimiter) (j : Text) (i : ℕ)
    → 0 < l.identity_idle_ttl
    → window_of (cleanup_locked now l) j i ≡ recalled l now (lookup j l.accounts) i
unfolding cleanup_locked lookup
cleanup_locked-view now l j i h =
    let keep = keep_account l.identity_idle_ttl (window_id l now) now in
    elim (Option-cases (lookup j l.accounts)) [
      | inl e ↦ ground (arith, lookup-range_update keep j l.accounts)
      | inr (a, e) ↦ ground (
        arith,
        lookup-range_update keep j l.accounts,
        cleanup_window (window_id l now) i a.windows,
      )
    ]
