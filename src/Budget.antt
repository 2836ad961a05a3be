-- ===== src/Budget.antt =====
-- The token budget of internal/tokenusage/budget.go: per identity a window of used and reserved
-- tokens, reservations that a request commits or releases once, and the cleanup of idle identities.
-- Times are nanoseconds of the clock; a method takes the clock's reading.
pub mod Window
pub mod Reserve
pub mod Ledger
use agent.Base.{
  ℕ, ◌+◌, ◌*◌, ◌/◌, ◌≡◌, Bool, true, false, ◌&&◌, Option, none, some, List, [], ◌∷◌, ltb, leb,
  if◌then◌else◌,
}
use agent.Num.{ℤ, pos, leb_ℤ, ltb_ℤ, wrap64, add_int, sub_int, pos_part}
use agent.Text.{Text, text_eq, trim_space}
use agent.Map.{Map, lookup, insert, range_update, nat_eq, has}
use agent.Config.{TokenUsageConfig}

pub record BudgetWindow : Type 0 where
  pub used : ℤ
  pub reserved : ℤ

pub record IdentityBudget : Type 0 where
  pub windows : Map ℕ BudgetWindow
  pub last_seen : ℕ

pub record Reservation : Type 0 where
  pub identity : Text
  pub window_id : ℕ
  pub tokens : ℤ
  pub done : Bool

pub record BudgetSnapshot : Type 0 where
  pub limit : ℤ
  pub used : ℤ
  pub reserved : ℤ
  pub remaining : ℤ
  pub reset_at : ℤ

pub record BudgetLimiter : Type 0 where
  pub identity_header : Text
  pub window : ℕ
  pub default_budget_tokens : ℤ
  pub default_max_completion_tokens : ℤ
  pub user_budgets : Map Text ℤ
  pub identity_idle_ttl : ℕ
  pub accounts : Map Text IdentityBudget

-- 48 hours.
abbrev pub default_identity_idle_ttl : ℕ
default_identity_idle_ttl = 172_800_000_000_000

abbrev pub empty_window : BudgetWindow
empty_window = record { used = pos 0; reserved = pos 0 }

abbrev pub empty_snapshot : BudgetSnapshot
empty_snapshot = record {
  limit = pos 0;
  used = pos 0;
  reserved = pos 0;
  remaining = pos 0;
  reset_at = pos 0;
}

-- The loop of `NewBudgetLimiter` over the configured budgets.
unfoldable pub trim_budgets : Map Text ℤ → Map Text ℤ → Map Text ℤ
trim_budgets [] budgets = budgets
trim_budgets ((identity, budget) ∷ rest) budgets =
    trim_budgets rest (insert (trim_space identity) budget budgets)

-- A window of the validated configuration is positive.
unfoldable pub new_budget_limiter : TokenUsageConfig → BudgetLimiter
unfolding trim_budgets
new_budget_limiter cfg = record {
  identity_header = trim_space cfg.identity_header;
  window = pos_part cfg.window;
  default_budget_tokens = cfg.default_budget_tokens;
  default_max_completion_tokens = cfg.default_max_completion_tokens;
  user_budgets = trim_budgets cfg.user_budgets [];
  identity_idle_ttl = default_identity_idle_ttl;
  accounts = [];
}

abbrev pub window_id : BudgetLimiter → ℕ → ℕ
window_id l now = now / l.window

-- `time.Unix(0, …)` of an `int64`.
unfoldable pub reset_at : BudgetLimiter → ℕ → ℤ
reset_at l id = wrap64 (pos ((id + 1) * l.window))

abbrev pub budget_or : Option ℤ → ℤ → ℤ
budget_or none default = default
budget_or (some budget) default = budget

unfoldable pub budget_for_identity : BudgetLimiter → Text → ℤ
budget_for_identity l identity = budget_or (lookup identity l.user_budgets) l.default_budget_tokens

abbrev pub or_empty_window : Option BudgetWindow → BudgetWindow
or_empty_window none = empty_window
or_empty_window (some w) = w

abbrev pub or_new_account : Option IdentityBudget → ℕ → IdentityBudget
or_new_account none now = record { windows = []; last_seen = now }
or_new_account (some a) now = record a { last_seen = now }

abbrev pub with_window : IdentityBudget → ℕ → IdentityBudget
with_window a id =
    if has (lookup id a.windows) then a else record a { windows = insert id empty_window a.windows }

-- A write through the pointer that the map holds.
abbrev pub store_account : Text → IdentityBudget → BudgetLimiter → BudgetLimiter
store_account identity a l = record l { accounts = insert identity a l.accounts }

unfoldable pub account_locked : Text → ℕ → BudgetLimiter → BudgetLimiter × IdentityBudget
account_locked identity now l =
    let a = with_window (or_new_account (lookup identity l.accounts) now) (window_id l now) in
    (store_account identity a l, a)

unfoldable pub window_locked : IdentityBudget → ℕ → IdentityBudget × BudgetWindow
window_locked a id = (with_window a id, or_empty_window (lookup id a.windows))

abbrev pub not_negative : ℤ → ℤ
not_negative n = if ltb_ℤ n (pos 0) then pos 0 else n

unfoldable pub snapshot_locked : BudgetLimiter → BudgetWindow → ℤ → ℕ → BudgetSnapshot
unfolding reset_at
snapshot_locked l w limit id = record {
  limit = limit;
  used = w.used;
  reserved = w.reserved;
  remaining = not_negative (sub_int (sub_int limit w.used) w.reserved);
  reset_at = reset_at l id;
}

abbrev pub is_zero : ℤ → Bool
is_zero n = leb_ℤ n (pos 0) && leb_ℤ (pos 0) n

-- The body of the inner loop of `cleanupLocked`: an old window with nothing reserved is deleted.
abbrev pub keep_window : ℕ → ℕ → BudgetWindow → Option BudgetWindow
keep_window current id w = if ltb (id + 1) current && is_zero w.reserved then none else some w

-- The body of the outer loop: an identity idle for the whole time to live is deleted.
abbrev pub keep_account : ℕ → ℕ → ℕ → Text → IdentityBudget → Option IdentityBudget
keep_account ttl current now identity a =
    if leb (a.last_seen + ttl) now
    then none
    else some (record a { windows = range_update (keep_window current) a.windows })

unfoldable pub cleanup_locked : ℕ → BudgetLimiter → BudgetLimiter
cleanup_locked now l = if leb l.identity_idle_ttl 0 then l else record l {
  accounts = range_update (keep_account l.identity_idle_ttl (window_id l now) now) l.accounts;
}

-- A write of one window of an account.
abbrev pub store_window : Text → IdentityBudget → ℕ → BudgetWindow → BudgetLimiter → BudgetLimiter
store_window identity a id w l =
    store_account identity (record a { windows = insert id w a.windows }) l

abbrev pub at_least_one : ℤ → ℤ
at_least_one tokens = if leb_ℤ tokens (pos 0) then pos 1 else tokens

unfoldable pub reserve :
    Text → ℤ → ℕ → BudgetLimiter → BudgetLimiter × Option Reservation × BudgetSnapshot × Bool
unfolding cleanup_locked account_locked snapshot_locked budget_for_identity
reserve identity tokens' now l =
    let tokens = at_least_one tokens' in
    let id = window_id l now in
    let (l₁, account) = account_locked identity now (cleanup_locked now l) in
    let window = or_empty_window (lookup id account.windows) in
    let limit = budget_for_identity l₁ identity in
    let snapshot = snapshot_locked l₁ window limit id in
    let window' : BudgetWindow = record window { reserved = add_int window.reserved tokens } in
    if ltb_ℤ snapshot.remaining tokens then (l₁, none, snapshot, false) else (
      store_window identity account id window' l₁,
      some (record { identity = identity; window_id = id; tokens = tokens; done = false }),
      snapshot_locked l₁ window' limit id,
      true,
    )

unfoldable pub snapshot : Text → ℕ → BudgetLimiter → BudgetLimiter × BudgetSnapshot
unfolding account_locked snapshot_locked budget_for_identity
snapshot identity now l =
    let id = window_id l now in
    let (l₁, account) = account_locked identity now l in
    (
      l₁,
      snapshot_locked l₁ (or_empty_window (lookup id account.windows))
          (budget_for_identity l₁ identity) id,
    )

-- The reserved tokens once a reservation is given back.
abbrev pub give_back : BudgetWindow → ℤ → BudgetWindow
give_back w tokens = record w {
  reserved = if leb_ℤ tokens w.reserved then sub_int w.reserved tokens else pos 0;
}

-- What `Commit` and `Release` share, behind their guard: a change of the reservation's window.
unfoldable pub settle :
    (BudgetWindow → BudgetWindow)
    → ℕ
    → Reservation
    → BudgetLimiter
    → BudgetLimiter × Reservation × BudgetSnapshot
unfolding account_locked window_locked snapshot_locked budget_for_identity
settle change now r l =
    let (l₁, account₁) = account_locked r.identity now l in
    let (account, w) = window_locked account₁ r.window_id in
    let w' = change w in
    let l₂ = store_window r.identity account r.window_id w' l₁ in
    (
      l₂,
      record r { done = true },
      snapshot_locked l₂ w' (budget_for_identity l₂ r.identity) r.window_id,
    )

abbrev pub committed : ℤ → ℤ → BudgetWindow → BudgetWindow
committed tokens actual w =
    let w' = give_back w tokens in record w' { used = add_int w'.used (not_negative actual) }

unfoldable pub commit :
    ℤ → ℕ → Reservation → BudgetLimiter → BudgetLimiter × Reservation × BudgetSnapshot
unfolding settle
commit actual now r l =
    if r.done then (l, r, empty_snapshot) else settle (committed r.tokens actual) now r l

unfoldable pub release :
    ℕ → Reservation → BudgetLimiter → BudgetLimiter × Reservation × BudgetSnapshot
unfolding settle
release now r l =
    if r.done then (l, r, empty_snapshot) else settle (λ w. give_back w r.tokens) now r l
