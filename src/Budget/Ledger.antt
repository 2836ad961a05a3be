-- ===== src/Budget/Ledger.antt =====
-- Requests in flight against the budget of internal/tokenusage/budget.go, in any interleaving: the
-- limiter beside the reservations that are still out.
use agent.Base.{
  ℕ, ◌+◌, ◌≡◌, ◌≤◌, ◌<◌, refl, Bool, true, false, ◌&&◌, Option, none, some, List, [], ◌∷◌, ◌++◌,
  leb, arith, if◌then◌else◌, eqb_iff, All, ap, Option-cases, inl, inr,
}
use agent.Num.{ℤ, pos, pos_part, ◌≤ℤ◌, max_int}
use agent.Text.{Text, text_eq, text_beq_iff}
use agent.Map.{◌==◌, nat_eq, lookup}
use agent.Budget.{
  IdentityBudget, Reservation, BudgetLimiter, window_id, reserve, commit, release,
  budget_for_identity, at_least_one, cleanup_locked,
}
use agent.Budget.Window.{window_of, cleanup_locked-view}
use agent.Budget.Reserve.{
  IsCounted, IsBudget, taken, reserve-fits_budget, commit-view, release-view,
}

pub record Ledger : Type 0 where
  pub limiter : BudgetLimiter
  pub outstanding : List Reservation

abbrev tokens_for : Text → ℕ → Reservation → ℕ
tokens_for k i r = if (r.identity == k) && (r.window_id == i) then pos_part r.tokens else 0

-- The tokens of the reservations that are out on one window.
unfoldable pub held : Text → ℕ → List Reservation → ℕ
held k i [] = 0
held k i (r ∷ rs) = tokens_for k i r + held k i rs

held-append :
    (k : Text) (i : ℕ) (xs ys : List Reservation) → held k i (xs ++ ys) ≡ held k i xs + held k i ys
unfolding held
held-append k i [] ys = omega arith
held-append k i (r ∷ xs) ys = omega (arith, held-append k i xs ys)

abbrev pub is_idle : BudgetLimiter → ℕ → Option IdentityBudget → Bool
is_idle l now none = false
is_idle l now (some a) = leb (a.last_seen + l.identity_idle_ttl) now

-- No identity with a reservation out has been idle for the time to live.
abbrev pub Awake : BudgetLimiter → ℕ → List Reservation → Type 0
Awake l now = All (λ r. is_idle l now (lookup r.identity l.accounts) ≡ false)

pub data Step (s : Ledger) : Ledger → Type 0 where
  granted :
      (k : Text) (tokens : ℤ) (now : ℕ) (r : Reservation)
      → Awake s.limiter now s.outstanding
      → (reserve k tokens now s.limiter).1 ≡ some r
      → Step s
          (record { limiter = (reserve k tokens now s.limiter).0; outstanding = r ∷ s.outstanding })
  refused :
      (k : Text) (tokens : ℤ) (now : ℕ)
      → Awake s.limiter now s.outstanding
      → (reserve k tokens now s.limiter).1 ≡ none
      → Step s
          (record { limiter = (reserve k tokens now s.limiter).0; outstanding = s.outstanding })
  commits :
      (xs : List Reservation) (r : Reservation) (ys : List Reservation) (actual : ℤ) (now : ℕ)
      → s.outstanding ≡ xs ++ r ∷ ys
      → taken (window_of s.limiter r.identity r.window_id) + pos_part actual ≤ max_int
      → Step s (record { limiter = (commit actual now r s.limiter).0; outstanding = xs ++ ys })
  releases :
      (xs : List Reservation) (r : Reservation) (ys : List Reservation) (now : ℕ)
      → s.outstanding ≡ xs ++ r ∷ ys
      → Step s (record { limiter = (release now r s.limiter).0; outstanding = xs ++ ys })

pub data Steps (s : Ledger) : Ledger → Type 0 where
  here : Steps s s
  next : {t u : Ledger} → Steps s t → Step t u → Steps s u

abbrev pub IsOpen : Reservation → Type 0
IsOpen r = (r.done ≡ false) × (pos 0 ≤ℤ r.tokens) × (pos_part r.tokens ≤ max_int)

-- The reserved tokens of every window are those of the reservations that are out on it.
pub record IsConserved (s : Ledger) : Type 0 where
  pub reserved_held :
      (k : Text) (i : ℕ) → (window_of s.limiter k i).reserved ≡ pos (held k i s.outstanding)
  pub counted : (k : Text) (i : ℕ) → IsCounted (window_of s.limiter k i)
  pub budgets : (k : Text) → IsBudget (budget_for_identity s.limiter k)
  pub ttl_pos : 0 < s.limiter.identity_idle_ttl
  pub open_ones : All IsOpen s.outstanding

reserve-config :
    (k : Text) (tokens : ℤ) (now : ℕ) (l : BudgetLimiter) (j : Text)
    → (budget_for_identity (reserve k tokens now l).0 j ≡ budget_for_identity l j)
      × ((reserve k tokens now l).0.identity_idle_ttl ≡ l.identity_idle_ttl)
unfolding reserve
reserve-config k tokens now l j = ground arith

commit-config :
    (actual : ℤ) (now : ℕ) (r : Reservation) (l : BudgetLimiter) (j : Text)
    → (budget_for_identity (commit actual now r l).0 j ≡ budget_for_identity l j)
      × ((commit actual now r l).0.identity_idle_ttl ≡ l.identity_idle_ttl)
unfolding commit budget_for_identity
commit-config actual now r l j = ground arith

release-config :
    (now : ℕ) (r : Reservation) (l : BudgetLimiter) (j : Text)
    → (budget_for_identity (release now r l).0 j ≡ budget_for_identity l j)
      × ((release now r l).0.identity_idle_ttl ≡ l.identity_idle_ttl)
unfolding release budget_for_identity
release-config now r l j = ground arith

reserve-result :
    (k : Text) (tokens : ℤ) (now : ℕ) (l : BudgetLimiter) (r : Reservation)
    → (reserve k tokens now l).1 ≡ some r
    → (r.identity ≡ k)
      × (r.window_id ≡ window_id l now)
      × (r.tokens ≡ at_least_one tokens)
      × (r.done ≡ false)
      × ((reserve k tokens now l).3 ≡ true)
unfolding reserve
reserve-result k tokens now l r e = ground arith

reserve-refused :
    (k : Text) (tokens : ℤ) (now : ℕ) (l : BudgetLimiter)
    → (reserve k tokens now l).1 ≡ none
    → (reserve k tokens now l).3 ≡ false
unfolding reserve
reserve-refused k tokens now l e = ground arith

held_idle :
    (k : Text) (i : ℕ) (l : BudgetLimiter) (now : ℕ) (rs : List Reservation)
    → Awake l now rs
    → is_idle l now (lookup k l.accounts) ≡ true
    → held k i rs ≡ 0
unfolding held
held_idle k i l now [] a e = refl
held_idle k i l now (r ∷ rs) a e =
    ground (arith, text_beq_iff r.identity k, held_idle k i l now rs a.1 e)

module _ (s : Ledger) (c : IsConserved s) (now : ℕ) (a : Awake s.limiter now s.outstanding) where
  -- The cleanup takes no reservation that is out.
  cleanup-reserved :
      (k : Text) (i : ℕ)
      → ((window_of (cleanup_locked now s.limiter) k i).reserved ≡ pos (held k i s.outstanding))
        × IsCounted (window_of (cleanup_locked now s.limiter) k i)
  unfolding lookup
  cleanup-reserved k i = elim (Option-cases (lookup k s.limiter.accounts)) [
    | inl e ↦
        rw (cleanup_locked-view now s.limiter k i c.ttl_pos)
          (ground (arith, c.reserved_held k i, c.counted k i))
    | inr (w, e) ↦ rw (cleanup_locked-view now s.limiter k i c.ttl_pos) (
        ground
          (arith, c.reserved_held k i, c.counted k i, held_idle k i s.limiter now s.outstanding a))
  ]

All-drop :
    (xs : List Reservation) (r : Reservation) (ys : List Reservation)
    → All IsOpen (xs ++ r ∷ ys)
    → IsOpen r × All IsOpen (xs ++ ys)
All-drop [] r ys h = h
All-drop (x ∷ xs) r ys h = let (o, rest) = All-drop xs r ys h.1 in (o, (h.0, rest))

module _ (s : Ledger) (c : IsConserved s) where
  granted-IsConserved :
      (k : Text) (tokens : ℤ) (now : ℕ) (r : Reservation)
      → Awake s.limiter now s.outstanding
      → (reserve k tokens now s.limiter).1 ≡ some r
      → IsConserved
          (record { limiter = (reserve k tokens now s.limiter).0; outstanding = r ∷ s.outstanding })
  unfolding held
  granted-IsConserved k tokens now r a e =
      let id = window_id s.limiter now in
      let clean = cleanup-reserved s c now a in
      let got = reserve-result k tokens now s.limiter r e in
      let (ok, view) = reserve-fits_budget k tokens now s.limiter (c.budgets k) (clean k id).1 in
      record {
        reserved_held =
            λ j i. ground (arith, text_beq_iff k j, eqb_iff id i, got, ok, view j i, clean j i);
        counted = λ j i.
            ground
              (arith, text_beq_iff k j, eqb_iff id i, got, ok, view j i, clean j i, c.budgets k);
        budgets = λ j. rw (reserve-config k tokens now s.limiter j).0 (c.budgets j);
        ttl_pos = ground (arith, c.ttl_pos, reserve-config k tokens now s.limiter k);
        open_ones = (ground (arith, got, ok, c.budgets k), c.open_ones);
      }

  refused-IsConserved :
      (k : Text) (tokens : ℤ) (now : ℕ)
      → Awake s.limiter now s.outstanding
      → (reserve k tokens now s.limiter).1 ≡ none
      → IsConserved
          (record { limiter = (reserve k tokens now s.limiter).0; outstanding = s.outstanding })
  refused-IsConserved k tokens now a e =
      let id = window_id s.limiter now in
      let clean = cleanup-reserved s c now a in
      let no_grant = reserve-refused k tokens now s.limiter e in
      let (ok, view) = reserve-fits_budget k tokens now s.limiter (c.budgets k) (clean k id).1 in
      record {
        reserved_held = λ j i. ground (arith, no_grant, ok, view j i, clean j i);
        counted = λ j i. ground (arith, no_grant, ok, view j i, clean j i);
        budgets = λ j. rw (reserve-config k tokens now s.limiter j).0 (c.budgets j);
        ttl_pos = ground (arith, c.ttl_pos, reserve-config k tokens now s.limiter k);
        open_ones = c.open_ones;
      }

  commits-IsConserved :
      (xs : List Reservation) (r : Reservation) (ys : List Reservation) (actual : ℤ) (now : ℕ)
      → s.outstanding ≡ xs ++ r ∷ ys
      → taken (window_of s.limiter r.identity r.window_id) + pos_part actual ≤ max_int
      → IsConserved (record { limiter = (commit actual now r s.limiter).0; outstanding = xs ++ ys })
  unfolding held
  commits-IsConserved xs r ys actual now e fits =
      let (o, rest) = All-drop xs r ys (rw e at c.open_ones) in
      let w = c.counted r.identity r.window_id in
      let view = commit-view actual now r s.limiter o.0 o.1 o.2 w (omega arith) in
      record {
        reserved_held = λ j i. ground (
          arith,
          view j i,
          c.reserved_held j i,
          ap (held j i) e,
          held-append j i xs (r ∷ ys),
          held-append j i xs ys,
        );
        counted = λ j i.
            ground
              (arith, text_beq_iff r.identity j, eqb_iff r.window_id i, view j i, c.counted j i);
        budgets = λ j. rw (commit-config actual now r s.limiter j).0 (c.budgets j);
        ttl_pos = ground (arith, c.ttl_pos, commit-config actual now r s.limiter r.identity);
        open_ones = rest;
      }

  releases-IsConserved :
      (xs : List Reservation) (r : Reservation) (ys : List Reservation) (now : ℕ)
      → s.outstanding ≡ xs ++ r ∷ ys
      → IsConserved (record { limiter = (release now r s.limiter).0; outstanding = xs ++ ys })
  unfolding held
  releases-IsConserved xs r ys now e =
      let (o, rest) = All-drop xs r ys (rw e at c.open_ones) in
      let w = c.counted r.identity r.window_id in
      let view = release-view now r s.limiter o.0 o.1 o.2 w in
      record {
        reserved_held = λ j i. ground (
          arith,
          view j i,
          c.reserved_held j i,
          ap (held j i) e,
          held-append j i xs (r ∷ ys),
          held-append j i xs ys,
        );
        counted = λ j i. ground (arith, view j i, c.counted j i);
        budgets = λ j. rw (release-config now r s.limiter j).0 (c.budgets j);
        ttl_pos = ground (arith, c.ttl_pos, release-config now r s.limiter r.identity);
        open_ones = rest;
      }

Step-IsConserved : {s t : Ledger} → Step s t → IsConserved s → IsConserved t
Step-IsConserved {s} (granted k tokens now r a e) c = granted-IsConserved s c k tokens now r a e
Step-IsConserved {s} (refused k tokens now a e) c = refused-IsConserved s c k tokens now a e
Step-IsConserved {s} (commits xs r ys actual now e f) c =
    commits-IsConserved s c xs r ys actual now e f
Step-IsConserved {s} (releases xs r ys now e) c = releases-IsConserved s c xs r ys now e

-- Requests that reserve, commit and release in any interleaving leave every window's reserved
-- tokens equal to those of the reservations that are still out on it, with counts that fit in an
-- `int`: from a ledger where this holds, with budgets in range, as long as no identity with a
-- reservation out is idle for the time to live and what is committed keeps a window in range.
pub Steps-IsConserved : {s t : Ledger} → IsConserved s → Steps s t → IsConserved t
Steps-IsConserved c here = c
Steps-IsConserved c (next r st) = Step-IsConserved st (Steps-IsConserved c r)
