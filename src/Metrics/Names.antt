-- ===== src/Metrics/Names.antt =====
-- The names of the metrics (`NewMetrics` of internal/observability/metrics.go).
use agent.Base.{
  ◌-◌, ◌≡◌, refl, subst, ◌∙◌, Bool, true, false, ◌||◌, List, [], ◌∷◌, ◌++◌, arith, length,
  length-append, drop, map, if◌then◌else◌, Bool-cases, inl, inr, leb,
}
use agent.Text.{Text, text_eq, text_beq_iff, codes, has_suffix}
use agent.Map.{◌==◌, mem, distinct, beq_refl}
use agent.Metrics.{new_metrics, full_name, namespace_or_default}

beq-append : (n x y : Text) → (n ++ x == n ++ y) ≡ (x == y)
beq-append [] x y = refl
beq-append (c ∷ n) x y = ground (arith, beq-append n x y)

drop-prefix : (n x : Text) → drop (length n) (n ++ x) ≡ x
drop-prefix [] x = refl
drop-prefix (c ∷ n) x = drop-prefix n x

-- A text that ends in another one has it as a suffix.
append-has_suffix : (n x : Text) → has_suffix (n ++ x) x ≡ true
unfolding has_suffix
append-has_suffix n x =
    let l = length-append n x in
    let cut : length (n ++ x) - length x ≡ length n = omega (arith, l) in
    let long : leb (length x) (length (n ++ x)) ≡ true = ground (arith, l) in
    rw (long, cut, drop-prefix n x) (beq_refl x)

mem-put :
    (z x : Text) (xs ys : List Text)
    → mem z (xs ++ x ∷ ys) ≡ (if x == z then true else mem z (xs ++ ys))
unfolding mem
mem-put z x [] ys = refl
mem-put z x (w ∷ xs) ys = ground (arith, mem-put z x xs ys)

distinct-put :
    (x : Text) (xs ys : List Text)
    → mem x (xs ++ ys) ≡ false
    → distinct (xs ++ ys) ≡ true
    → distinct (xs ++ x ∷ ys) ≡ true
unfolding mem distinct
distinct-put x [] ys m d = ground arith
distinct-put x (w ∷ xs) ys m d =
    ground (arith, distinct-put x xs ys, mem-put w x xs ys, text_beq_iff x w, text_beq_iff w x)

abbrev ends_in_one : Text → List Text → Bool
ends_in_one y [] = false
ends_in_one y (x ∷ xs) = has_suffix y x || ends_in_one y xs

module _ (n : Text) where
  mem-namespace : (x : Text) (xs : List Text) → mem (n ++ x) (map (λ a. n ++ a) xs) ≡ mem x xs
  unfolding mem
  mem-namespace x [] = refl
  mem-namespace x (y ∷ xs) = ground (arith, beq-append n y x, mem-namespace x xs)

  distinct-namespace : (xs : List Text) → distinct (map (λ a. n ++ a) xs) ≡ distinct xs
  unfolding distinct
  distinct-namespace [] = refl
  distinct-namespace (x ∷ xs) = ground (arith, mem-namespace x xs, distinct-namespace xs)

  -- A text of which none of the names is a suffix is none of the full names.
  mem-suffix :
      (y : Text) (xs : List Text) → ends_in_one y xs ≡ false → mem y (map (λ a. n ++ a) xs) ≡ false
  unfolding mem
  mem-suffix y [] h = refl
  mem-suffix y (x ∷ xs) h = elim (Bool-cases (n ++ x == y)) [
    | inl same ↦
        let suffix =
          subst (λ a. has_suffix a x ≡ true) ((text_beq_iff (n ++ x) y).0 same)
            (append-has_suffix n x) in
        absurd (ground (arith, suffix, h))
    | inr other ↦ ground (arith, other, mem-suffix y xs (ground arith))
  ]

abbrev before : List Text
before = codes "_circuit_breaker_state" ∷ codes "_fallbacks_total" ∷ []

abbrev after : List Text
after =
    codes "_request_duration_seconds"
    ∷ codes "_request_success_rate"
    ∷ codes "_requests_total"
    ∷ codes "_token_budget_rejected_total"
    ∷ codes "_token_budget_remaining"
    ∷ codes "_token_usage_total"
    ∷ codes "_upstream_errors_total"
    ∷ codes "_up"
    ∷ codes "_ready"
    ∷ []

-- The names of the metrics are all different, so that none is registered twice, which would panic:
-- for any namespace, that of the first-token duration included, which is not the configured one.
pub new_metrics-distinct :
    (namespace : Text) → distinct (map full_name (new_metrics namespace)) ≡ true
unfolding new_metrics full_name distinct mem has_suffix
new_metrics-distinct namespace =
    let n = namespace_or_default namespace in
    let all = before ++ after in
    distinct-put (codes "aegis_first_token_duration_seconds") (map (λ a. n ++ a) before)
      (map (λ a. n ++ a) after) (mem-suffix n (codes "aegis_first_token_duration_seconds") all refl)
      (distinct-namespace n all ∙ refl)
