-- ===== src/Admin/Order.antt =====
-- The checks of the services run side by side (`checkObservabilityServices` of
-- internal/admin/observability.go).
use agent.Base.{
  ℕ, zero, suc, ◌+◌, ◌≡◌, ◌<◌, ◌≤◌, refl, ap, sym, ◌∙◌, true, false, ◌||◌, List, [], ◌∷◌, arith,
  if◌then◌else◌, length,
}
use agent.Text.{Text}
use agent.Map.{◌==◌, nat_eq, mem}
use agent.Config.{ServiceConfig}
use agent.Admin.{
  ServiceStatus, Probe, check_observability_service, finish_check, finish_checks, zero_status,
  zero_statuses, check_observability_services, checked_in_order,
}

module _ (probe : Text → Probe) (format_status : ℕ → Text) where
  -- The elements from an index on that the goroutines of some indices have written.
  merged : ℕ → List ℕ → List ServiceConfig → List ServiceStatus → List ServiceStatus
  merged n ended [] statuses = statuses
  merged n ended (c ∷ cs) [] = []
  merged n ended (c ∷ cs) (s ∷ statuses) =
      let rest = merged (suc n) ended cs statuses in
      (if mem n ended then check_observability_service probe format_status c else s) ∷ rest

  merged-older :
      (m n : ℕ) (ended : List ℕ) (cs : List ServiceConfig) (z : List ServiceStatus)
      → n < m
      → merged m (n ∷ ended) cs z ≡ merged m ended cs z
  unfolding merged mem
  merged-older m n ended [] z h = refl
  merged-older m n ended (c ∷ cs) [] h = refl
  merged-older m n ended (c ∷ cs) (s ∷ z) h =
      let other : (n == m) ≡ false = ground (arith, h) in
      rw (other, merged-older (suc m) n ended cs z (omega (arith, h))) refl

  finish_check-merged :
      (n i : ℕ) (ended : List ℕ) (cs : List ServiceConfig) (z : List ServiceStatus)
      → finish_check probe format_status cs i (merged n ended cs z)
        ≡ merged n ((n + i) ∷ ended) cs z
  unfolding merged finish_check mem
  finish_check-merged n i ended [] z = refl
  finish_check-merged n i ended (c ∷ cs) [] = refl
  finish_check-merged n zero ended (c ∷ cs) (s ∷ z) =
      let here : (n + 0 == n) ≡ true = ground arith in
      rw (here) (
        ap (λ r. check_observability_service probe format_status c ∷ r)
          (sym (merged-older (suc n) (n + 0) ended cs z (omega arith))))
  finish_check-merged n (suc i) ended (c ∷ cs) (s ∷ z) =
      let other : (n + suc i == n) ≡ false = ground arith in
      let shift : suc n + i ≡ n + suc i = omega arith in
      rw (other) (
        ap (λ r. (if mem n ended then check_observability_service probe format_status c else s) ∷ r)
          (finish_check-merged (suc n) i ended cs z
            ∙ ap (λ k. merged (suc n) (k ∷ ended) cs z) shift))

  abbrev ended_by : List ℕ → List ℕ → List ℕ
  ended_by [] ended = ended
  ended_by (i ∷ order) ended = ended_by order (i ∷ ended)

  mem-ended_by :
      (j : ℕ) (order ended : List ℕ) → mem j (ended_by order ended) ≡ (mem j order || mem j ended)
  unfolding mem
  mem-ended_by j [] ended = refl
  mem-ended_by j (i ∷ order) ended = ground (arith, mem-ended_by j order (i ∷ ended))

  finish_checks-merged :
      (order ended : List ℕ) (cs : List ServiceConfig) (z : List ServiceStatus)
      → finish_checks probe format_status cs order (merged 0 ended cs z)
        ≡ merged 0 (ended_by order ended) cs z
  unfolding finish_checks
  finish_checks-merged [] ended cs z = refl
  finish_checks-merged (i ∷ order) ended cs z =
      let zero_shift : 0 + i ≡ i = omega arith in
      ap (finish_checks probe format_status cs order)
        (finish_check-merged 0 i ended cs z ∙ ap (λ k. merged 0 (k ∷ ended) cs z) zero_shift)
      ∙ finish_checks-merged order (i ∷ ended) cs z

  merged-none :
      (n : ℕ) (cs : List ServiceConfig) → merged n [] cs (zero_statuses cs) ≡ zero_statuses cs
  unfolding merged mem
  merged-none n [] = refl
  merged-none n (c ∷ cs) = ap (λ r. zero_status ∷ r) (merged-none (suc n) cs)

  merged-all :
      (n : ℕ) (ended : List ℕ) (cs : List ServiceConfig)
      → ((j : ℕ) → n ≤ j → j < n + length cs → mem j ended ≡ true)
      → merged n ended cs (zero_statuses cs) ≡ checked_in_order probe format_status cs
  unfolding merged checked_in_order
  merged-all n ended [] h = refl
  merged-all n ended (c ∷ cs) h =
      let rest =
        merged-all (suc n) ended cs
          (λ j low high. h j (omega (arith, low)) (omega (arith, high))) in
      rw (h n (omega arith) (omega arith), rest) refl

  -- The order in which the checks end does not matter: once the goroutine of every service has ended,
  -- whatever the order, the statuses are those of the services
  -- checked one after the other, each at the place of its service.
  pub check_observability_services-in_order :
      (order : List ℕ) (services : List ServiceConfig)
      → ((j : ℕ) → j < length services → mem j order ≡ true)
      → check_observability_services probe format_status order services
        ≡ checked_in_order probe format_status services
  unfolding check_observability_services mem
  check_observability_services-in_order order services h =
      ap (finish_checks probe format_status services order) (sym (merged-none 0 services))
      ∙ finish_checks-merged order [] services (zero_statuses services)
      ∙ merged-all 0 (ended_by order []) services
          (λ j low high. ground (arith, mem-ended_by j order [], h j (omega (arith, high))))
