-- ===== src/Admin.antt =====
-- The status of the observability stack (internal/admin/observability.go). The HTTP client is a
-- parameter: what a check of an address finds.
pub mod Order
pub mod Pages
use agent.Base.{
  ℕ, zero, suc, ◌+◌, ◌≡◌, ◌<◌, ◌≤◌, ◌⊎◌, refl, ap, sym, ◌∙◌, Bool, true, false, not, ◌&&◌, Option,
  none, some, List, [], ◌∷◌, arith, if◌then◌else◌, leb, ltb, eqb, eqb_iff, map, length, Bool-cases,
  inl, inr,
}
use agent.Text.{Text, text_eq, codes, is_empty, trim_space}
use agent.Map.{◌==◌, nat_eq, mem}
use agent.Config.{ServiceConfig, DashboardConfig, ObservabilityStack}

pub record ServiceStatus : Type 0 where
  pub name : Text
  pub kind : Text
  pub url : Text
  pub status : Text
  pub status_code : ℕ
  pub message : Text

pub record Dashboard : Type 0 where
  pub name : Text
  pub url : Text
  pub embed_url : Text

pub record Response : Type 0 where
  pub enabled : Bool
  pub services : List ServiceStatus
  pub dashboards : List Dashboard

-- What a GET finds: no request can be made of the address, or none is answered, each with the text
-- of the error, or a status.
pub data Probe : Type 0 where
  unusable unanswered : Text → Probe
  answered : ℕ → Probe

unfoldable pub dashboards_of : List DashboardConfig → List Dashboard
dashboards_of [] = []
dashboards_of (d ∷ ds) =
    record { name = trim_space d.name; url = trim_space d.url; embed_url = trim_space d.embed_url }
    ∷ dashboards_of ds

abbrev pub unknown_status : ServiceConfig → ServiceStatus
unknown_status service = record {
  name = trim_space service.name;
  kind = trim_space service.kind;
  url = trim_space service.public_url;
  status = codes "unknown";
  status_code = 0;
  message = [];
}

abbrev pub offline : Text → ServiceStatus → ServiceStatus
offline message s = record s { status = codes "offline"; message = message }

abbrev pub zero_status : ServiceStatus
zero_status = record { name = []; kind = []; url = []; status = []; status_code = 0; message = [] }

abbrev pub zero_statuses : List ServiceConfig → List ServiceStatus
zero_statuses [] = []
zero_statuses (c ∷ cs) = zero_status ∷ zero_statuses cs

-- `probe` is the client, `format_status` the text `HTTP %d`.
module _ (probe : Text → Probe) (format_status : ℕ → Text) where
  abbrev pub with_code : ℕ → ServiceStatus → ServiceStatus
  with_code code s₀ =
      let s = record s₀ { status_code = code } in
      if leb 200 code && ltb code 300
      then record s { status = codes "online" }
      else if leb 300 code && ltb code 500
      then record s { status = codes "degraded"; message = format_status code }
      else offline (format_status code) s

  abbrev pub probed : Probe → ServiceStatus → ServiceStatus
  probed (unusable error) s = offline error s
  probed (unanswered error) s = offline error s
  probed (answered code) s = with_code code s

  unfoldable pub check_observability_service : ServiceConfig → ServiceStatus
  check_observability_service service =
      let s = unknown_status service in
      let health_url = trim_space service.health_url in
      if is_empty health_url
      then record s { message = codes "未配置健康检查地址" }
      else probed (probe health_url) s

  -- The goroutine of an index at its end: it writes the element of its index.
  unfoldable pub finish_check : List ServiceConfig → ℕ → List ServiceStatus → List ServiceStatus
  unfolding check_observability_service
  finish_check [] i statuses = statuses
  finish_check (c ∷ cs) i [] = []
  finish_check (c ∷ cs) zero (s ∷ statuses) = check_observability_service c ∷ statuses
  finish_check (c ∷ cs) (suc i) (s ∷ statuses) = s ∷ finish_check cs i statuses

  -- The goroutines in the order in which they end.
  unfoldable pub finish_checks :
      List ServiceConfig → List ℕ → List ServiceStatus → List ServiceStatus
  unfolding finish_check
  finish_checks services [] statuses = statuses
  finish_checks services (i ∷ order) statuses =
      finish_checks services order (finish_check services i statuses)

  -- `order` is the order in which the goroutines end.
  unfoldable pub check_observability_services : List ℕ → List ServiceConfig → List ServiceStatus
  unfolding finish_checks
  check_observability_services order services =
      finish_checks services order (zero_statuses services)

  unfoldable pub build_observability_response : List ℕ → ObservabilityStack → Response
  unfolding dashboards_of check_observability_services
  build_observability_response order stack = record {
    enabled = stack.enabled;
    services = if stack.enabled then check_observability_services order stack.services else [];
    dashboards = dashboards_of stack.dashboards;
  }

  -- `ObservabilityHandler`, `none` for an answer of 405.
  unfoldable pub observability_handler : Text → List ℕ → ObservabilityStack → Option Response
  unfolding build_observability_response
  observability_handler method order stack =
      let response = build_observability_response order stack in
      if not (method == codes "GET") then none else some response

  -- One check after the other, in the order of the services.
  unfoldable pub checked_in_order : List ServiceConfig → List ServiceStatus
  checked_in_order [] = []
  checked_in_order (c ∷ cs) = check_observability_service c ∷ checked_in_order cs
