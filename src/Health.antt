-- ===== src/Health.antt =====
-- The endpoints of the gateway's health (internal/observability/health.go,
-- internal/observability/state.go and internal/observability/response.go), and the life of the server
-- that decides the readiness (`Run` of internal/app/lifecycle.go).
use agent.Base.{
  ℕ, ◌-◌, ◌/◌, ◌≡◌, refl, Bool, true, false, not, Option, none, some, List, [], ◌∷◌, arith,
  if◌then◌else◌,
}
use agent.Text.{Text, text_eq, codes}
use agent.Map.{◌==◌}

-- `ready` is what the function `Ready` returns when it is called, `none` if it is nil.
pub record State : Type 0 where
  pub service_name : Text
  pub start_time : ℕ
  pub ready : Option Bool

pub data JsonValue : Type 0 where
  text : Text → JsonValue
  number : ℕ → JsonValue

-- A status, and the fields of a JSON object if there is a body.
pub record Answer : Type 0 where
  pub status : ℕ
  pub body : Option (List (Text × JsonValue))

abbrev pub write_json : ℕ → List (Text × JsonValue) → Answer
write_json status payload = record { status = status; body = some payload }

abbrev pub method_not_allowed : Answer
method_not_allowed = record { status = 405; body = none }

unfoldable pub health_handler : State → ℕ → Text → Answer
health_handler state now method =
    if not (method == codes "GET")
    then method_not_allowed
    else write_json 200 (
        (codes "service", text state.service_name)
        ∷ (codes "status", text (codes "ok"))
        ∷ (codes "uptime_seconds", number ((now - state.start_time) / 1_000_000_000))
        ∷ [])

abbrev pub is_ready : State → Bool
is_ready state = elim state.ready [ none ↦ false | some r ↦ r ]

unfoldable pub ready_handler : State → Text → Answer
ready_handler state method =
    let service : Text × JsonValue = (codes "service", text state.service_name) in
    if not (method == codes "GET")
    then method_not_allowed
    else if not (is_ready state)
    then write_json 503 (service ∷ (codes "status", text (codes "not_ready")) ∷ [])
    else write_json 200 (service ∷ (codes "status", text (codes "ready")) ∷ [])

-- How `Run` returns; the errors are told apart by where they come from.
pub data RunResult : Type 0 where
  stopped shutdown_failed server_failed start_failed : RunResult

-- Where `Run` is: before its first line, in the `select`, in `Shutdown`, at the second receive from
-- `errCh`, or back.
pub data Phase : Type 0 where
  created serving shutting_down draining : Phase
  finished : RunResult → Phase

pub record Life : Type 0 where
  pub phase : Phase
  pub ready : Bool

abbrev pub new_life : Life
new_life = record { phase = created; ready = false }

-- What `errCh` brings is an error or nil, `http.ErrServerClosed` having been made nil.
abbrev pub result_of : RunResult → Bool → RunResult
result_of failure true = failure
result_of failure false = stopped

-- The context and the server are free to act in any order.
pub data Step : Life → Life → Type 0 where
  starts :
      {r : Bool}
      → Step (record { phase = created; ready = r }) (record { phase = serving; ready = true })
  cancelled :
      {r : Bool}
      → Step
          (record { phase = serving; ready = r })
          (record { phase = shutting_down; ready = false })
  exits :
      {r : Bool} (failed : Bool)
      → Step
          (record { phase = serving; ready = r })
          (record { phase = finished (result_of start_failed failed); ready = false })
  shut_down :
      {r : Bool}
      → Step (record { phase = shutting_down; ready = r }) (record { phase = draining; ready = r })
  gives_up :
      {r : Bool}
      → Step
          (record { phase = shutting_down; ready = r })
          (record { phase = finished shutdown_failed; ready = r })
  drained :
      {r : Bool} (failed : Bool)
      → Step
          (record { phase = draining; ready = r })
          (record { phase = finished (result_of server_failed failed); ready = r })

pub data Lives : Life → Life → Type 0 where
  here : {a : Life} → Lives a a
  later : {a b c : Life} → Lives a b → Step b c → Lives a c

abbrev pub is_serving : Phase → Bool
is_serving serving = true
is_serving created = false
is_serving shutting_down = false
is_serving draining = false
is_serving (finished r) = false

Step-is_serving :
    {a b : Life} → Step a b → a.ready ≡ is_serving a.phase → b.ready ≡ is_serving b.phase
Step-is_serving starts h = refl
Step-is_serving cancelled h = refl
Step-is_serving (exits failed) h = refl
Step-is_serving shut_down h = h
Step-is_serving gives_up h = h
Step-is_serving (drained failed) h = h

Lives-is_serving : {b : Life} → Lives new_life b → b.ready ≡ is_serving b.phase
Lives-is_serving here = refl
Lives-is_serving (later s t) = Step-is_serving t (Lives-is_serving s)

-- The gateway says that it is ready exactly while it serves: at every point of its life, whatever the
-- order in which the server and its context end, a GET of the readiness is answered with 200 if the
-- server is running and not being stopped, and else with 503; so no way in which `Run` returns
-- leaves the gateway ready.
pub ready_handler-is_serving :
    {life : Life} (state : State) (method : Text)
    → Lives new_life life
    → state.ready ≡ some life.ready
    → method ≡ codes "GET"
    → (ready_handler state method).status ≡ (if is_serving life.phase then 200 else 503)
unfolding ready_handler
ready_handler-is_serving {life} state method lives shown get =
    ground (arith, Lives-is_serving lives, shown, get)
