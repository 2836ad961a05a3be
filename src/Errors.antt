-- ===== src/Errors.antt =====
-- The errors that the middlewares write (internal/auth/response.go, internal/concurrency/response.go,
-- internal/ratelimit/response.go, internal/tokenusage/response.go). The JSON encoder is a parameter.
use agent.Base.{ℕ, Option, none, List, [], ◌∷◌}
use agent.Text.{Text, codes}
use agent.Capture.{WriterCall, write_header, write}

pub record ErrorBody : Type 0 where
  pub message : Text
  pub type : Text
  pub param : Option Text
  pub code : Option Text

-- The headers that are set, and the calls on the writer.
pub record Written : Type 0 where
  pub headers : List (Text × Text)
  pub calls : List WriterCall

abbrev pub json_type : Text × Text
json_type = (codes "Content-Type", codes "application/json; charset=utf-8")

module _ (encode : ErrorBody → Text) where
  abbrev pub error_calls : ℕ → Text → Text → List WriterCall
  error_calls status message error_type =
      let body : ErrorBody = record {
        message = message;
        type = error_type;
        param = none;
        code = none;
      } in
      write_header status ∷ write (encode body) ∷ []

  unfoldable pub write_auth_error : ℕ → Text → Text → Written
  write_auth_error status message error_type = record {
    headers = json_type ∷ (codes "Www-Authenticate", codes "Bearer") ∷ [];
    calls = error_calls status message error_type;
  }

  unfoldable pub write_concurrency_error : ℕ → Text → Text → Written
  write_concurrency_error status message error_type = record {
    headers = json_type ∷ [];
    calls = error_calls status message error_type;
  }

  unfoldable pub write_rate_limit_error : ℕ → Text → Text → Written
  write_rate_limit_error status message error_type = record {
    headers = json_type ∷ [];
    calls = error_calls status message error_type;
  }

  unfoldable pub write_token_usage_error : ℕ → Text → Text → Written
  write_token_usage_error status message error_type = record {
    headers = json_type ∷ [];
    calls = error_calls status message error_type;
  }
