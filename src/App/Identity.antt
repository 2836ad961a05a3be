-- ===== src/App/Identity.antt =====
-- Whose request it is (internal/app/app.go with internal/auth/identity.go, and the identities that
-- internal/ratelimit/middleware.go and internal/tokenusage/middleware.go take from it).
use agent.Base.{
  ℕ, ◌≡◌, refl, ap, Bool, true, not, Option, none, some, List, [], ◌∷◌, arith, all, if◌then◌else◌,
}
use agent.Text.{Text, text_eq, trim_space, is_empty}
use agent.Map.{◌==◌}
use agent.Auth.{
  Identity, ApiKeyAuthenticator, ApiKeyCredential, match_credentials, authenticate, extract_api_key,
}
use agent.Auth
use agent.RateLimit.{RateLimiter, UserLimiter}
use agent.RateLimit
use agent.Budget.{BudgetLimiter}
use agent.Usage.{RequestEstimate, estimate_request}
use agent.Controller.{Json, Request, HandlerRun, estimated_request}
use agent.Controller
use agent.App.Pipeline.{
  Gateway, ChatRequest, Clock, budgeted, budget_stage, rate_stage, chat, serve, guarded,
  with_budget, by_key,
}
use agent.Errors.{ErrorBody}

-- A user that a header cannot replace.
abbrev pub has_user : Identity → Bool
has_user i = not (is_empty (trim_space i.user_id))

abbrev user_or_nobody : Option Identity → Bool
user_or_nobody none = true
user_or_nobody (some i) = has_user i

match_credentials-has_user :
    (digest : List ℕ) (cs : List ApiKeyCredential) (matched : Option Identity)
    → all (λ c. has_user c.identity) cs ≡ true
    → user_or_nobody matched ≡ true
    → user_or_nobody (match_credentials digest cs matched) ≡ true
unfolding match_credentials
match_credentials-has_user digest [] matched h m = m
match_credentials-has_user digest (c ∷ cs) matched h m =
    match_credentials-has_user digest cs (if digest == c.hash then some c.identity else matched)
      (ground arith) (ground arith)

module _ (i : Identity) (named : has_user i ≡ true) where
  controller_identity :
      (q₁ q₂ : Request) (key : Text)
      → q₁.identity ≡ some i
      → q₂.identity ≡ some i
      → Controller.identity_from_request q₁ key ≡ Controller.identity_from_request q₂ key
  unfolding Controller.identity_from_request
  controller_identity q₁ q₂ key e₁ e₂ = rw (e₁, e₂, named) refl

  rate_identity :
      (v w : Text)
      → RateLimit.identity_from_request (some i) v ≡ RateLimit.identity_from_request (some i) w
  unfolding RateLimit.identity_from_request
  rate_identity v w = ground (arith, named)

  module _ (json : Json) (can_flush : Bool) (now later : ℕ) (next : HandlerRun)
      (l : BudgetLimiter) where
    estimated_request-header :
        (o : Option RequestEstimate) (q₁ q₂ : Request)
        → q₁.identity ≡ some i
        → q₂.identity ≡ some i
        → estimated_request json can_flush o q₁ now later next l
          ≡ estimated_request json can_flush o q₂ now later next l
    unfolding estimated_request
    estimated_request-header none q₁ q₂ e₁ e₂ = refl
    estimated_request-header (some e) q₁ q₂ e₁ e₂ =
        rw (controller_identity q₁ q₂ l.identity_header e₁ e₂) refl

    asked_by : Option Text → Text → (Text → Text) → Request
    asked_by raw_body method header = record {
      method = method;
      raw_body = raw_body;
      identity = some i;
      header = header;
    }

    middleware-header :
        (raw_body : Option Text) (method : Text) (header other : Text → Text)
        → Controller.middleware json can_flush (asked_by raw_body method header) now later next l
          ≡ Controller.middleware json can_flush (asked_by raw_body method other) now later next l
    unfolding Controller.middleware asked_by
    middleware-header none method header other = refl
    middleware-header (some raw_body) method header other =
        let estimate =
          estimate_request json.content (json.as_request raw_body)
            l.default_max_completion_tokens in
        rw
          (estimated_request-header estimate (asked_by (some raw_body) method header)
            (asked_by (some raw_body) method other) refl refl)
          refl

abbrev verdict_has_user : Auth.Verdict → Bool
verdict_has_user Auth.missing_key = true
verdict_has_user Auth.invalid_key = true
verdict_has_user (Auth.next_with identity) = has_user identity

middleware-has_user :
    (sha256 : Text → List ℕ) (a : ApiKeyAuthenticator) (value : Text)
    → all (λ c. has_user c.identity) a.credentials ≡ true
    → verdict_has_user (Auth.middleware sha256 a value) ≡ true
unfolding Auth.middleware authenticate
middleware-has_user sha256 a value h =
    elim (extract_api_key a value)
      as (λ k.
        verdict_has_user (elim k [
          | none ↦ Auth.missing_key
          | some api_key ↦ Auth.verdict_of (authenticate sha256 a api_key)
        ])
        ≡ true) [
          | none ↦ refl
          | some api_key ↦
              found-has_user (match_credentials (sha256 api_key) a.credentials none)
                (match_credentials-has_user (sha256 api_key) a.credentials none h refl)
        ]
  where
    found-has_user :
        (o : Option Identity)
        → user_or_nobody o ≡ true
        → verdict_has_user (Auth.verdict_of o) ≡ true
    found-has_user none u = refl
    found-has_user (some i) u = u

-- With an identity that has a user, the limits do not read the request's headers but for the key.
module _ {F : Type 0} (rate : RateLimiter F) (json : Json) (can_flush : Bool) where
  open rate use {Bucket}

  module _ (i : Identity) (named : has_user i ≡ true) (r : ChatRequest) (other : Text → Text)
      (t : Clock) (next : HandlerRun) where
    budget_stage-header :
        (l : Option BudgetLimiter)
        → budget_stage rate json can_flush (some i) (record r { header = other }) t next l
          ≡ budget_stage rate json can_flush (some i) r t next l
    unfolding budget_stage asked_by
    budget_stage-header none = refl
    budget_stage-header (some l) =
        ap (λ h. (some h.limiter, budgeted h.reply))
          (middleware-header i named json can_flush t.reserved t.settled next l r.raw_body r.method
            other r.header)

    rate-middleware-header :
        (v w : Text) (now : ℕ) (l : UserLimiter F Bucket)
        → RateLimit.middleware rate (some i) v now l ≡ RateLimit.middleware rate (some i) w now l
    unfolding RateLimit.middleware
    rate-middleware-header v w now l = rw (rate_identity i named v w) refl

    rate_stage-header :
        (users : Option (UserLimiter F Bucket)) (g : Gateway F Bucket)
        → rate_stage rate json can_flush (some i) (record r { header = other }) t next users g
          ≡ rate_stage rate json can_flush (some i) r t next users g
    unfolding rate_stage
    rate_stage-header none g = ap (with_budget rate json can_flush g) (budget_stage-header g.budget)
    rate_stage-header (some l) g =
        rw
          (
            budget_stage-header g.budget,
            rate-middleware-header (other l.identity_header) (r.header l.identity_header) t.arrival
                l,
          )
          refl

  by_key-header :
      (r : ChatRequest) (other : Text → Text) (t : Clock) (next : HandlerRun) (g : Gateway F Bucket)
      (v : Auth.Verdict)
      → verdict_has_user v ≡ true
      → by_key rate json can_flush
          (λ identity.
            rate_stage rate json can_flush identity (record r { header = other }) t next g.users g)
          g
          v
        ≡ by_key rate json can_flush
            (λ identity. rate_stage rate json can_flush identity r t next g.users g)
            g
            v
  by_key-header r other t next g Auth.missing_key h = refl
  by_key-header r other t next g Auth.invalid_key h = refl
  by_key-header r other t next g (Auth.next_with i) h =
      rate_stage-header i h r other t next g.users g

  -- A header cannot change whose request it is: where a request needs an API key, and each
  -- configured key names a user, two requests that differ only in headers other than that of the
  -- key, to the same run of the handler, have the same outcome and leave the limits the same. Nobody
  -- spends the tokens or the rate of another user by naming that user in a header.
  pub serve-header :
      (encode : ErrorBody → Text) (sha256 : Text → List ℕ) (r : ChatRequest) (t : Clock)
      (handler : HandlerRun) (g : Gateway F Bucket) (a : ApiKeyAuthenticator) (other : Text → Text)
      → g.authenticator ≡ some a
      → all (λ c. has_user c.identity) a.credentials ≡ true
      → other a.header ≡ r.header a.header
      → serve rate json can_flush encode sha256 (record r { header = other }) t handler g
        ≡ serve rate json can_flush encode sha256 r t handler g
  unfolding serve chat Auth.middleware
  serve-header encode sha256 r t handler g a other e named same =
      rw (e, same)
        (by_key-header r other t (guarded encode g.slots handler)
          (record g { authenticator = some a }) (Auth.middleware sha256 a (r.header a.header))
          (middleware-has_user sha256 a (r.header a.header) named))
