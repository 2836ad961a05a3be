-- ===== src/Tests/Gates.antt =====
-- Runs of the API keys and of the limits on rate and concurrency.
use agent.Base.{
  ℕ, ◌-◌, ◌≡◌, ◌≤◌, refl, true, false, none, some, List, [], ◌∷◌, arith, if◌then◌else◌, ltb,
}
use agent.Num.{pos, pos_part}
use agent.Text.{Text, text_eq, codes, trim_space}
use agent.Map.{lookup, distinct}
use agent.Config.{ConcurrencyLimitConfig}
use agent.Auth.{Identity, ApiKeyCredential, ApiKeyAuthenticator, authenticate, match_credentials}
use agent.Auth.Keys.{In, here, there, authenticate_sound, authenticate_complete}
use agent.RateLimit.{
  RateLimiter, UserLimiter, IsAnswer, middleware, identity_from_request, middleware-verdict,
}
use agent.Concurrency

abbrev user : Text → Identity
user name = record { key_id = name; user_id = name; tenant_id = []; scopes = [] }

abbrev credential : ℕ → Text → ApiKeyCredential
credential hash name = record { hash = hash ∷ []; identity = user name }

abbrev keys : ApiKeyAuthenticator
keys = record {
  header = codes "X-Api-Key";
  credentials = credential 97 (codes "ann") ∷ credential 98 (codes "bob") ∷ [];
}

-- A digest that tells these keys apart.
abbrev digest : Text → List ℕ
digest s = s

sound_key_example :
    (c : ApiKeyCredential) × In c keys.credentials
    × (c.hash ≡ codes "b")
    × (c.identity ≡ user (codes "bob"))
unfolding authenticate match_credentials
sound_key_example = authenticate_sound digest keys (codes "b") refl

complete_key_example : authenticate digest keys (codes "b") ≡ some (user (codes "bob"))
unfolding distinct
complete_key_example =
    authenticate_complete digest keys (codes "b") (credential 98 (codes "bob")) (there here) refl
      refl

-- A bucket that counts down its tokens.
abbrev counting : RateLimiter ℕ
counting = record {
  Bucket = ℕ;
  new_bucket = λ rate burst. pos_part burst;
  allow = λ now b. if ltb 0 b then (true, b - 1) else (false, b);
  delay = λ now b. (some 1_500_000_000, b);
}

abbrev limiter : UserLimiter ℕ ℕ
limiter = record {
  identity_header = codes "X-User-Id";
  request_limit = 1;
  burst = pos 3;
  user_idle_ttl = 600;
  cleanup_interval = 60;
  users = (codes "ann", record { limiter = 0; last_seen = 10 }) ∷ [];
  last_cleanup = none;
}

verdict_example :
    IsAnswer false (some 1_500_000_000) (middleware counting none (codes "ann") 100 limiter).1
unfolding identity_from_request lookup trim_space
verdict_example =
    middleware-verdict counting none (codes "ann") 100 limiter (codes "ann") refl (omega arith) refl
      refl

abbrev one_slot : ConcurrencyLimitConfig
one_slot = record { enabled = true; max_in_flight = pos 1 }

abbrev busy : Concurrency.Gate
busy = Concurrency.arrive (Concurrency.arrive (Concurrency.opening one_slot))

abbrev two_arrivals : Concurrency.Steps (Concurrency.opening one_slot) busy
two_arrivals =
    Concurrency.next (Concurrency.next Concurrency.here Concurrency.arrives) Concurrency.arrives

capped_example :
    (busy.serving ≤ 1)
    × (Concurrency.release busy.limiter ≡ (
        if ltb 0 busy.serving
        then some (record busy.limiter { slots = busy.serving - 1 })
        else none))
    × ((Concurrency.acquire busy.limiter).1 ≡ ltb busy.serving 1)
capped_example = Concurrency.Steps-capped one_slot two_arrivals
