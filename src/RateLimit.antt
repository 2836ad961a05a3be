-- ===== src/RateLimit.antt =====
-- The request rate per user (internal/ratelimit/limiter.go, internal/ratelimit/middleware.go). The
-- token bucket of golang.org/x/time/rate is a parameter; a request is one step, which takes the
-- user's bucket and asks it.
use agent.Base.{
  ℕ, ◌+◌, ◌-◌, ◌*◌, ◌/◌, ◌≡◌, ◌≤◌, ◌<◌, ◌⊎◌, refl, sym, subst, Bool, true, false, Option, none,
  some, [], ltb, leb, if◌then◌else◌, arith, Bool-cases, inl, inr,
}
use agent.Num.{ℤ}
use agent.Text.{Text, text_eq, text_beq_iff, trim_space, is_empty}
use agent.Map.{Map, ◌==◌, lookup, insert, range_update, lookup-insert, lookup-range_update}
use agent.Auth.{Identity}
use agent.Config.{UserRateLimitConfig}

-- `rate.Limiter`: made from a rate and a burst, it answers at a time and is changed by it. `delay`
-- is `Reserve`, `Delay` and `Cancel` in turn: the nanoseconds to wait, `none` if not `OK`.
pub record RateLimiter (F : Type 0) : Type 1 where
  pub Bucket : Type 0
  pub new_bucket : F → ℤ → Bucket
  pub allow : ℕ → Bucket → Bool × Bucket
  pub delay : ℕ → Bucket → Option ℕ × Bucket

pub record UserBucket (B : Type 0) : Type 0 where
  pub limiter : B
  pub last_seen : ℕ

-- `last_cleanup` is `none` for the zero time.
pub record UserLimiter (F B : Type 0) : Type 0 where
  pub identity_header : Text
  pub request_limit : F
  pub burst : ℤ
  pub user_idle_ttl : ℕ
  pub cleanup_interval : ℕ
  pub users : Map Text (UserBucket B)
  pub last_cleanup : Option ℕ

-- What the middleware does: refuse, run the next handler, or ask to retry after some seconds.
pub data Verdict : Type 0 where
  no_identity next_handler : Verdict
  too_many : ℕ → Verdict

unfoldable pub identity_from_request : Option Identity → Text → Text
identity_from_request none header_value = trim_space header_value
identity_from_request (some identity) header_value =
    let user_id = trim_space identity.user_id in
    if is_empty user_id then trim_space header_value else user_id

-- The fewest whole seconds, at least one, that are as long as a wait in nanoseconds; one, if there
-- is no wait to be told.
abbrev pub IsRetry : Option ℕ → ℕ → Type 0
IsRetry none seconds = seconds ≡ 1
IsRetry (some wait) seconds =
    (1 ≤ seconds)
    × (wait ≤ seconds * 1_000_000_000)
    × ((seconds ≡ 1) ⊎ ((seconds - 1) * 1_000_000_000 < wait))

-- What a bucket that allows or not, and asks to wait, makes of a verdict.
abbrev pub IsAnswer : Bool → Option ℕ → Verdict → Type 0
IsAnswer true wait v = v ≡ next_handler
IsAnswer false wait v = (seconds : ℕ) × (v ≡ too_many seconds) × IsRetry wait seconds

abbrev is_recent : Option ℕ → ℕ → ℕ → Bool
is_recent none interval now = false
is_recent (some last) interval now = ltb now (last + interval)

module _ {F : Type 0} (rate : RateLimiter F) where
  open rate use {Bucket, new_bucket, allow, delay}

  -- `canonical` is `http.CanonicalHeaderKey`. The times to live are 10 minutes and one.
  unfoldable pub new_user_limiter : (Text → Text) → UserRateLimitConfig F → UserLimiter F Bucket
  new_user_limiter canonical cfg = record {
    identity_header = canonical (trim_space cfg.identity_header);
    request_limit = cfg.requests_per_second;
    burst = cfg.burst;
    user_idle_ttl = 600_000_000_000;
    cleanup_interval = 60_000_000_000;
    users = [];
    last_cleanup = none;
  }

  abbrev keep_user : ℕ → ℕ → Text → UserBucket Bucket → Option (UserBucket Bucket)
  keep_user ttl now identity b = if leb (b.last_seen + ttl) now then none else some b

  unfoldable pub cleanup_locked : ℕ → UserLimiter F Bucket → UserLimiter F Bucket
  cleanup_locked now l = if is_recent l.last_cleanup l.cleanup_interval now then l else record l {
    last_cleanup = some now;
    users = range_update (keep_user l.user_idle_ttl now) l.users;
  }

  abbrev or_new : UserLimiter F Bucket → Option (UserBucket Bucket) → Bucket
  or_new l none = new_bucket l.request_limit l.burst
  or_new l (some b) = b.limiter

  -- The bucket of an identity, and the limiter with its `lastSeen` brought up to date.
  unfoldable pub bucket : Text → ℕ → UserLimiter F Bucket → UserLimiter F Bucket × Bucket
  unfolding cleanup_locked
  bucket identity now l =
      let l₁ = cleanup_locked now l in
      let b = or_new l₁ (lookup identity l₁.users) in
      (record l₁ { users = insert identity (record { limiter = b; last_seen = now }) l₁.users }, b)

  -- What a call on the bucket leaves behind its pointer.
  abbrev store_bucket : Text → ℕ → Bucket → UserLimiter F Bucket → UserLimiter F Bucket
  store_bucket identity now b l = record l {
    users = insert identity (record { limiter = b; last_seen = now }) l.users;
  }

  unfoldable pub retry_seconds : Option ℕ → ℕ
  retry_seconds none = 1
  retry_seconds (some nanoseconds) =
      let seconds = (nanoseconds + 999_999_999) / 1_000_000_000 in
      if ltb seconds 1 then 1 else seconds

  retry_seconds-IsRetry : (wait : Option ℕ) → IsRetry wait (retry_seconds wait)
  unfolding retry_seconds
  retry_seconds-IsRetry none = refl
  retry_seconds-IsRetry (some wait) = ground arith

  verdict-IsAnswer :
      (allowed : Bool) (wait : Option ℕ)
      → IsAnswer allowed wait (if allowed then next_handler else too_many (retry_seconds wait))
  verdict-IsAnswer true wait = refl
  verdict-IsAnswer false wait = (retry_seconds wait, refl, retry_seconds-IsRetry wait)

  unfoldable pub middleware :
      Option Identity → Text → ℕ → UserLimiter F Bucket → UserLimiter F Bucket × Verdict
  unfolding bucket identity_from_request retry_seconds
  middleware auth header_value now l =
      let identity = identity_from_request auth header_value in
      let (l₁, b) = bucket identity now l in
      let (allowed, b₁) = allow now b in
      let (wait, b₂) = delay now b₁ in
      if is_empty identity
      then (l, no_identity)
      else if allowed
      then (store_bucket identity now b₁ l₁, next_handler)
      else (store_bucket identity now b₂ l₁, too_many (retry_seconds wait))

  cleanup-lookup :
      (now : ℕ) (l : UserLimiter F Bucket) (j : Text) {b : UserBucket Bucket}
      → lookup j l.users ≡ some b
      → now < b.last_seen + l.user_idle_ttl
      → lookup j (cleanup_locked now l).users ≡ some b
  unfolding cleanup_locked
  cleanup-lookup now l j {b} e awake =
      elim (Bool-cases (is_recent l.last_cleanup l.cleanup_interval now)) [
        | inl recent ↦ ground arith
        | inr due ↦
            rw (due) (ground (arith, lookup-range_update (keep_user l.user_idle_ttl now) j l.users))
      ]

  -- A bucket once a request has asked it.
  abbrev pub spent : ℕ → Bucket → Bucket
  spent now b = if (allow now b).0 then (allow now b).1 else (delay now (allow now b).1).1

  module _ (auth : Option Identity) (header_value : Text) (now : ℕ) (l : UserLimiter F Bucket)
      (j : Text) {b : UserBucket Bucket} (e : lookup j l.users ≡ some b)
      (awake : now < b.last_seen + l.user_idle_ttl)
      (named : is_empty (identity_from_request auth header_value) ≡ false) where
    -- A user's bucket is the user's own: a request of anybody else leaves the bucket of a user who
    -- was seen within the time to live as it was, and the user's own request leaves the same bucket
    -- after it was asked, and the user as seen now.
    pub middleware-lookup :
        lookup j (middleware auth header_value now l).0.users
        ≡ some (
            if identity_from_request auth header_value == j
            then record { limiter = spent now b.limiter; last_seen = now }
            else b)
    unfolding middleware
    middleware-lookup =
        let k = identity_from_request auth header_value in
        let l₁ = cleanup_locked now l in
        let kept = cleanup-lookup now l j e awake in
        let b₀ = or_new l₁ (lookup k l₁.users) in
        let l₂ = (bucket k now l).0 in
        let b₁ = (allow now b₀).1 in
        let b₂ = (delay now b₁).1 in
        ground (
          arith,
          kept,
          text_beq_iff k j,
          lookup-insert j k (record { limiter = b₀; last_seen = now }) l₁.users,
          lookup-insert j k (record { limiter = b₁; last_seen = now }) l₂.users,
          lookup-insert j k (record { limiter = b₂; last_seen = now }) l₂.users,
        )

    -- The request of a user who was seen within the time to live is answered by the user's own
    -- bucket: the next handler runs exactly if that bucket allows it, and otherwise the user is told
    -- to retry after the fewest whole seconds, and at least one, that are as long as the bucket asks
    -- to wait; after one second, if the bucket can never serve the request.
    pub middleware-verdict :
        identity_from_request auth header_value ≡ j
        → IsAnswer
            (allow now b.limiter).0
            (delay now (allow now b.limiter).1).0
            (middleware auth header_value now l).1
    unfolding middleware
    middleware-verdict same =
        let kept = cleanup-lookup now l j e awake in
        let wait = (delay now (allow now b.limiter).1).0 in
        let answer : (middleware auth header_value now l).1
            ≡ (if (allow now b.limiter).0 then next_handler else too_many (retry_seconds wait)) =
          ground (arith, kept) in
        subst (IsAnswer (allow now b.limiter).0 wait) (sym answer)
          (verdict-IsAnswer (allow now b.limiter).0 wait)
