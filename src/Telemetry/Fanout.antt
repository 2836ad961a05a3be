-- ===== src/Telemetry/Fanout.antt =====
-- Which handlers a record of the logger reaches (internal/telemetry/logger.go, Enabled and Handle).
use agent.Base.{
  ◌≡◌, refl, Bool, true, false, Option, none, some, List, [], ◌∷◌, if◌then◌else◌, arith,
}
use agent.Num.{ℤ}
use agent.Telemetry.Logger.{
  Slog, FanoutHandler, first_error, enabled, enabled_any, handle, handle_each, with_attrs,
  with_each,
}

module _ {S : Type 0} (slog : Slog S) where
  open slog use {Handler, Entry, Attrs, Failure}

  -- The handlers that accept a level.
  pub accepting : ℤ → List Handler → List Handler
  accepting l [] = []
  accepting l (h ∷ hs) = let rest = accepting l hs in if slog.enabled l h then h ∷ rest else rest

  -- The failures of handlers that are given a record one after the other.
  pub deliver : Entry → List Handler → S → List Failure × S
  deliver r [] s = ([], s)
  deliver r (h ∷ hs) s =
      let (failed, s₁) = slog.handle h (slog.clone r) s in
      let (failures, s₂) = deliver r hs s₁ in
      (elim failed [ none ↦ failures | some e ↦ e ∷ failures ], s₂)

  abbrev pub first : List Failure → Option Failure
  first [] = none
  first (e ∷ es) = some e

  abbrev pub is_some : List Handler → Bool
  is_some [] = false
  is_some (h ∷ hs) = true

  handle_each-deliver :
      (r : Entry) (err : Option Failure) (hs : List Handler) (s : S)
      → let (failures, s') = deliver r (accepting (slog.level r) hs) s in
        handle_each slog r err hs s ≡ (first_error err (first failures), s')
  unfolding handle_each accepting deliver first_error
  handle_each-deliver r none [] s = refl
  handle_each-deliver r (some e) [] s = refl
  handle_each-deliver r err (h ∷ hs) s =
      let skipped = handle_each-deliver r err hs s in
      let failed = (slog.handle h (slog.clone r) s).0 in
      let handled =
        handle_each-deliver r (first_error err failed) hs (slog.handle h (slog.clone r) s).1 in
      ground (arith, skipped, handled)

  enabled_any-accepting :
      (l : ℤ) (hs : List Handler) → enabled_any slog l hs ≡ is_some (accepting l hs)
  unfolding enabled_any accepting
  enabled_any-accepting l [] = refl
  enabled_any-accepting l (h ∷ hs) = let rest = enabled_any-accepting l hs in ground (arith, rest)

  -- A record reaches each handler that accepts its level, in their order, whatever an earlier one
  -- reports, and no other; the error is the first that one of them reports. Exactly when there is no
  -- such handler, the logger says that the level is not enabled.
  pub handle-delivers :
      (f : FanoutHandler Handler) (r : Entry) (s : S)
      → let reached = accepting (slog.level r) f.handlers in
        let (failures, s') = deliver r reached s in
        (handle slog f r s ≡ (first failures, s'))
        × (enabled slog (slog.level r) f ≡ is_some reached)
  unfolding handle enabled first_error
  handle-delivers f r s =
      (handle_each-deliver r none f.handlers s, enabled_any-accepting (slog.level r) f.handlers)

  enabled_any-with_each :
      (g : Handler → Handler) (l : ℤ)
      → ((h : Handler) → slog.enabled l (g h) ≡ slog.enabled l h)
      → (hs : List Handler) → enabled_any slog l (with_each slog g hs) ≡ enabled_any slog l hs
  unfolding enabled_any with_each
  enabled_any-with_each g l keeps [] = refl
  enabled_any-with_each g l keeps (h ∷ hs) =
      let rest = enabled_any-with_each g l keeps hs in rw (keeps h, rest) refl

  -- Attributes leave the levels of the logger as they are, if they do so for each handler.
  pub enabled-with_attrs :
      (attrs : Attrs) (l : ℤ)
      → ((h : Handler) → slog.enabled l (slog.with_attrs attrs h) ≡ slog.enabled l h)
      → (f : FanoutHandler Handler) → enabled slog l (with_attrs slog attrs f) ≡ enabled slog l f
  unfolding enabled with_attrs
  enabled-with_attrs attrs l keeps f =
      enabled_any-with_each (slog.with_attrs attrs) l keeps f.handlers
