-- ===== src/Telemetry/Logger.antt =====
-- The logger, which hands each record to several handlers (internal/telemetry/logger.go). The
-- handlers of log/slog and of OpenTelemetry are a parameter.
use agent.Base.{Bool, true, false, not, Option, none, some, List, [], ◌∷◌, if◌then◌else◌}
use agent.Num.{ℤ}
use agent.Text.{Text}
use agent.Telemetry.{Runtime, logs_enabled}

-- `slog.Handler`, with what its methods read and change as the state `S`; `Entry` is `slog.Record`.
pub record Slog (S : Type 0) : Type 1 where
  pub Handler : Type 0
  pub Entry : Type 0
  pub Attrs : Type 0
  pub Failure : Type 0
  pub level : Entry → ℤ
  pub clone : Entry → Entry
  pub enabled : ℤ → Handler → Bool
  pub handle : Handler → Entry → S → Option Failure × S
  pub with_attrs : Attrs → Handler → Handler
  pub with_group : Text → Handler → Handler

pub record FanoutHandler (H : Type 0) : Type 0 where
  pub handlers : List H

-- The handlers that are not nil.
unfoldable pub present : {H : Type 0} → List (Option H) → List H
present [] = []
present (none ∷ hs) = present hs
present (some h ∷ hs) = h ∷ present hs

unfoldable pub new_fanout_handler : {H : Type 0} → List (Option H) → FanoutHandler H
new_fanout_handler hs = record { handlers = present hs }

-- `NewLogger`: the handler of the text written for a level, information if none is given, and the
-- one of the runtime's logger provider.
unfoldable pub new_logger :
    {H : Type 0} → (ℤ → H) → H → ℤ → Option ℤ → Option Runtime → FanoutHandler H
unfolding new_fanout_handler
new_logger text_handler otel_handler level_info level runtime =
    let least : ℤ = elim level [ none ↦ level_info | some l ↦ l ] in
    let otel = if logs_enabled runtime then some otel_handler ∷ [] else [] in
    new_fanout_handler (some (text_handler least) ∷ otel)

unfoldable pub first_error : {E : Type 0} → Option E → Option E → Option E
first_error none err = err
first_error (some e) err = some e

module _ {S : Type 0} (slog : Slog S) where
  open slog use {Handler, Entry, Attrs, Failure}

  unfoldable pub enabled_any : ℤ → List Handler → Bool
  enabled_any l [] = false
  enabled_any l (h ∷ hs) = let rest = enabled_any l hs in if slog.enabled l h then true else rest

  unfoldable pub enabled : ℤ → FanoutHandler Handler → Bool
  enabled l f = enabled_any l f.handlers

  -- The loop of `Handle`, with the first error so far.
  unfoldable pub handle_each : Entry → Option Failure → List Handler → S → Option Failure × S
  unfolding first_error
  handle_each r err [] s = (err, s)
  handle_each r err (h ∷ hs) s =
      let (failed, s') = slog.handle h (slog.clone r) s in
      let skipped = handle_each r err hs s in
      let handled = handle_each r (first_error err failed) hs s' in
      if not (slog.enabled (slog.level r) h) then skipped else handled

  unfoldable pub handle : FanoutHandler Handler → Entry → S → Option Failure × S
  unfolding handle_each
  handle f r s = handle_each r none f.handlers s

  unfoldable pub with_each : (Handler → Handler) → List Handler → List Handler
  with_each g [] = []
  with_each g (h ∷ hs) = g h ∷ with_each g hs

  unfoldable pub with_attrs : Attrs → FanoutHandler Handler → FanoutHandler Handler
  unfolding with_each
  with_attrs attrs f = record { handlers = with_each (slog.with_attrs attrs) f.handlers }

  unfoldable pub with_group : Text → FanoutHandler Handler → FanoutHandler Handler
  unfolding with_each
  with_group name f = record { handlers = with_each (slog.with_group name) f.handlers }
