-- ===== src/Logger/Context.antt =====
-- pkg/logger/context.go: the logger that a context carries.
use boot_backend_go_clean.Common.{◌≡◌, refl, String, Option, none, some, List, [], ◌∷◌}
use boot_backend_go_clean.Common.Text.{Text}
use boot_backend_go_clean.Effect.{ok, Action}
use boot_backend_go_clean.Logger.Global.{Globals}

-- A value that context.WithValue has set: a logger under ctxKey{}, or one under another key.
pub data Value (L : Type 0) : Type 0 where
  logger : L → Value L
  other : String → Text → Value L

-- The values of a context, the last one first.
abbrev pub Context : Type 0 → Type 0
Context L = List (Value L)

-- NewContext
unfoldable pub new_context : {L : Type 0} → Context L → L → Context L
new_context ctx l = logger l ∷ ctx

-- ctx.Value(ctxKey{}).(Logger)
unfoldable pub logger_value : {L : Type 0} → Context L → Option L
logger_value [] = none
logger_value (logger l ∷ ctx) = some l
logger_value (other key v ∷ ctx) = logger_value ctx

module _ {W L : Type 0} (get_logger : Action (Globals W L) (Option L)) where
  abbrev found : Option L → Action (Globals W L) (Option L)
  found (some l) g = (ok (some l), g)
  found none g = get_logger g

  -- FromContext
  unfoldable pub from_context : Context L → Action (Globals W L) (Option L)
  unfolding logger_value
  from_context ctx = found (logger_value ctx)

  -- Values of other keys that are set above.
  abbrev pub others : List (String × Text) → Context L → Context L
  others [] ctx = ctx
  others ((key, v) ∷ values) ctx = other key v ∷ others values ctx

  logger_value-others :
      (values : List (String × Text)) (ctx : Context L)
      → logger_value (others values ctx) ≡ logger_value ctx
  unfolding logger_value
  logger_value-others [] ctx = refl
  logger_value-others ((key, v) ∷ values) ctx = logger_value-others values ctx

  -- FromContext gives the logger that NewContext has attached last, whatever values of other keys
  -- a context derived from it holds, and then leaves the global logger alone; without one it is
  -- GetLogger.
  pub from_context_lem :
      (values : List (String × Text)) (ctx : Context L) (l : L) (g : Globals W L)
      → (from_context (others values (new_context ctx l)) g ≡ (ok (some l), g))
        × (from_context (others values []) g ≡ get_logger g)
  unfolding from_context new_context
  from_context_lem values ctx l g =
      rw (logger_value-others values (new_context ctx l), logger_value-others values [])
        (refl, refl)
