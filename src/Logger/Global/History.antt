-- ===== src/Logger/Global/History.antt =====
-- Sequences of calls of InitLogger and GetLogger of pkg/logger/logger.go.
use boot_backend_go_clean.Common.{
  ℕ, zero, suc, ◌≡◌, refl, ap, ◌∙◌, Bool, true, false, Option, none, some, List, [], ◌∷◌, arith,
}
use Prim.Native.String.{◌++◌ as string_append}
use boot_backend_go_clean.Common.Text.{Text}
use boot_backend_go_clean.Errors.{Error, error_text}
use boot_backend_go_clean.Effect.{Outcome, ok, err, panic, Action}
use boot_backend_go_clean.Logger.Config.{LoggerConfig, new_default_config}
use boot_backend_go_clean.Logger.Global.{Globals, init_logger_internal, init_logger, get_logger}

pub data Call : Type 0 where
  get : Call
  init : LoggerConfig → Call

abbrev pub start : {W L : Type 0} → W → Globals W L
start w = record { global_logger = none; done = false; world = w }

module _ {W L : Type 0} (make : LoggerConfig → Action W L) (environment : Text) where
  abbrev pub call : Call → Globals W L → Globals W L
  call get g = (get_logger make environment g).1
  call (init config) g = (init_logger make environment config g).1

  pub replay : List Call → Globals W L → Globals W L
  replay [] g = g
  replay (c ∷ calls) g = replay calls (call c g)

  abbrev pub gets : ℕ → List Call
  gets zero = []
  gets (suc n) = get ∷ gets n

  -- What the calls promise: the logger that an InitLogger has made last, and no other is made.
  abbrev newest : Outcome L × W → Option L → Option L × W
  newest (ok l, w) current = (some l, w)
  newest (err e, w) current = (current, w)
  newest (panic m, w) current = (current, w)

  abbrev promise : Call → Option L × W → Option L × W
  promise get s = s
  promise (init config) s = newest (make config s.1) s.0

  pub rebuild : List Call → Option L × W → Option L × W
  rebuild [] s = s
  rebuild (c ∷ calls) s = rebuild calls (promise c s)

  abbrev pub view : Globals W L → Option L × W
  view g = (g.global_logger, g.world)

  abbrev is_set : Option L → Bool
  is_set none = false
  is_set (some l) = true

  call-view :
      (c : Call) (g : Globals W L)
      → is_set g.global_logger ≡ true
      → (view (call c g) ≡ promise c (view g)) × (is_set (call c g).global_logger ≡ true)
  unfolding get_logger init_logger init_logger_internal
  call-view get g h = ground arith
  call-view (init config) g h = ground arith

  -- Once there is a global logger, calls of GetLogger and InitLogger in any order leave the one
  -- that the last InitLogger without an error has made, or else the first one, and make no logger
  -- but those of the calls of InitLogger; GetLogger then returns it.
  pub replay-rebuild :
      (calls : List Call) (g : Globals W L)
      → is_set g.global_logger ≡ true
      → (view (replay calls g) ≡ rebuild calls (view g))
        × ((get_logger make environment (replay calls g)).0 ≡ ok (rebuild calls (view g)).0)
  unfolding replay rebuild get_logger
  replay-rebuild [] g h = (refl, ground arith)
  replay-rebuild (c ∷ calls) g h =
      let (e, set) = call-view c g h in
      let ih = replay-rebuild calls (call c g) set in
      (ih.0 ∙ ap (rebuild calls) e, ih.1 ∙ ap (λ (s : Option L × W). ok (rebuild calls s).0) e)

  gets_nil :
      (n : ℕ) (g : Globals W L)
      → g.done ≡ true
      → g.global_logger ≡ none
      → (get_logger make environment (replay (gets n) g)).0 ≡ ok none
  unfolding replay get_logger
  gets_nil zero g d e = ground arith
  gets_nil (suc n) g d e = gets_nil n (call get g) (ground arith) (ground arith)

  -- If the default logger cannot be made, because its directory cannot, the first GetLogger
  -- panics, and each later one returns nil, until an InitLogger succeeds.
  pub get_logger_nil :
      (w w' : W) (e : Error) (calls : ℕ)
      → make (new_default_config environment) w ≡ (err e, w')
      → ((get_logger make environment (start w)).0
          ≡ panic (string_append "Failed to initialize default logger: " (error_text e)))
        × ((get_logger make environment
              (replay (gets calls) (get_logger make environment (start w)).1)).0
            ≡ ok none)
  unfolding get_logger init_logger_internal
  get_logger_nil w w' e calls h = (ground arith, gets_nil calls _ (ground arith) (ground arith))
