-- ===== src/Snowflake/Once.antt =====
-- What `once` makes of InitNode in pkg/utils/snowflake/snowflake.go.
use boot_backend_go_clean.Common.{
  ◌≡◌, ◌⊎◌, refl, sym, ap, ◌∙◌, Bool, true, false, Option, none, some, List, [], ◌∷◌, Bool-cases,
  inl, inr, if◌then◌else◌,
}
use boot_backend_go_clean.Common.Int.{ℤ}
use boot_backend_go_clean.Common.Text.{Text}
use boot_backend_go_clean.Errors.{Error}
use boot_backend_go_clean.Effect.{Outcome, panic}
use boot_backend_go_clean.Snowflake.{
  Settings, NodeSettings, Global, fresh, built, start_time, configure, init_node, next_id,
}

if_false : {A : Type 0} (b : Bool) (x y : A) → b ≡ false → (if b then x else y) ≡ y
if_false b x y h = rw (h) refl

module _ {N : Type 0} (parse_time : Text → Option ℤ)
    (new_node : NodeSettings → Option N × Option Error) where
  -- Any number of calls of InitNode after the first.
  unfoldable pub retry : List Settings → Global N → Global N
  retry [] g = g
  retry (config ∷ configs) g = retry configs (init_node parse_time new_node config g).1

  built-done : (r : Option N × Option Error) → (built parse_time new_node r).1.done ≡ true
  built-done (n, none) = refl
  built-done (n, some e) = refl

  configure-done :
      (config : Settings) (t : Option ℤ) (g : Global N)
      → (configure parse_time new_node config t g).1.done ≡ true
  configure-done config none g = refl
  configure-done config (some t) g = built-done (new_node _)

  built-failed :
      (r : Option N × Option Error) (e : Error)
      → ((n : Option N) (e : Error) → r ≡ (n, some e) → n ≡ none)
      → (built parse_time new_node r).0 ≡ some e
      → (built parse_time new_node r).1.node ≡ none
  built-failed (n, none) e no_node failed = cc failed
  built-failed (n, some e') e no_node failed = no_node n e' refl

  configure-failed :
      ((st : NodeSettings) (n : Option N) (e : Error) → new_node st ≡ (n, some e) → n ≡ none)
      → (config : Settings) (t : Option ℤ) (e : Error)
      → (configure parse_time new_node config t fresh).0 ≡ some e
      → (configure parse_time new_node config t fresh).1.node ≡ none
  configure-failed no_node config none e failed = refl
  configure-failed no_node config (some t) e failed = built-failed (new_node _) e (no_node _) failed

  -- The node of the package: InitNode has made it from the configuration, without an error, or has
  -- been called before and leaves what stands there.
  abbrev pub IsMade : Settings → Global N → Global N → Type 0
  IsMade config g g' =
      ((g.done ≡ true) × (g' ≡ g))
      ⊎ ((st : NodeSettings) × (n : Option N) × (start_time parse_time new_node config
            ≡ some st.start_time)
          × (new_node st ≡ (n, none))
          × (g' ≡ record { done = true; node = n }))

  built-made :
      (r : Option N × Option Error)
      → (built parse_time new_node r).0 ≡ none
      → (r ≡ (r.0, none)) × ((built parse_time new_node r).1 ≡ record { done = true; node = r.0 })
  built-made (n, none) made = (refl, refl)
  built-made (n, some e) made = cc

  configure-IsMade :
      (config : Settings) (o : Option ℤ) (g : Global N)
      → start_time parse_time new_node config ≡ o
      → (configure parse_time new_node config o g).0 ≡ none
      → IsMade config g (configure parse_time new_node config o g).1
  configure-IsMade config none g e made = cc
  configure-IsMade config (some t) g e made =
      let (r, built) = built-made (new_node _) made in inr (_, _, e, r, built)

  init_node-first :
      (config : Settings) (g : Global N)
      → g.done ≡ false
      → init_node parse_time new_node config g
        ≡ configure parse_time new_node config (start_time parse_time new_node config) g
  unfolding init_node
  init_node-first config g first = if_false g.done _ _ first

  pub init_node-IsMade :
      (config : Settings) (g : Global N)
      → (init_node parse_time new_node config g).0 ≡ none
      → IsMade config g (init_node parse_time new_node config g).1
  unfolding init_node
  init_node-IsMade config g made = elim (Bool-cases g.done) [
    | inl done ↦ inl (done, rw (done) refl)
    | inr first ↦
        let e = init_node-first config g first in
        rw e (
          configure-IsMade config (start_time parse_time new_node config) g refl
            (ap (λ (r : Option Error × Global N). r.0) (sym e) ∙ made))
  ]

  init_node-done :
      (config : Settings) (g : Global N) → (init_node parse_time new_node config g).1.done ≡ true
  unfolding init_node
  init_node-done config g = elim (Bool-cases g.done) [
    | inl done ↦ rw (done) refl
    | inr first ↦
        ap (λ (r : Option Error × Global N). r.1.done) (init_node-first config g first)
        ∙ configure-done config _ g
  ]

  init_node-again :
      (config : Settings) (g : Global N)
      → g.done ≡ true
      → init_node parse_time new_node config g ≡ (none, g)
  unfolding init_node
  init_node-again config g done = rw (done) refl

  retry-done : (configs : List Settings) (g : Global N) → g.done ≡ true → retry configs g ≡ g
  unfolding retry
  retry-done [] g done = refl
  retry-done (config ∷ configs) g done =
      rw (init_node-again config g done) (retry-done configs g done)

  init_node-failed :
      ((st : NodeSettings) (n : Option N) (e : Error) → new_node st ≡ (n, some e) → n ≡ none)
      → (config : Settings) (e : Error) → (init_node parse_time new_node config fresh).0 ≡ some e
      → (init_node parse_time new_node config fresh).1.node ≡ none
  unfolding init_node
  init_node-failed no_node config e failed = configure-failed no_node config _ e failed

  module _ (next : N → Outcome ℤ × N) where
    next_id-none :
        (g : Global N) → g.node ≡ none → (next_id next g).0 ≡ panic "snowflake node not initialized"
    unfolding next_id
    next_id-none g h = rw (next_id, h) refl

    -- When the first call of InitNode has failed, each later call reports success and yet NextID
    -- panics, whatever the configurations, if a failed construction gives no node.
    pub init_node_fails_for_good :
        ((st : NodeSettings) (n : Option N) (e : Error) → new_node st ≡ (n, some e) → n ≡ none)
        → (config : Settings) (e : Error) → (init_node parse_time new_node config fresh).0 ≡ some e
        → (configs : List Settings) (again : Settings)
        → ((init_node parse_time new_node again
              (retry configs (init_node parse_time new_node config fresh).1)).0
            ≡ none)
          × ((next_id next (retry configs (init_node parse_time new_node config fresh).1)).0
              ≡ panic "snowflake node not initialized")
    init_node_fails_for_good no_node config e failed configs again =
        let g = (init_node parse_time new_node config fresh).1 in
        rw (retry-done configs g (init_node-done config fresh)) (
          rw (init_node-again again g (init_node-done config fresh)) refl,
          next_id-none g (init_node-failed no_node config e failed),
        )
