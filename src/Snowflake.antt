-- ===== src/Snowflake.antt =====
-- pkg/utils/snowflake/snowflake.go, over github.com/kirklin/snowflake, which is not of this
-- repository: the parameters `parse_time`, `new_node` and `next`.
pub mod Once
use boot_backend_go_clean.Common.{
  ℕ, ◌%◌, ◌^◌, String, Bool, true, false, Option, none, some, if◌then◌else◌,
}
use boot_backend_go_clean.Common.Int.{ℤ, pos, negsuc, ltb_ℤ}
use boot_backend_go_clean.Common.Text.{Text}
use boot_backend_go_clean.Errors.{Error, text_error}
use boot_backend_go_clean.Effect.{Outcome, ok, err, panic}
use boot_backend_go_clean.Validation.{is_empty}

-- Config
pub record Settings : Type 0 where
  pub epoch : Text
  pub machine_bits : ℤ
  pub step_bits : ℤ

-- snowflake.Settings; the time unit is a millisecond
pub record NodeSettings : Type 0 where
  pub machine_bits : ℕ
  pub step_bits : ℕ
  pub start_time : ℤ

-- The package's variables `once` and `node`.
pub record Global (N : Type 0) : Type 0 where
  pub done : Bool
  pub node : Option N

abbrev pub fresh : {N : Type 0} → Global N
fresh = record { done = false; node = none }

-- uint8(n), for the positive n that InitNode converts
abbrev uint8 : ℤ → ℕ
uint8 (pos n) = n % 2 ^ 8
uint8 (negsuc n) = 0

abbrev bits_or : ℤ → ℕ → ℕ
bits_or n default = if ltb_ℤ (pos 0) n then uint8 n else default

-- time.Date(2026, 1, 1, 0, 0, 0, 0, time.UTC), in nanoseconds of the Unix epoch
abbrev default_epoch : ℤ
default_epoch = pos 1767225600000000000

module _ {N : Type 0} (parse_time : Text → Option ℤ)
    (new_node : NodeSettings → Option N × Option Error) where
  abbrev pub start_time : Settings → Option ℤ
  start_time config = if is_empty config.epoch then some default_epoch else parse_time config.epoch

  -- node, err = snowflake.NewNodeWithSettings(st)
  abbrev pub built : Option N × Option Error → Option Error × Global N
  built (node, none) = (none, record { done = true; node = node })
  built (node, some e) =
      (some (text_error "failed to initialize snowflake node"), record { done = true; node = node })

  -- The function that `once` runs.
  abbrev pub configure : Settings → Option ℤ → Global N → Option Error × Global N
  configure config (some t) g = built (
      new_node (record {
        machine_bits = bits_or config.machine_bits 10;
        step_bits = bits_or config.step_bits 12;
        start_time = t;
      }))
  configure config none g =
      (some (text_error "failed to parse snowflake epoch"), record g { done = true })

  -- InitNode
  unfoldable pub init_node : Settings → Global N → Option Error × Global N
  init_node config g = if g.done then (none, g) else configure config (start_time config) g

-- node.NextID() for a node: the identifier, or an error, and the node afterwards
abbrev generated : {N : Type 0} → Outcome ℤ × N → Global N → Outcome ℤ × Global N
generated (ok id, node) g = (ok id, record g { node = some node })
generated (err e, node) g = (panic "failed to generate snowflake id", record g { node = some node })
generated (panic m, node) g = (panic m, record g { node = some node })

-- NextID
unfoldable pub next_id : {N : Type 0} → (N → Outcome ℤ × N) → Global N → Outcome ℤ × Global N
next_id next g = elim g.node [
  | none ↦ (panic "snowflake node not initialized", g)
  | some node ↦ generated (next node) g
]
