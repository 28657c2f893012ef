-- ===== src/Logger/FieldMap.antt =====
-- The map operations on Fields of pkg/logger: `fields[k] = v` and Merge of zerolog_logger.go.
use boot_backend_go_clean.Common.{
  ◌≡◌, refl, String, Option, none, some, [], ◌∷◌, arith, if◌then◌else◌,
}
use boot_backend_go_clean.Common.Text.{Text}
use text.Mathlib.TextEquality.{eq_iff}
use text.Mathlib.Text.{◌==◌ as str_eq}
use boot_backend_go_clean.Logger.{Fields}

-- fields[key]
unfoldable pub field : String → Fields → Option Text
field key [] = none
field key ((k, v) ∷ fields) = if str_eq k key then some v else field key fields

-- fields[key] = value
unfoldable pub put : String → Text → Fields → Fields
put key value [] = (key, value) ∷ []
put key value ((k, v) ∷ fields) =
    if str_eq k key then (k, value) ∷ fields else (k, v) ∷ put key value fields

-- Merge: for k, v := range other { f[k] = v }
unfoldable pub merge : Fields → Fields → Fields
unfolding put
merge f [] = f
merge f ((k, v) ∷ other) = merge (put k v f) other

-- No key has two entries.
abbrev pub IsMap : Fields → Type 0
IsMap [] = Unit
IsMap ((k, v) ∷ fields) = (field k fields ≡ none) × IsMap fields

pub field-put :
    (key k : String) (v : Text) (fields : Fields)
    → field key (put k v fields) ≡ (if str_eq k key then some v else field key fields)
unfolding field put
field-put key k v [] = refl
field-put key k v ((j, w) ∷ fields) =
    ground (arith, eq_iff k key, eq_iff j k, eq_iff j key, field-put key k v fields)

abbrev pub or_else : Option Text → Option Text → Option Text
or_else (some v) w = some v
or_else none w = w

-- In the merged map the other one's entries win.
pub field-merge :
    (key : String) (f other : Fields)
    → IsMap other
    → field key (merge f other) ≡ or_else (field key other) (field key f)
unfolding field merge
field-merge key f [] h = refl
field-merge key f ((k, v) ∷ other) h =
    ground (arith, field-merge key (put k v f) other h.1, field-put key k v f, eq_iff k key)
