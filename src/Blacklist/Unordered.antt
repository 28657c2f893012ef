-- ===== src/Blacklist/Unordered.antt =====
-- The blacklist of internal/infrastructure/auth/blacklist.go as a map without an order: Go comes
-- across the entries of a map in any order.
use mathlib.Core.Quot
use mathlib.Core.Quot.{Quot, Quot-set}
use boot_backend_go_clean.Common.{
  ◌≡◌, refl, sym, ap, ◌∙◌, Bool, Option, none, List, [], ◌∷◌, if◌then◌else◌,
}
use boot_backend_go_clean.Common.Int.{ℤ, ◌+ℤ◌}
use boot_backend_go_clean.Common.Text.{Text}
use boot_backend_go_clean.GoMap.{
  GoMap, lookup, insert, delete_where, test, IsMap, lookup-insert, insert-IsMap,
  lookup-delete_where, delete_where-IsMap,
}
use boot_backend_go_clean.Blacklist.{
  TokenBlacklist, new_token_blacklist, after, cleanup_in, add_token, is_live, is_token_blacklisted,
}

abbrev is_expired : ℤ → ℤ → Bool
is_expired now expiration = after now expiration

-- A list of entries in which no key has two.
abbrev Entries : Type 0
Entries = (m : GoMap ℤ) × IsMap m

-- Two lists give the same value for every key.
abbrev pub SameEntries : GoMap ℤ → GoMap ℤ → Type 0
SameEntries a b = (k : Text) → lookup k a ≡ lookup k b

abbrev Same : Entries → Entries → Type 0
Same a b = SameEntries a.0 b.0

-- The map itself: its entries, in no order.
abbrev pub Table : Type 0
Table = Quot Same

expiration_set : IsSet (Option ℤ)
expiration_set = hlevel

pub find : Text → Table → Option ℤ
find token = Quot.lift expiration_set (λ e. lookup token e.0) (λ a b h. h token)

put-Same :
    (token : Text) (v : ℤ) (a b : GoMap ℤ)
    → SameEntries a b
    → SameEntries (insert token v a) (insert token v b)
put-Same token v a b h k = rw (lookup-insert token k v a, lookup-insert token k v b, h k) refl

-- blacklist[token] = v
pub put : Text → ℤ → Table → Table
put token v =
    Quot.lift Quot-set (λ e. Quot.mk (insert token v e.0, insert-IsMap token v e.0 e.1))
      (λ a b h. Quot.sound (put-Same token v a.0 b.0 h))

-- A sweep in any order deletes the entries that have expired.
lookup-sweep :
    (now : ℤ) (order m : GoMap ℤ)
    → IsMap order
    → SameEntries order m
    → (k : Text)
    → lookup k (delete_where (is_expired now) order m)
      ≡ (if test (is_expired now) (lookup k m) then none else lookup k m)
lookup-sweep now order m map same k =
    lookup-delete_where (is_expired now) k order m map ∙ rw (same k) refl

sweep-Same :
    (now : ℤ) (c d a b : GoMap ℤ)
    → IsMap c
    → IsMap d
    → SameEntries c a
    → SameEntries d b
    → SameEntries a b
    → SameEntries (delete_where (is_expired now) c a) (delete_where (is_expired now) d b)
sweep-Same now c d a b mc md ca db ab k =
    lookup-sweep now c a mc ca k ∙ rw (ab k) (sym (lookup-sweep now d b md db k))

pub sweep : ℤ → Table → Table
sweep now =
    Quot.lift Quot-set
      (λ e.
        Quot.mk
          (delete_where (is_expired now) e.0 e.0, delete_where-IsMap (is_expired now) e.0 e.0 e.1))
      (λ a b h. Quot.sound (sweep-Same now a.0 b.0 a.0 b.0 a.1 b.1 (λ k. refl) (λ k. refl) h))

-- A change of the blacklist: an AddToken, or a tick of the cleanup and the order in which it comes
-- across the entries.
pub data Change : Type 0 where
  added : ℤ → Text → ℤ → Change
  cleaned : ℤ → GoMap ℤ → Change

-- The blacklist after a history, the newest change first.
unfoldable pub replay_in : List Change → TokenBlacklist
replay_in [] = new_token_blacklist
replay_in (added now token duration ∷ history) = add_token now token duration (replay_in history)
replay_in (cleaned now order ∷ history) = cleanup_in order now (replay_in history)

-- Each order is one of the entries that the map has then.
abbrev pub Ranges : List Change → Type 0
Ranges [] = Unit
Ranges (added now token duration ∷ history) = Ranges history
Ranges (cleaned now order ∷ history) =
    IsMap order × SameEntries order (replay_in history).blacklist × Ranges history

-- The same on the map itself, which knows no order.
pub spec : List Change → Table
spec [] = Quot.mk ([], tt)
spec (added now token duration ∷ history) = put token (now +ℤ duration) (spec history)
spec (cleaned now order ∷ history) = sweep now (spec history)

replay_in-IsMap : (history : List Change) → IsMap (replay_in history).blacklist
unfolding replay_in new_token_blacklist add_token cleanup_in
replay_in-IsMap [] = tt
replay_in-IsMap (added now token duration ∷ history) =
    insert-IsMap token (now +ℤ duration) _ (replay_in-IsMap history)
replay_in-IsMap (cleaned now order ∷ history) =
    delete_where-IsMap (is_expired now) order _ (replay_in-IsMap history)

table-spec :
    (history : List Change)
    → Ranges history
    → spec history ≡ Quot.mk ((replay_in history).blacklist, replay_in-IsMap history)
unfolding spec replay_in put sweep new_token_blacklist add_token cleanup_in
table-spec [] r = Quot.sound (λ k. refl)
table-spec (added now token duration ∷ history) r =
    ap (put token (now +ℤ duration)) (table-spec history r) ∙ Quot.sound (λ k. refl)
table-spec (cleaned now order ∷ history) (map, same, r) =
    let m : GoMap ℤ = (replay_in history).blacklist in
    let each : IsMap m = replay_in-IsMap history in
    ap (sweep now) (table-spec history r)
    ∙ Quot.sound (sweep-Same now m order m m each map (λ k. refl) same (λ k. refl))

-- The blacklist after any history of additions and cleanups, in whatever order each cleanup has
-- come across the entries of the map, answers for every token as the map without an order does
-- after the same history: no order of Go's iteration can be seen.
pub replay_in_lem :
    (now : ℤ) (token : Text) (history : List Change)
    → Ranges history
    → is_token_blacklisted now token (replay_in history) ≡ is_live now (find token (spec history))
unfolding is_token_blacklisted find
replay_in_lem now token history r = rw (table-spec history r) refl
