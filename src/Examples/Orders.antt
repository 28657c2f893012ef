-- ===== src/Examples/Orders.antt =====
-- A cleanup of the blacklist that comes across the entries in another order than the list.
use boot_backend_go_clean.Common.{◌≡◌, refl, List, [], ◌∷◌, arith}
use boot_backend_go_clean.Common.Int.{ℤ, pos, ◌+ℤ◌}
use boot_backend_go_clean.Common.Text.{Text, codes, text_eq, text_eq_iff}
use boot_backend_go_clean.GoMap.{GoMap, lookup, insert, delete}
use boot_backend_go_clean.Blacklist.{is_live, is_token_blacklisted, new_token_blacklist, add_token}
use boot_backend_go_clean.Blacklist.Unordered.{
  SameEntries, Change, added, cleaned, replay_in, Ranges, find, spec, replay_in_lem,
}

abbrev first : Text
first = codes "first"

abbrev second : Text
second = codes "second"

abbrev additions : List Change
additions = added (pos 0) second (pos 500) ∷ added (pos 0) first (pos 50) ∷ []

-- The list has the newer entry in front.
abbrev other_order : GoMap ℤ
other_order = (first, pos 50) ∷ (second, pos 500) ∷ []

other_order-SameEntries : SameEntries other_order ((second, pos 500) ∷ (first, pos 50) ∷ [])
unfolding lookup
other_order-SameEntries k = ground (arith, text_eq_iff first k, text_eq_iff second k)

abbrev history : List Change
history = cleaned (pos 100) other_order ∷ additions

history-Ranges : Ranges history
unfolding replay_in new_token_blacklist add_token insert delete lookup text_eq ◌+ℤ◌
history-Ranges = ((refl, (refl, tt)), other_order-SameEntries, tt)

replay_in_lem_example :
    is_token_blacklisted (pos 200) second (replay_in history)
    ≡ is_live (pos 200) (find second (spec history))
replay_in_lem_example = replay_in_lem (pos 200) second history history-Ranges
