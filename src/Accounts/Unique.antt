-- ===== src/Accounts/Unique.antt =====
-- cmd/ngweb: what the indexes of the table of users keep apart.
use ngpool.Prelude.{◌≡◌, false, List, [], ◌∷◌, All}
use ngpool.Prelude.Map.{nat_eq, string_eq, ◌==◌}
use ngpool.Accounts.{User}

-- Two users have different names and ids.
abbrev pub IsOther : User → User → Type 0
IsOther u v = ((v.username == u.username) ≡ false) × ((v.id == u.id) ≡ false)

abbrev pub IsUnique : List User → Type 0
IsUnique [] = Unit
IsUnique (u ∷ users) = All (IsOther u) users × IsUnique users
