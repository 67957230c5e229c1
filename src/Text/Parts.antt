-- ===== src/Text/Parts.antt =====
-- The lists that the program's flags give, separated by commas.
use mathlib.Core.List.{List, [], ◌∷◌}
use mc_prototype.Base.{ℕ, String, str_eq, if◌then◌else◌}
use mc_prototype.Text.{split, trim_space}

abbrev pub comma : ℕ
comma = 44

-- The parts between commas, trimmed, without the empty ones.
trimmed : List String → List String
trimmed [] = []
trimmed (p ∷ ps) =
    let rest = trimmed ps in if str_eq (trim_space p) "" then rest else trim_space p ∷ rest

unfoldable pub comma_parts : String → List String
unfolding trimmed
comma_parts s = trimmed (split comma s)
