-- ===== src/Mask/Replace.antt =====
-- `str::replace` of the standard library for a pattern that is not empty: the matches are taken
-- from the left and do not overlap.
use alfavibe_hack.Prelude.{ℕ, zero, suc, ◌-◌, [], ◌∷◌, ◌++◌, Text, if◌then◌else◌, length}
use alfavibe_hack.Domain.Unicode.{starts_with}

-- `skip` bytes belong to the match before.
replace_from : Text → Text → ℕ → Text → Text
replace_from pattern by skip [] = []
replace_from pattern by (suc skip) (c ∷ cs) = replace_from pattern by skip cs
replace_from pattern by zero (c ∷ cs) =
    let here = by ++ replace_from pattern by (length pattern - 1) cs in
    let later = c ∷ replace_from pattern by zero cs in
    if starts_with pattern (c ∷ cs) then here else later

unfoldable pub replace : Text → Text → Text → Text
unfolding replace_from starts_with
replace pattern by text = replace_from pattern by zero text
