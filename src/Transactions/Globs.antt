-- ===== src/Transactions/Globs.antt =====
-- frontend/src/features/transactions/hooks/useTransactions.ts: `matchGlob`. Its regular expression
-- matches a star by backtracking, with the longest text first, which `any` of the texts decides.
pub mod Matching
mod Tests
use sumurai.Prelude.{ℕ, Bool, true, false, not, ◌&&◌, ◌||◌, List, [], ◌∷◌, if◌then◌else◌, ◌==◌}
use sumurai.Prelude.Text.{Text, is_empty, lower}

-- What `.` matches: every code unit but the ends of lines.
pub is_dot : ℕ → Bool
is_dot c = not ((c == 10) || (c == 13) || (c == 0x2028) || (c == 0x2029))

-- one character of the pattern that is no star, `?` or itself in either case
pub matches_one : ℕ → ℕ → Bool
matches_one p c = if p == b'?' then is_dot c else lower p == lower c

-- `.*` and then the rest of the pattern
pub matches_star : (Text → Bool) → Text → Bool
matches_star rest [] = rest []
matches_star rest (c ∷ s) = rest (c ∷ s) || (is_dot c && matches_star rest s)

pub matches_next : ℕ → (Text → Bool) → Text → Bool
matches_next p rest [] = false
matches_next p rest (c ∷ s) = matches_one p c && rest s

pub matches_pattern : Text → Text → Bool
matches_pattern [] s = is_empty s
matches_pattern (p ∷ ps) s =
    let rest = matches_pattern ps in
    if p == b'*' then matches_star rest s else matches_next p rest s

pub match_glob : Text → Text → Bool
match_glob pattern text =
    if is_empty pattern || is_empty text then false else matches_pattern pattern text
