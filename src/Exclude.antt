-- ===== src/Exclude.antt =====
-- internal/monitor/exclude.go: the global exclude patterns. doublestar.Match is a parameter, `glob`.
use fmon.Base.{
  Bool, false, ◌||◌, Option, none, some, List, [], ◌∷◌, ◌++◌, if◌then◌else◌, ◌==◌, any_of, Text,
  bytes, trim_right, nat_eq, text_equality,
}
use fmon.Base.Int.{int_equality}
use fmon.Paths.{separator}

-- What follows the last separator, of a path that does not end in one.
unfoldable pub last_element : Text → Text → Text
last_element acc [] = acc
last_element acc (x ∷ xs) = last_element (if x == separator then [] else acc ++ x ∷ []) xs

-- `path.Base`
unfoldable pub base_name : Text → Text
unfolding last_element
base_name p =
    if p == []
    then bytes "."
    else let q = trim_right separator p in if q == [] then separator ∷ [] else last_element [] q

-- Match. A pattern with a "/" is matched against the path, any other against the base name; a
-- pattern that doublestar refuses matches nothing.
module _ (glob : Text → Text → Option Bool) where
  unfoldable pub pattern_matches : Text → Text → Bool
  pattern_matches p pat =
      let target = if any_of (λ c. c == separator) pat then p else base_name p in
      elim (glob pat target) [ none ↦ false | some b ↦ b ]

  unfoldable pub match_path : List Text → Text → Bool
  match_path [] p = false
  match_path (pat ∷ patterns) p = pattern_matches p pat || match_path patterns p
