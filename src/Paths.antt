-- ===== src/Paths.antt =====
-- internal/monitor/paths.go, and what the program uses of Go's path/filepath. The model is of the
-- builds for Linux and macOS, where runtime.GOOS is a constant other than "windows" and the
-- separator is the byte '/'.
pub mod Clean
pub mod Laws
pub mod Trimmed
pub mod Disjoint
mod Tests
use fmon.Base.{
  ℕ, Bool, false, ◌||◌, List, [], ◌∷◌, ◌++◌, leb, if◌then◌else◌, ◌==◌, length, take, Text,
  trim_right, nat_eq, text_equality,
}
use fmon.Base.Int.{int_equality}

abbrev pub separator : ℕ
separator = b'/'

unfoldable pub equal_path : Text → Text → Bool
equal_path a b = a == b

-- strings.TrimRight(parent, sep) + sep
abbrev pub prefix_of : Text → Text
prefix_of parent = trim_right separator parent ++ separator ∷ []

unfoldable pub within : Text → Text → Bool
unfolding equal_path
within child parent =
    let prefix = prefix_of parent in
    if leb (length child) (length prefix)
    then false
    else equal_path (take (length prefix) child) prefix

unfoldable pub overlaps : Text → Text → Bool
unfolding equal_path
overlaps a b = equal_path a b || within a b || within b a

-- `underAny` of scanner.go
unfoldable pub under_any : Text → List Text → Bool
under_any p [] = false
under_any p (d ∷ dirs) = within p d || under_any p dirs
