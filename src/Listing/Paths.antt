-- ===== src/Listing/Paths.antt =====
-- list.go: which paths the table of `fmon list` shows.
use fmon.Base.{
  ℕ, ◌+◌, Bool, List, [], ◌∷◌, ◌++◌, map, if◌then◌else◌, ◌==◌, Text, nat_eq, text_equality,
}
use fmon.Base.Int.{int_equality}
use fmon.Db.Totals.{FileTotals}
use fmon.Listing.Rows.{SourceRow}
use fmon.Listing.Table.{source_row}
use fmon.Models.{Source}

abbrev one_if : Bool → ℕ
one_if b = if b then 1 else 0

-- How often a path stands in a list.
abbrev pub occurrences : Text → List Text → ℕ
occurrences p [] = 0
occurrences p (x ∷ xs) = one_if (x == p) + occurrences p xs

-- The paths of the rows that the table is made of.
abbrev pub row_paths : List Text → (ℕ → FileTotals) → List Source → List SourceRow → List Text
row_paths config totals sources pending =
    map (λ (r : SourceRow). r.path) (map (source_row config totals) sources ++ pending)
