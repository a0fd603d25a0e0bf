-- ===== src/Db/Totals.antt =====
-- queries.go: FileTotalsBySource and ForEachFileState on the rows of files_state.
use fmon.Base.{
  ℕ, Bool, not, Option, none, some, List, [], ◌∷◌, map, ltb, if◌then◌else◌, ◌==◌, length, keep_if,
  any_of, Text, text_lt, nat_eq, text_equality,
}
use fmon.Base.Int.{ℤ, pos, negsuc, int_add, int_equality}
use fmon.Base.Sorting.{sort}
use fmon.Db.{FileRow, Db, read_file_row}
use fmon.Db.Subtree.{in_query}
use fmon.Models.{FileState}
use fmon.Models.Hash.{sign_limit}

pub record FileTotals : Type 0 where
  pub files : ℕ
  pub bytes : ℤ

abbrev pub rows_of : ℕ → List FileRow → List FileRow
rows_of id rows = keep_if (λ (r : FileRow). r.source_id == id) rows

-- SUM(size)
unfoldable pub sum_sizes : List FileRow → ℤ
unfolding int_add
sum_sizes [] = pos 0
sum_sizes (r ∷ rows) = int_add r.size (sum_sizes rows)

-- The group of a source. The map of the code gives zero totals for a source that has no group.
unfoldable pub totals_of : Db → ℕ → FileTotals
unfolding sum_sizes
totals_of d id =
    let group = rows_of id d.files_state in record { files = length group; bytes = sum_sizes group }

abbrev fits_int64 : ℤ → Bool
fits_int64 (pos n) = ltb n sign_limit
fits_int64 (negsuc n) = ltb n sign_limit

-- A sum that is no int64 is an error of the statement.
unfoldable pub select_totals : Db → Option ((ℕ → FileTotals) × Db)
unfolding totals_of
select_totals d =
    if any_of (λ (r : FileRow). not (fits_int64 (totals_of d r.source_id).bytes)) d.files_state
    then none
    else some (totals_of d, d)

-- ORDER BY file_path
unfoldable pub select_file_states : Text → Db → List FileState
unfolding read_file_row
select_file_states path d = map read_file_row (
    sort (λ (r q : FileRow). text_lt r.file_path q.file_path)
      (keep_if (λ (r : FileRow). in_query path r.file_path) d.files_state))
