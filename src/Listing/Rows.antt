-- ===== src/Listing/Rows.antt =====
-- list.go: the rows of the list command, and humanBytes.
use fmon.Base.{ℕ, zero, suc, ◌*◌, ◌/◌, Option, ltb, leb, if◌then◌else◌, Text}
use fmon.Base.Int.{ℤ, pos, negsuc}
use fmon.Models.{SourceType, SourceStatus}

-- What the TYPE column shows: a kind, or `-` or `?` for a source that is not indexed.
pub data RowType : Type 0 where
  typ_of : SourceType → RowType
  unreadable_type other_type : RowType

pub data RowStatus : Type 0 where
  stored_status : SourceStatus → RowStatus
  status_pending status_orphaned : RowStatus

-- A size as humanBytes prints it: a number of bytes, or the quotient of the first two with the unit
-- that stands at an index of "KMGTPE".
pub data Size : Type 0 where
  plain_size : ℤ → Size
  scaled_size : ℕ → ℕ → ℕ → Size

pub record SourceRow : Type 0 where
  pub path : Text
  pub typ : RowType
  pub status : RowStatus
  pub files : Option ℕ
  pub size : Option Size
  pub created : Option ℤ

-- The loop, with the quotient, the divisor and the exponent. An int64 takes at most five turns.
unfoldable pub scale_bytes : ℕ → ℕ → ℕ → ℕ → ℕ × ℕ
scale_bytes zero m div e = (div, e)
scale_bytes (suc fuel) m div e =
    let rest = scale_bytes fuel (m / 1024) (div * 1024) (suc e) in
    if leb 1024 m then rest else (div, e)

unfoldable pub human_bytes : ℤ → Size
unfolding scale_bytes
human_bytes (negsuc n) = plain_size (negsuc n)
human_bytes (pos n) =
    let (div, e) = scale_bytes 5 (n / 1024) 1024 0 in
    if ltb n 1024 then plain_size (pos n) else scaled_size n div e
