-- ===== src/Notify.antt =====
-- internal/monitor/notify.go: the change lines of a report and the limits on a message; Render and Sinks
-- have the rest. strconv.Quote is a parameter; utf8.DecodeLastRuneInString is written out.
pub mod Size
pub mod Lines
pub mod Limits
pub mod Render
pub mod Delivery
pub mod Sinks
mod Tests
use mathlib.Core.List.{reverse}
use fmon.Base.{
  ℕ, ◌+◌, ◌-◌, Bool, true, false, ◌&&◌, ◌||◌, List, [], ◌∷◌, ◌++◌, map, ltb, leb, if◌then◌else◌,
  ◌==◌, length, take, keep_if, Text, bytes, has_prefix, text_lt, trim_right, nat_eq, text_equality,
}
use fmon.Base.Decimal.{decimal, signed_decimal}
use fmon.Base.Int.{ℤ, pos, negsuc, int_equality}
use fmon.Base.Sorting.{sort}
use fmon.Models.{event_added, event_modified, event_deleted, Change}

abbrev pub newline : ℕ
newline = 10

-- ---- changeLines ---------------------------------------------------------------

-- One line for each event. `pad` is the blank that aligns the paths.
unfoldable pub change_line : (Text → Text) → Change → Text
change_line quote c = elim c.event [
  | event_added ↦
      bytes "ADDED    " ++ (quote c.path ++ (bytes " size=" ++ signed_decimal c.new_size))
  | event_modified ↦
      bytes "MODIFIED "
      ++ (quote c.path
          ++ (bytes " size "
              ++ (signed_decimal c.old_size ++ (bytes " -> " ++ signed_decimal c.new_size))))
  | event_deleted ↦ bytes "DELETED  " ++ quote c.path
]

unfoldable pub change_lines : (Text → Text) → List Change → List Text
unfolding change_line
change_lines quote changes =
    map (change_line quote) (sort (λ (c d : Change). text_lt c.path d.path) changes)

unfoldable pub is_change_line : Text → Bool
is_change_line l =
    has_prefix l (bytes "ADDED ")
    || has_prefix l (bytes "MODIFIED ")
    || has_prefix l (bytes "DELETED ")

-- ---- cutUTF8 ---------------------------------------------------------------------

abbrev between : ℕ → ℕ → ℕ → Bool
between lo hi b = leb lo b && leb b hi

abbrev is_continuation : ℕ → Bool
is_continuation = between 0x80 0xbf

-- The second byte that may follow the first byte of three, and of four.
abbrev second_of_three : ℕ → ℕ → Bool
second_of_three lead b =
    if lead == 0xe0
    then between 0xa0 0xbf b
    else if lead == 0xed
    then between 0x80 0x9f b
    else between 0xe1 0xef lead && is_continuation b

abbrev second_of_four : ℕ → ℕ → Bool
second_of_four lead b =
    if lead == 0xf0
    then between 0x90 0xbf b
    else if lead == 0xf4
    then between 0x80 0x8f b
    else between 0xf1 0xf3 lead && is_continuation b

-- The text, given from its last byte on, ends in a whole UTF-8 sequence: DecodeLastRuneInString does
-- not return (RuneError, 1).
unfoldable pub ends_in_rune : Text → Bool
ends_in_rune [] = true
ends_in_rune (a ∷ []) = ltb a 0x80
ends_in_rune (a ∷ b ∷ []) = ltb a 0x80 || (is_continuation a && between 0xc2 0xdf b)
ends_in_rune (a ∷ b ∷ c ∷ []) =
    ltb a 0x80 || (is_continuation a && (between 0xc2 0xdf b || second_of_three c b))
ends_in_rune (a ∷ b ∷ c ∷ d ∷ rest) =
    ltb a 0x80
    || (is_continuation a
        && (between 0xc2 0xdf b
            || second_of_three c b
            || (is_continuation b && second_of_four d c)))

-- The loop that drops the last byte while the text ends in a broken sequence, from the last byte on.
unfoldable pub drop_broken : Text → Text
unfolding ends_in_rune
drop_broken [] = []
drop_broken (x ∷ xs) =
    let shorter = drop_broken xs in if ends_in_rune (x ∷ xs) then x ∷ xs else shorter

unfoldable pub cut_utf8 : Text → ℕ → Text
unfolding drop_broken
cut_utf8 s n = if leb (length s) n then s else reverse (drop_broken (reverse (take n s)))

-- ---- truncateMessage ---------------------------------------------------------------

-- `strings.Split` at newlines.
unfoldable pub split_lines : Text → List Text
split_lines [] = [] ∷ []
split_lines (x ∷ xs) =
    let rest = split_lines xs in
    if x == newline then [] ∷ rest else elim rest [ [] ↦ (x ∷ []) ∷ [] | l ∷ ls ↦ (x ∷ l) ∷ ls ]

-- The loop that keeps lines while they fit: the text, and the lines that were not kept. `used` is
-- the length of the text so far.
unfoldable pub keep_lines : ℕ → ℕ → List Text → Text × List Text
keep_lines budget used [] = ([], [])
keep_lines budget used (l ∷ ls) =
    let rest = keep_lines budget (used + length l + 1) ls in
    if ltb budget (used + length l + 1) then ([], l ∷ ls) else (l ++ newline ∷ rest.0, rest.1)

abbrev reserve : ℕ
reserve = 80

unfoldable pub message_budget : ℤ → ℕ
message_budget (pos n) = n - reserve
message_budget (negsuc n) = 0

unfoldable pub fits : ℕ → ℤ → Bool
fits n (pos m) = leb n m
fits n (negsuc m) = false

unfoldable pub trailer : ℕ → Text
trailer omitted =
    if ltb 0 omitted
    then bytes "... and "
      ++ (decimal omitted ++ (bytes " more changes (see fmon history)" ++ newline ∷ []))
    else bytes "... (message truncated)" ++ newline ∷ []

abbrev pub count_changes : List Text → ℕ
count_changes ls = length (keep_if is_change_line ls)

-- If not even the first line fits it is cut.
unfoldable pub first_line : ℕ → Text × List Text → Text × List Text
unfolding cut_utf8
first_line budget ([], l ∷ ls) = (cut_utf8 l budget ++ newline ∷ [], ls)
first_line budget (text, ls) = (text, ls)

unfoldable pub truncate_message : Text → ℤ → Text
unfolding split_lines keep_lines first_line trailer is_change_line message_budget fits
truncate_message msg max_bytes =
    let budget = message_budget max_bytes in
    let kept = first_line budget (keep_lines budget 0 (split_lines (trim_right newline msg))) in
    if fits (length msg) max_bytes then msg else kept.0 ++ trailer (count_changes kept.1)
