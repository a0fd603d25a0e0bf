-- ===== src/Commands/Lines.antt =====
-- commands.go: the lines of `fmon history`.
use fmon.Base.{
  ℕ, zero, suc, ◌+◌, ◌/◌, ◌≡◌, refl, ap, ◌∙◌, Option, none, some, List, [], ◌∷◌, ◌++◌, map, arith,
  length, All, Text, bytes,
}
use fmon.Base.Decimal.{signed_decimal}
use fmon.Base.Int.{ℤ}
use fmon.Commands.Format.{event_text, content_text, change_text, format_history}
use fmon.Models.{EventType, event_added, event_modified, event_deleted, HistoryEntry}
use fmon.Models.Hex.{fixed_hex, format_hash}
use fmon.Notify.{split_lines}
use fmon.Notify.Render.{Formats, write_lines}
use fmon.Notify.Render.Injection.{
  IsLine, IsLine-append, IsPlain, signed_decimal-IsLine, split_lines-write_lines,
}

fixed_hex-IsLine : (width n : ℕ) → IsLine (fixed_hex width n)
unfolding fixed_hex
fixed_hex-IsLine zero n = refl
fixed_hex-IsLine (suc width) n =
    IsLine-append (fixed_hex width (n / 16)) _ (fixed_hex-IsLine width (n / 16)) (ground arith)

format_hash-IsLine : (h : ℕ) → IsLine (format_hash h)
unfolding format_hash
format_hash-IsLine h = fixed_hex-IsLine 16 h

content_text-IsLine : (h : Option ℕ) (n : Option ℤ) → IsLine (content_text h n)
unfolding content_text
content_text-IsLine (some h) (some n) =
    IsLine-append (format_hash h) (bytes " size=" ++ signed_decimal n) (format_hash-IsLine h)
      (signed_decimal-IsLine n)
content_text-IsLine (some h) none = refl
content_text-IsLine none n = refl

change_text-IsLine : (h k : Option ℕ) (n m : Option ℤ) → IsLine (change_text h k n m)
unfolding change_text
change_text-IsLine (some h) (some k) (some n) (some m) =
    let sizes = signed_decimal n ++ (bytes " -> " ++ signed_decimal m) in
    IsLine-append (format_hash h) (bytes " -> " ++ (format_hash k ++ (bytes "  size " ++ sizes)))
      (format_hash-IsLine h)
      (IsLine-append (format_hash k) (bytes "  size " ++ sizes) (format_hash-IsLine k) (
        IsLine-append (signed_decimal n) (bytes " -> " ++ signed_decimal m)
          (signed_decimal-IsLine n) (signed_decimal-IsLine m)))
change_text-IsLine (some h) (some k) (some n) none = refl
change_text-IsLine (some h) (some k) none m = refl
change_text-IsLine (some h) none n m = refl
change_text-IsLine none k n m = refl

module _ (f : Formats) (plain : IsPlain f) where
  -- The line of an entry, by its event.
  parts-IsLine :
      (t : ℤ) (p e d : Text)
      → IsLine e
      → IsLine d
      → IsLine (f.rfc3339 t ++ (bytes "  " ++ (e ++ (bytes "  " ++ (f.quote p ++ d)))))
  parts-IsLine t p e d he hd =
      let rest = bytes "  " ++ (f.quote p ++ d) in
      IsLine-append (f.rfc3339 t) (bytes "  " ++ (e ++ rest)) (plain.dated t)
        (IsLine-append e rest he (IsLine-append (f.quote p) d (plain.quoted p) hd))

  format_history-IsLine : (e : HistoryEntry) → IsLine (format_history f e)
  unfolding format_history
  format_history-IsLine e = by_event e.event
    where
      by_event :
          (v : EventType)
          → IsLine (
              f.rfc3339 e.timestamp
              ++ (bytes "  "
                  ++ (event_text v
                      ++ (bytes "  "
                          ++ (f.quote e.path ++ elim v [
                            | event_added ↦ content_text e.new_hash e.new_size
                            | event_modified ↦
                                change_text e.old_hash e.new_hash e.old_size e.new_size
                            | event_deleted ↦ content_text e.old_hash e.old_size
                          ])))))
      by_event event_added =
          parts-IsLine e.timestamp e.path (event_text event_added) _ refl
            (content_text-IsLine e.new_hash e.new_size)
      by_event event_modified =
          parts-IsLine e.timestamp e.path (event_text event_modified) _ refl
            (change_text-IsLine e.old_hash e.new_hash e.old_size e.new_size)
      by_event event_deleted =
          parts-IsLine e.timestamp e.path (event_text event_deleted) _ refl
            (content_text-IsLine e.old_hash e.old_size)

  entries-IsLine : (es : List HistoryEntry) → All IsLine (map (format_history f) es)
  entries-IsLine [] = tt
  entries-IsLine (e ∷ es) = (format_history-IsLine e, entries-IsLine es)

-- If quoted texts and times hold no newline: the lines of a printed history are the lines of its
-- entries, one for each and in their order, whatever the paths are.
pub split_lines-format_history :
    (f : Formats) (es : List HistoryEntry)
    → IsPlain f
    → (split_lines (write_lines (map (format_history f) es)) ≡ map (format_history f) es ++ [] ∷ [])
      × (length (split_lines (write_lines (map (format_history f) es))) ≡ length es + 1)
split_lines-format_history f es plain =
    let lines = split_lines-write_lines (map (format_history f) es) (entries-IsLine f plain es) in
    (lines, ap length lines ∙ counted es)
  where
    counted : (l : List HistoryEntry) → length (map (format_history f) l ++ [] ∷ []) ≡ length l + 1
    counted [] = refl
    counted (e ∷ l) = omega (arith, counted l)
