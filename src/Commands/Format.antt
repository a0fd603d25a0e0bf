-- ===== src/Commands/Format.antt =====
-- commands.go: formatHistory, the line of `fmon history` for an entry. strconv.Quote (%q) and the format
-- of local times are parameters.
use fmon.Base.{ℕ, Option, none, some, [], ◌++◌, Text, bytes}
use fmon.Base.Decimal.{signed_decimal}
use fmon.Base.Int.{ℤ}
use fmon.Models.{EventType, event_added, event_modified, event_deleted, HistoryEntry}
use fmon.Models.Hex.{format_hash}
use fmon.Notify.Render.{Formats}

abbrev pub event_text : EventType → Text
event_text event_added = bytes "ADDED   "
event_text event_modified = bytes "MODIFIED"
event_text event_deleted = bytes "DELETED "

-- "hash=%s size=%d", if both are there.
unfoldable pub content_text : Option ℕ → Option ℤ → Text
unfolding format_hash signed_decimal
content_text (some h) (some n) =
    bytes "  hash=" ++ (format_hash h ++ (bytes " size=" ++ signed_decimal n))
content_text (some h) none = []
content_text none o = []

-- "hash %s -> %s  size %d -> %d", if all four are there.
unfoldable pub change_text : Option ℕ → Option ℕ → Option ℤ → Option ℤ → Text
unfolding format_hash signed_decimal
change_text (some h) (some k) (some n) (some m) =
    bytes "  hash "
    ++ (format_hash h
        ++ (bytes " -> "
            ++ (format_hash k
                ++ (bytes "  size " ++ (signed_decimal n ++ (bytes " -> " ++ signed_decimal m))))))
change_text h k n m = []

abbrev pub details : HistoryEntry → Text
details e = elim e.event [
  | event_added ↦ content_text e.new_hash e.new_size
  | event_modified ↦ change_text e.old_hash e.new_hash e.old_size e.new_size
  | event_deleted ↦ content_text e.old_hash e.old_size
]

unfoldable pub format_history : Formats → HistoryEntry → Text
unfolding content_text change_text
format_history f e =
    f.rfc3339 e.timestamp
    ++ (bytes "  " ++ (event_text e.event ++ (bytes "  " ++ (f.quote e.path ++ details e))))
