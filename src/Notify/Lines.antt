-- ===== src/Notify/Lines.antt =====
-- changeLines and isChangeLine agree, so the trailer of a truncated message counts changes.
use fmon.Base.{
  suc, ◌≡◌, refl, ap, ◌∙◌, inl, inr, Bool, true, List, [], ◌∷◌, ◌++◌, map, Bool-cases, length, Text,
  bytes, has_prefix, text_lt,
}
use fmon.Base.Decimal.{signed_decimal}
use fmon.Base.Sorting.{insert_sorted, sort}
use fmon.Models.{EventType, event_added, event_modified, event_deleted, Change}
use fmon.Notify.{change_line, change_lines, is_change_line, count_changes}

is_change_line-change_line :
    (quote : Text → Text) (c : Change) → is_change_line (change_line quote c) ≡ true
unfolding is_change_line change_line has_prefix
is_change_line-change_line quote c = by_event c.event
  where
    by_event :
        (e : EventType)
        → is_change_line (elim e [
          | event_added ↦
              bytes "ADDED    " ++ (quote c.path ++ (bytes " size=" ++ signed_decimal c.new_size))
          | event_modified ↦
              bytes "MODIFIED "
              ++ (quote c.path
                  ++ (bytes " size "
                      ++ (signed_decimal c.old_size
                          ++ (bytes " -> " ++ signed_decimal c.new_size))))
          | event_deleted ↦ bytes "DELETED  " ++ quote c.path
        ])
          ≡ true
    by_event event_added = refl
    by_event event_modified = refl
    by_event event_deleted = refl

length-insert_sorted :
    (lt : Change → Change → Bool) (c : Change) (cs : List Change)
    → length (insert_sorted lt c cs) ≡ suc (length cs)
unfolding insert_sorted
length-insert_sorted lt c [] = refl
length-insert_sorted lt c (d ∷ cs) = elim (Bool-cases (lt d c)) [
  | inl e ↦ rw e (ap suc (length-insert_sorted lt c cs))
  | inr e ↦ rw e refl
]

length-sort : (lt : Change → Change → Bool) (cs : List Change) → length (sort lt cs) ≡ length cs
unfolding sort
length-sort lt [] = refl
length-sort lt (c ∷ cs) = length-insert_sorted lt c (sort lt cs) ∙ ap suc (length-sort lt cs)

count_changes-map :
    (quote : Text → Text) (cs : List Change)
    → count_changes (map (change_line quote) cs) ≡ length cs
count_changes-map quote [] = refl
count_changes-map quote (c ∷ cs) =
    rw (is_change_line-change_line quote c) (ap suc (count_changes-map quote cs))

-- However paths are quoted, the report has one line for each change, and the test that counts the
-- lines that a truncation drops recognises every one of them.
pub count_changes-change_lines :
    (quote : Text → Text) (cs : List Change)
    → (length (change_lines quote cs) ≡ length cs)
      × (count_changes (change_lines quote cs) ≡ length cs)
unfolding change_lines
count_changes-change_lines quote cs =
    let lt = λ (c d : Change). text_lt c.path d.path in
    (
      length-map-lines (sort lt cs) ∙ length-sort lt cs,
      count_changes-map quote (sort lt cs) ∙ length-sort lt cs,
    )
  where
    length-map-lines : (ds : List Change) → length (map (change_line quote) ds) ≡ length ds
    length-map-lines = elim [ [] ↦ refl | d ∷ (ds → ih) ↦ ap suc ih ]
