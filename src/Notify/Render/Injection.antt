-- ===== src/Notify/Render/Injection.antt =====
-- notify.go: the lines of a rendered report, and the line breaks in it.
use fmon.Base.{
  ℕ, zero, suc, ◌+◌, ◌/◌, ◌%◌, ◌≡◌, refl, ap, ◌∙◌, inl, inr, Bool, true, false, List, [], ◌∷◌, ◌++◌,
  map, arith, ltb, if◌then◌else◌, Bool-cases, ◌==◌, length, any_of, any_of-append, All, All-append,
  Text, bytes, text_eq, nat_eq, text_equality,
}
use fmon.Base.Decimal.{digits_of, decimal, signed_decimal}
use fmon.Base.Int.{ℤ, pos, negsuc, int_equality}
use fmon.Config.{detail_full}
use fmon.Models.{
  source_file, source_folder, EventType, event_added, event_modified, event_deleted, Change,
}
use fmon.Notify.{newline, change_line, change_lines, split_lines}
use fmon.Notify.Render.{
  Formats, alert_text, notice_text, Counts, source_text, source_lines, header_text, error_lines,
  report_lines, write_lines,
}
use fmon.Report.{
  Alert, alert_deleted, Notice, notice_db_missing, notice_upgrade, notice_back, Report,
  report_counts,
}

abbrev pub has_newline : Text → Bool
has_newline t = any_of (λ c. c == newline) t

abbrev pub IsLine : Text → Type 0
IsLine t = has_newline t ≡ false

pub IsLine-append : (s t : Text) → IsLine s → IsLine t → IsLine (s ++ t)
IsLine-append s t hs ht = any_of-append (λ c. c == newline) s t ∙ rw (hs, ht) refl

-- Documented behaviour: strconv.Quote and time.Format put no newline into their results.
pub record IsPlain (f : Formats) : Type 0 where
  pub quoted : (t : Text) → IsLine (f.quote t)
  pub dated : (t : ℤ) → IsLine (f.rfc3339 t)

digits_of-IsLine : (fuel n : ℕ) → IsLine (digits_of fuel n)
unfolding digits_of
digits_of-IsLine zero n = refl
digits_of-IsLine (suc fuel) n = elim (Bool-cases (ltb n 10)) [
  | inl e ↦ rw e (ground arith)
  | inr e ↦ rw e (
      IsLine-append (digits_of fuel (n / 10)) ((b'0' + n % 10) ∷ [])
        (digits_of-IsLine fuel (n / 10)) (ground arith))
]

decimal-IsLine : (n : ℕ) → IsLine (decimal n)
unfolding decimal
decimal-IsLine n = digits_of-IsLine (suc n) n

pub signed_decimal-IsLine : (z : ℤ) → IsLine (signed_decimal z)
unfolding signed_decimal
signed_decimal-IsLine (pos n) = decimal-IsLine n
signed_decimal-IsLine (negsuc n) = decimal-IsLine (suc n)

split_lines-line :
    (l rest : Text) → IsLine l → split_lines (l ++ newline ∷ rest) ≡ l ∷ split_lines rest
unfolding split_lines
split_lines-line [] rest h = refl
split_lines-line (c ∷ l) rest h =
    let c_ok : (c == newline) ≡ false = ground arith in
    rw (c_ok, split_lines) (rw (split_lines-line l rest (ground arith)) refl)

pub split_lines-write_lines :
    (ls : List Text) → All IsLine ls → split_lines (write_lines ls) ≡ ls ++ [] ∷ []
unfolding split_lines
split_lines-write_lines [] h = refl
split_lines-write_lines (l ∷ ls) h =
    split_lines-line l (write_lines ls) h.0 ∙ ap (λ r. l ∷ r) (split_lines-write_lines ls h.1)

module _ (f : Formats) (plain : IsPlain f) where
  alert_text-IsLine : (a : Alert) → IsLine (alert_text f a)
  unfolding alert_text
  alert_text-IsLine (alert_deleted source_file path) =
      IsLine-append (f.quote path) _ (plain.quoted path) refl
  alert_text-IsLine (alert_deleted source_folder path) =
      IsLine-append (f.quote path) _ (plain.quoted path) refl

  notice_text-IsLine : (n : Notice) → IsLine (notice_text f n)
  unfolding notice_text
  notice_text-IsLine notice_db_missing = refl
  notice_text-IsLine notice_upgrade = refl
  notice_text-IsLine (notice_back source_file path) =
      IsLine-append (f.quote path) _ (plain.quoted path) refl
  notice_text-IsLine (notice_back source_folder path) =
      IsLine-append (f.quote path) _ (plain.quoted path) refl

  change_line-IsLine : (c : Change) → IsLine (change_line f.quote c)
  unfolding change_line
  change_line-IsLine c = by_event c.event
    where
      by_event :
          (e : EventType)
          → IsLine (elim e [
            | event_added ↦
                bytes "ADDED    "
                ++ (f.quote c.path ++ (bytes " size=" ++ signed_decimal c.new_size))
            | event_modified ↦
                bytes "MODIFIED "
                ++ (f.quote c.path
                    ++ (bytes " size "
                        ++ (signed_decimal c.old_size
                            ++ (bytes " -> " ++ signed_decimal c.new_size))))
            | event_deleted ↦ bytes "DELETED  " ++ f.quote c.path
          ])
      by_event event_added =
          IsLine-append (f.quote c.path) _ (plain.quoted c.path) (signed_decimal-IsLine c.new_size)
      by_event event_modified = IsLine-append (f.quote c.path) _ (plain.quoted c.path) (
          IsLine-append (signed_decimal c.old_size) _ (signed_decimal-IsLine c.old_size)
            (signed_decimal-IsLine c.new_size))
      by_event event_deleted = plain.quoted c.path

  source_text-IsLine : (s : Text) (n : Counts) → IsLine (source_text f s n)
  source_text-IsLine s (a, m, d) = IsLine-append (f.quote s) _ (plain.quoted s) (
      IsLine-append (decimal a) _ (decimal-IsLine a)
        (IsLine-append (decimal m) _ (decimal-IsLine m) (decimal-IsLine d)))

  header_text-IsLine : (r : Report) (n : Counts) → IsLine r.host → IsLine (header_text f r n)
  header_text-IsLine r (a, m, d) host = IsLine-append r.host _ host (
      IsLine-append (f.rfc3339 r.time) _ (plain.dated r.time) (
        IsLine-append (decimal (length r.changes)) _ (decimal-IsLine (length r.changes)) (
          IsLine-append (decimal a) _ (decimal-IsLine a) (
            IsLine-append (decimal m) _ (decimal-IsLine m)
              (IsLine-append (decimal d) _ (decimal-IsLine d) refl)))))

  error_lines-IsLine : (r : Report) → All IsLine (error_lines r)
  error_lines-IsLine r = elim (Bool-cases (ltb 0 (length r.errors))) [
    | inl e ↦
        rw e
          (IsLine-append (decimal (length r.errors)) _ (decimal-IsLine (length r.errors)) refl, tt)
    | inr e ↦ rw e tt
  ]

  All-lines {ℓ} :
      {A : Type ℓ} (g : A → Text) (xs : List A) → ((a : A) → IsLine (g a)) → All IsLine (map g xs)
  All-lines g [] h = tt
  All-lines g (x ∷ xs) h = (h x, All-lines g xs h)

  change_lines-IsLine :
      (b : Bool) (cs : List Change) → All IsLine (if b then change_lines f.quote cs else [])
  unfolding change_lines
  change_lines-IsLine true cs = All-lines (change_line f.quote) _ change_line-IsLine
  change_lines-IsLine false cs = tt

  source_lines-IsLine : (cs : List Change) → All IsLine (source_lines f cs)
  unfolding source_lines
  source_lines-IsLine cs = All-lines _ _ (λ s. source_text-IsLine s _)

  pub report_lines-IsLine :
      (detail : Text) (r : Report) → IsLine r.host → All IsLine (report_lines f detail r)
  unfolding report_lines
  report_lines-IsLine detail r host = (
    header_text-IsLine r (report_counts r) host,
    All-append IsLine _ _ (All-lines (alert_text f) r.alerts alert_text-IsLine) (
        All-append IsLine _ _ (All-lines (notice_text f) r.notices notice_text-IsLine) (
          All-append IsLine _ _ (error_lines-IsLine r) (
            All-append IsLine _ _ (source_lines-IsLine r.changes)
              (change_lines-IsLine (text_eq detail detail_full) r.changes)))),
  )
