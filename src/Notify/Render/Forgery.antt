-- ===== src/Notify/Render/Forgery.antt =====
-- notify.go: the change lines of a rendered report.
use fmon.Base.{
  ◌+◌, ◌≡◌, refl, ap, ◌∙◌, inl, inr, Bool, true, false, List, [], ◌∷◌, ◌++◌, map, arith, ltb,
  if◌then◌else◌, Bool-cases, length, keep_if, length-append, keep_if-append, All, Text, text_eq,
  has_prefix,
}
use fmon.Config.{detail_full}
use fmon.Models.{Change}
use fmon.Notify.{change_lines, is_change_line, split_lines, count_changes}
use fmon.Notify.Lines.{count_changes-change_lines}
use fmon.Notify.Render.{
  Formats, alert_text, notice_text, Counts, source_text, source_lines, header_text, error_lines,
  report_lines, render,
}
use fmon.Notify.Render.Injection.{IsLine, IsPlain, split_lines-write_lines, report_lines-IsLine}
use fmon.Report.{
  Alert, alert_deleted, Notice, notice_db_missing, notice_upgrade, notice_back, Report,
  report_counts,
}

abbrev NoChange : Text → Type 0
NoChange l = is_change_line l ≡ false

count_changes-none : (ls : List Text) → All NoChange ls → count_changes ls ≡ 0
count_changes-none [] h = refl
count_changes-none (l ∷ ls) h = rw (h.0) (count_changes-none ls h.1)

count_changes-append :
    (xs ys : List Text) → count_changes (xs ++ ys) ≡ count_changes xs + count_changes ys
count_changes-append xs ys =
    ap (λ (ls : List Text). length ls) (keep_if-append is_change_line xs ys)
    ∙ length-append (keep_if is_change_line xs) (keep_if is_change_line ys)

All-NoChange {ℓ} :
    {A : Type ℓ} (g : A → Text) (xs : List A) → ((a : A) → NoChange (g a)) → All NoChange (map g xs)
All-NoChange g [] h = tt
All-NoChange g (x ∷ xs) h = (h x, All-NoChange g xs h)

module _ (f : Formats) where
  alert_text-NoChange : (a : Alert) → NoChange (alert_text f a)
  unfolding alert_text is_change_line has_prefix
  alert_text-NoChange (alert_deleted typ path) = refl

  notice_text-NoChange : (n : Notice) → NoChange (notice_text f n)
  unfolding notice_text is_change_line has_prefix
  notice_text-NoChange notice_db_missing = refl
  notice_text-NoChange notice_upgrade = refl
  notice_text-NoChange (notice_back typ path) = refl

  source_text-NoChange : (s : Text) (n : Counts) → NoChange (source_text f s n)
  unfolding is_change_line has_prefix
  source_text-NoChange s (a, m, d) = refl

  header_text-NoChange : (r : Report) (n : Counts) → NoChange (header_text f r n)
  unfolding is_change_line has_prefix
  header_text-NoChange r (a, m, d) = refl

  error_lines-NoChange : (r : Report) → All NoChange (error_lines r)
  unfolding is_change_line has_prefix
  error_lines-NoChange r = elim (Bool-cases (ltb 0 (length r.errors))) [
    | inl e ↦ rw e (refl, tt)
    | inr e ↦ rw e tt
  ]

  source_lines-NoChange : (cs : List Change) → All NoChange (source_lines f cs)
  unfolding source_lines
  source_lines-NoChange cs = All-NoChange _ _ (λ s. source_text-NoChange s _)

  count_changes-detail :
      (b : Bool) (cs : List Change)
      → count_changes (if b then change_lines f.quote cs else []) ≡ (if b then length cs else 0)
  count_changes-detail true cs = (count_changes-change_lines f.quote cs).1
  count_changes-detail false cs = refl

  count_changes-report_lines :
      (detail : Text) (r : Report)
      → count_changes (report_lines f detail r)
        ≡ (if text_eq detail detail_full then length r.changes else 0)
  unfolding report_lines
  count_changes-report_lines detail r =
      let alerts = map (alert_text f) r.alerts in
      let notices = map (notice_text f) r.notices in
      let sources = source_lines f r.changes in
      let changes : List Text =
        if text_eq detail detail_full then change_lines f.quote r.changes else [] in
      rw (header_text-NoChange r (report_counts r)) (
        count_changes-append alerts (notices ++ (error_lines r ++ (sources ++ changes)))
        ∙ (omega (
          arith,
          count_changes-none alerts (All-NoChange (alert_text f) r.alerts alert_text-NoChange),
          count_changes-none notices (All-NoChange (notice_text f) r.notices notice_text-NoChange),
          count_changes-none (error_lines r) (error_lines-NoChange r),
          count_changes-none sources (source_lines-NoChange r.changes),
          count_changes-append notices (error_lines r ++ (sources ++ changes)),
          count_changes-append (error_lines r) (sources ++ changes),
          count_changes-append sources changes,
        )
            ∙ count_changes-detail (text_eq detail detail_full) r.changes))

-- If quoted texts and times hold no newline, and the host name holds none, then the lines of the
-- rendered text are the lines that Render writes, and exactly one of them for each change is a
-- change line (none with the summary): no file name can forge a line or hide one.
pub split_lines-render :
    (f : Formats) (detail : Text) (r : Report)
    → IsPlain f
    → IsLine r.host
    → (split_lines (render f detail r) ≡ report_lines f detail r ++ [] ∷ [])
      × (count_changes (split_lines (render f detail r))
          ≡ (if text_eq detail detail_full then length r.changes else 0))
unfolding render is_change_line has_prefix
split_lines-render f detail r plain host =
    let lines =
      split_lines-write_lines (report_lines f detail r)
        (report_lines-IsLine f plain detail r host) in
    (
      lines,
      ap count_changes lines
          ∙ (count_changes-append (report_lines f detail r) ([] ∷ [])
              ∙ omega (arith, count_changes-report_lines f detail r)),
    )
