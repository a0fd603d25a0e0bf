-- ===== src/Scanner/Stable/Plans.antt =====
-- The plan, and the body of the scan's transaction.
use fmon.Base.{refl, Bool, true, false, Option, none, some, List, [], ◌∷◌, ◌++◌, Text}
use fmon.Base.Dict.{Dict, lookup, contains}
use fmon.Exec.{
  no_absolute_path, not_watched, covered, not_planned, EntryKind, is_dir, is_regular, is_special,
  FileInfo, Outcome, found, failed, World, pure, raise, ask, ◌>>=◌, ◌>>◌, warnf, non_fatal,
}
use fmon.Exec.Keeps.{Keeps, Keeps-pure, Keeps-if, Keeps-bind, keeps_rules}
use fmon.Models.{SourceType, source_file, source_folder, Source}
use fmon.Paths.{separator}
use fmon.Paths.Clean.{is_abs, clean}
use fmon.Report.{overlapping, configured_special}
use fmon.Scanner.Plan.{
  PlannedSource, normalize_source, normalize_sources, find_conflict, accept_source, accept_sources,
  drop_source, drop_sources, insert_planned, plan_unknown, plan_source, push_planned, plan_sources,
  accept_configured, reconcile, normalize_path, find_watched, find_cover, resolved,
  resolve_watched_source, filter_target, filter_args, filter_planned,
}
use fmon.Scanner.Scan.{note_baseline, scan_planned, scan_all, select_planned, scan_body}
use fmon.Scanner.Source.{add_notice}
use fmon.Scanner.Stable.{Stable}
use fmon.Scanner.Stable.Actions.{Keeps-question, Keeps-fail, Keeps-change_report, action_rules}
use fmon.Scanner.Stable.Files.{Keeps-scan_source}

module _ {P E : World → Type 0} (S : Stable P E) where
  Keeps-normalize_source :
      (p : Text) (configured : List Text) → Keeps P E (normalize_source p configured)
  unfolding normalize_source
  Keeps-normalize_source p configured = search action_rules

  Keeps-normalize_sources :
      (ps configured : List Text) → Keeps P E (normalize_sources ps configured)
  unfolding normalize_sources
  Keeps-normalize_sources [] configured = Keeps-pure configured
  Keeps-normalize_sources (p ∷ ps) configured =
      Keeps-bind _ _ (Keeps-normalize_source p configured) (Keeps-normalize_sources ps)

  Keeps-on_conflict :
      (p : Text) (accepted : List Text) (o : Option Text)
      → Keeps {0} {A = List Text} P E (elim o [
        | some q ↦ (do warnf (overlapping p q); pure accepted)
        | none ↦ pure (accepted ++ p ∷ [])
      ])
  Keeps-on_conflict p accepted none = search action_rules
  Keeps-on_conflict p accepted (some q) = search action_rules

  Keeps-accept_source : (p : Text) (accepted : List Text) → Keeps P E (accept_source p accepted)
  unfolding accept_source
  Keeps-accept_source p accepted = Keeps-on_conflict p accepted (find_conflict p accepted)

  Keeps-accept_sources : (ps accepted : List Text) → Keeps P E (accept_sources ps accepted)
  unfolding accept_sources
  Keeps-accept_sources [] accepted = Keeps-pure accepted
  Keeps-accept_sources (p ∷ ps) accepted =
      Keeps-bind _ _ (Keeps-accept_source p accepted) (Keeps-accept_sources ps)

  Keeps-drop_source : (keep : List Text) (s : Source) → Keeps P E (drop_source keep s)
  unfolding drop_source
  Keeps-drop_source keep s = search action_rules

  Keeps-drop_sources : (keep : List Text) (ss : List Source) → Keeps P E (drop_sources keep ss)
  unfolding drop_sources
  Keeps-drop_sources keep [] = Keeps-pure tt
  Keeps-drop_sources keep (s ∷ ss) =
      Keeps-bind _ _ (Keeps-drop_source keep s) λ _. Keeps-drop_sources keep ss

  Keeps-insert_planned : (p : Text) (typ : SourceType) → Keeps P E (insert_planned p typ)
  unfolding insert_planned
  Keeps-insert_planned p typ = search action_rules depth 9

  Keeps-plan_unknown : (p : Text) (info : Outcome FileInfo) → Keeps P E (plan_unknown p info)
  unfolding plan_unknown
  Keeps-plan_unknown p (failed e) = search action_rules
  Keeps-plan_unknown p (found info) = by_kind info.kind
    where
      by_kind :
          (k : EntryKind)
          → Keeps {0} {A = Option PlannedSource} P E (elim k [
            | is_dir ↦ insert_planned p source_folder
            | is_regular ↦ insert_planned p source_file
            | is_special ↦ (do non_fatal (configured_special p); pure none)
          ])
      by_kind is_dir = Keeps-insert_planned p source_folder
      by_kind is_regular = Keeps-insert_planned p source_file
      by_kind is_special = search action_rules

  Keeps-plan_source : (by_path : Dict Source) (p : Text) → Keeps P E (plan_source by_path p)
  unfolding plan_source
  Keeps-plan_source by_path p = by_entry (lookup p by_path)
    where
      by_entry :
          (o : Option Source)
          → Keeps {0} {A = Option PlannedSource} P E (elim o [
            | some s ↦ pure (some (record { src = s; baseline = false }))
            | none ↦ (do info ← ask (λ env n. env.lstat n p); plan_unknown p info)
          ])
      by_entry (some s) = Keeps-pure _
      by_entry none = search (action_rules, Keeps-plan_unknown)

  Keeps-plan_sources :
      (by_path : Dict Source) (ps : List Text) (out : List PlannedSource)
      → Keeps P E (plan_sources by_path ps out)
  unfolding plan_sources
  Keeps-plan_sources by_path [] out = Keeps-pure out
  Keeps-plan_sources by_path (p ∷ ps) out =
      Keeps-bind _ _ (Keeps-plan_source by_path p)
        λ planned. Keeps-plan_sources by_path ps (push_planned planned out)

  Keeps-accept_configured : (sources : List Text) → Keeps P E (accept_configured sources)
  unfolding accept_configured
  Keeps-accept_configured sources =
      search (keeps_rules, Keeps-normalize_sources, Keeps-accept_sources)

  pub Keeps-reconcile : Keeps P E reconcile
  unfolding reconcile
  Keeps-reconcile =
      search (action_rules, Keeps-accept_configured, Keeps-drop_sources, Keeps-plan_sources) depth
        12

  Keeps-normalize_path : (p : Text) → Keeps P E (normalize_path p)
  unfolding normalize_path
  Keeps-normalize_path p =
      Keeps-if (is_abs p) _ _ (λ _. Keeps-pure _) λ _. Keeps-bind _ _ (Keeps-question S _) by_dir
    where
      by_dir :
          (wd : Option Text)
          → Keeps {0} {A = Text} P E (elim wd [
            | none ↦ raise (no_absolute_path p)
            | some d ↦ pure (clean (clean (d ++ separator ∷ p)))
          ])
      by_dir none = Keeps-fail S _
      by_dir (some d) = Keeps-pure _

  Keeps-resolved :
      (abs : Text) (candidates watched : List Text) → Keeps P E (resolved abs candidates watched)
  unfolding resolved
  Keeps-resolved abs candidates watched = by_match (find_watched candidates watched)
    where
      by_cover :
          (o : Option Text)
          → Keeps {0} {A = Text} P E
              (elim o [ some q ↦ raise (covered abs q) | none ↦ raise (not_watched abs) ])
      by_cover none = Keeps-fail S _
      by_cover (some q) = Keeps-fail S _

      by_match :
          (o : Option Text)
          → Keeps {0} {A = Text} P E (elim o [
            | some p ↦ pure p
            | none ↦ elim (find_cover abs watched) [
              | some q ↦ raise (covered abs q)
              | none ↦ raise (not_watched abs)
            ]
          ])
      by_match (some p) = Keeps-pure p
      by_match none = by_cover (find_cover abs watched)

  pub Keeps-resolve_watched_source :
      (cfg_sources : List Text) (arg : Text) → Keeps P E (resolve_watched_source cfg_sources arg)
  unfolding resolve_watched_source
  Keeps-resolve_watched_source cfg_sources arg =
      search (action_rules, Keeps-normalize_path, Keeps-resolved) depth 9

  Keeps-filter_target :
      (by_path : Dict PlannedSource) (target : Text) (st : List Text × List PlannedSource)
      → Keeps P E (filter_target by_path target st)
  unfolding filter_target
  Keeps-filter_target by_path target (seen, out) =
      Keeps-if (contains target seen) (pure (seen, out)) _ (λ _. Keeps-pure (seen, out))
        (λ _. by_entry (lookup target by_path))
    where
      by_entry :
          (o : Option PlannedSource)
          → Keeps {0} {A = List Text × List PlannedSource} P E (elim o [
            | none ↦ raise (not_planned target)
            | some ps ↦ pure (target ∷ seen, out ++ ps ∷ [])
          ])
      by_entry none = Keeps-fail S _
      by_entry (some ps) = Keeps-pure _

  Keeps-filter_args :
      (by_path : Dict PlannedSource) (cfg_sources args : List Text)
      (st : List Text × List PlannedSource)
      → Keeps P E (filter_args by_path cfg_sources args st)
  unfolding filter_args
  Keeps-filter_args by_path cfg_sources [] (seen, out) = Keeps-pure out
  Keeps-filter_args by_path cfg_sources (arg ∷ args) st =
      Keeps-bind _ _ (Keeps-resolve_watched_source cfg_sources arg) λ target.
        Keeps-bind _ _ (Keeps-filter_target by_path target st)
          (Keeps-filter_args by_path cfg_sources args)

  Keeps-select_planned :
      (only : List Text) (planned : List PlannedSource) → Keeps P E (select_planned only planned)
  unfolding filter_planned
  Keeps-select_planned [] planned = Keeps-pure planned
  Keeps-select_planned (arg ∷ args) planned = search (action_rules, Keeps-filter_args)

  Keeps-note_baseline : (v : Option Text) → Keeps P E (note_baseline v)
  unfolding note_baseline
  Keeps-note_baseline none = Keeps-pure false
  Keeps-note_baseline (some v) =
      Keeps-bind _ _ (Keeps-change_report S (add_notice _) (λ r. refl) (λ r. refl))
        λ _. Keeps-pure true

  Keeps-scan_planned :
      (patterns : List Text) (baseline_all full : Bool) (ps : PlannedSource)
      → Keeps P E (scan_planned patterns baseline_all full ps)
  unfolding scan_planned
  Keeps-scan_planned patterns baseline_all full ps =
      search (action_rules, Keeps-scan_source) depth 9

  Keeps-scan_all :
      (patterns : List Text) (baseline_all full : Bool) (planned : List PlannedSource)
      → Keeps P E (scan_all patterns baseline_all full planned)
  unfolding scan_all
  Keeps-scan_all patterns baseline_all full [] = Keeps-pure tt
  Keeps-scan_all patterns baseline_all full (ps ∷ planned) =
      Keeps-bind _ _ (Keeps-scan_planned patterns baseline_all full ps)
        λ _. Keeps-scan_all patterns baseline_all full planned

  -- Every stable invariant is kept by all that a scan does between BEGIN and COMMIT.
  pub Keeps-scan_body : (full : Bool) (only : List Text) → Keeps P E (scan_body full only)
  unfolding scan_body
  Keeps-scan_body full only =
      search
        (action_rules, Keeps-note_baseline, Keeps-reconcile, Keeps-select_planned, Keeps-scan_all)
        depth 14
