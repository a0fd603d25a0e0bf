-- ===== src/Scanner/Check.antt =====
-- checkFile: what is reported of one file, and what is stored.
use fmon.Base.{
  ℕ, suc, ◌≡◌, Bool, true, false, Option, none, some, List, [], ◌∷◌, ◌++◌, if◌then◌else◌, ◌==◌,
  Text, nat_eq, text_equality,
}
use fmon.Base.Dict.{lookup}
use fmon.Base.Int.{int_equality}
use fmon.Db.{Db}
use fmon.Db.Consistent.{IsConsistent}
use fmon.Exec.{FileInfo, Env, World}
use fmon.Models.{Source, FileState, Change}
use fmon.Queries.{states_of}
use fmon.Scanner.File.{added_change, modified_change, stat_unchanged}

-- What a file is reported as, from the stored state and the hash of its content.
abbrev pub expected_changes : Source → Bool → Text → FileInfo → ℕ → Option FileState → List Change
expected_changes src true p info sum none = []
expected_changes src false p info sum none =
    record (added_change p sum info.size) { source = src.path } ∷ []
expected_changes src baseline p info sum (some old) =
    if old.hash == sum
    then []
    else record (modified_change p old sum info.size) { source = src.path } ∷ []

-- The database driver never fails.
abbrev pub IsSound : Env → Type 0
IsSound env = (n : ℕ) → env.sql_fault n ≡ none

-- The tables stay consistent, and these changes are new.
record Reported (before : World) (cs : List Change) (w : World) : Type 0 where
  consistent : IsConsistent w.tables
  sources : w.tables.watched_sources ≡ before.tables.watched_sources
  changes : w.rep.changes ≡ before.rep.changes ++ cs
  hashed : w.rep.files_hashed ≡ before.rep.files_hashed

-- What a check of a file that is hashed leaves behind: the report, and a stored state that the next
-- check of the same file recognises.
pub record Checked (before : World) (p : Text) (info : FileInfo) (sum : ℕ) (w : World)
    : Type 0 where
  pub consistent : IsConsistent w.tables
  pub changes :
      w.rep.changes
      ≡ before.rep.changes
        ++ expected_changes before.sc.src before.sc.baseline p info sum (lookup p before.sc.states)
  pub hashed : w.rep.files_hashed ≡ suc before.rep.files_hashed
  pub known : FileState
  pub loaded : lookup p (states_of before.sc.src.id w.tables) ≡ some known
  pub recognised : stat_unchanged false (some known) info ≡ true
  pub same_hash : known.hash ≡ sum
