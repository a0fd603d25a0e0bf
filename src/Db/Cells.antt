-- ===== src/Db/Cells.antt =====
-- queries.go: the files_state table as a map from paths, without row ids and the order of the rows.
use mathlib.Core.Path.{subst}
use fmon.Base.{
  ℕ, ◌<◌, ◌≡◌, refl, ap, ◌∙◌, ◌≢◌, ◌⊎◌, inl, inr, Bool, true, false, not, Option, none, some, List,
  [], ◌∷◌, arith, eqb, if◌then◌else◌, Bool-cases, ◌==◌, keep_if, All, All-keep_if, Pairwise, Text,
  text_eq, text_eq_iff, nat_eq, text_equality,
}
use fmon.Base.Dict.{Dict, lookup, insert, lookup-insert}
use fmon.Base.Int.{ℤ, int_equality}
use fmon.Db.{
  FileRow, Db, next_id, has_source_id, delete_source_row, file_ids, read_file_row, collect_states,
  update_row, upsert_row, upsert_file_row, delete_file_row,
}
use fmon.Db.Consistent.{IsConsistent}
use fmon.Db.States.{collect_states-absent}
use fmon.Models.{FileState}
use fmon.Models.Hash.{hash_limit, hash_from_db-hash_to_db}

-- What the table says of a path: the source that owns it, and its state.
pub record Cell : Type 0 where
  pub owner : ℕ
  pub hash : ℕ
  pub size : ℤ
  pub mod_time : ℤ
  pub updated_at : ℤ

-- The abstract state.
abbrev pub Cells : Type 0
Cells = Text → Option Cell

abbrev pub cell_of : FileState → Cell
cell_of s = record {
  owner = s.source_id;
  hash = s.hash;
  size = s.size;
  mod_time = s.mod_time;
  updated_at = s.updated_at;
}

-- ---- the abstract operations -----------------------------------------------------

abbrev pub put : FileState → Cells → Cells
put s m p = if s.path == p then some (cell_of s) else m p

abbrev pub remove_path : Text → Cells → Cells
remove_path path m p = if path == p then none else m p

abbrev pub owned : (ℕ → Bool) → Option Cell → Option Cell
owned test none = none
owned test (some c) = if test c.owner then some c else none

abbrev pub remove_owner : ℕ → Cells → Cells
remove_owner id m p = owned (λ n. not (n == id)) (m p)

abbrev pub of_owner : ℕ → Cells → Cells
of_owner id m p = owned (λ n. n == id) (m p)

-- ---- the abstraction ---------------------------------------------------------------

unfoldable pub cells : List FileRow → Cells
unfolding read_file_row
cells [] p = none
cells (r ∷ rows) p = if r.file_path == p then some (cell_of (read_file_row r)) else cells rows p

abbrev pub state_cell : Option FileState → Option Cell
state_cell none = none
state_cell (some s) = some (cell_of s)

differs : (r s p : Text) → text_eq r s ≡ false → text_eq r p ≡ true → text_eq s p ≡ false
differs r s p e k = grind (arith, text_eq_iff r s, text_eq_iff r p, text_eq_iff s p)

cells-upsert_row :
    (i : ℕ) (s : FileState) (rows : List FileRow) (p : Text)
    → s.hash < hash_limit
    → cells (upsert_row i s rows) p ≡ put s (cells rows) p
unfolding cells upsert_row read_file_row
cells-upsert_row i s [] p lt = rw (hash_from_db-hash_to_db s.hash lt).1 refl
cells-upsert_row i s (r ∷ rows) p lt =
    by_path (text_eq r.file_path s.path) refl (cells-upsert_row i s rows p lt)
  where
    by_path :
        (b : Bool)
        → text_eq r.file_path s.path ≡ b
        → cells (upsert_row i s rows) p ≡ put s (cells rows) p
        → cells (if b then update_row s r ∷ rows else r ∷ upsert_row i s rows) p
          ≡ put s (cells (r ∷ rows)) p
    by_path true e ih =
        rw ((text_eq_iff _ _).0 e, (hash_from_db-hash_to_db s.hash lt).1) (ground arith)
    by_path false e ih = elim (Bool-cases (text_eq r.file_path p)) [
      | inl k ↦ rw (k, differs r.file_path s.path p e k) refl
      | inr k ↦ rw (k, ih) refl
    ]

cells-delete :
    (path : Text) (rows : List FileRow) (p : Text)
    → cells (keep_if (λ (r : FileRow). not (r.file_path == path)) rows) p
      ≡ remove_path path (cells rows) p
unfolding cells
cells-delete path [] p = ground arith
cells-delete path (r ∷ rows) p = by_path (text_eq r.file_path path) refl (cells-delete path rows p)
  where
    rest : List FileRow
    rest = keep_if (λ (q : FileRow). not (q.file_path == path)) rows

    by_path :
        (b : Bool)
        → text_eq r.file_path path ≡ b
        → cells rest p ≡ remove_path path (cells rows) p
        → cells (if not b then r ∷ rest else rest) p ≡ remove_path path (cells (r ∷ rows)) p
    by_path true e ih = rw ((text_eq_iff _ _).0 e) (ih ∙ ground arith)
    by_path false e ih = elim (Bool-cases (text_eq r.file_path p)) [
      | inl k ↦ rw (k, differs r.file_path path p e k) refl
      | inr k ↦ rw (k, ih) refl
    ]

cells-absent :
    (rows : List FileRow) (p : Text)
    → All (λ (r : FileRow). p ≢ r.file_path) rows
    → cells rows p ≡ none
unfolding cells
cells-absent [] p h = refl
cells-absent (r ∷ rows) p h =
    let other : text_eq r.file_path p ≡ false = grind (arith, text_eq_iff r.file_path p, h.0) in
    rw other (cells-absent rows p h.1)

abbrev Distinct : List FileRow → Type 0
Distinct rows = Pairwise (λ (r q : FileRow). r.file_path ≢ q.file_path) rows

same_path :
    (r : FileRow) (rows : List FileRow) (p : Text)
    → r.file_path ≡ p
    → All (λ (q : FileRow). r.file_path ≢ q.file_path) rows
    → All (λ (q : FileRow). p ≢ q.file_path) rows
same_path r rows p e h = subst (λ (x : Text). All (λ (q : FileRow). x ≢ q.file_path) rows) e h

cells-keep_owner :
    (test : ℕ → Bool) (rows : List FileRow) (p : Text)
    → Distinct rows
    → cells (keep_if (λ (r : FileRow). test r.source_id) rows) p ≡ owned test (cells rows p)
unfolding cells read_file_row
cells-keep_owner test [] p h = refl
cells-keep_owner test (r ∷ rows) p h =
    by_owner (test r.source_id) refl (cells-keep_owner test rows p h.1)
  where
    rest : List FileRow
    rest = keep_if (λ (q : FileRow). test q.source_id) rows

    by_owner :
        (b : Bool)
        → test r.source_id ≡ b
        → cells rest p ≡ owned test (cells rows p)
        → cells (if b then r ∷ rest else rest) p ≡ owned test (cells (r ∷ rows) p)
    by_owner true e ih = elim (Bool-cases (text_eq r.file_path p)) [
      | inl k ↦ rw (k, e) refl
      | inr k ↦ rw (k, ih) refl
    ]
    by_owner false e ih = elim (Bool-cases (text_eq r.file_path p)) [
      | inl k ↦
          let gone = same_path r rows p ((text_eq_iff _ _).0 k) h.0 in
          rw (k, e)
            (cells-absent rest p (All-keep_if _ (λ (q : FileRow). test q.source_id) rows gone))
      | inr k ↦ rw (k, ih) refl
    ]

-- The first that is there.
abbrev or_cell : Option Cell → Option Cell → Option Cell
or_cell none c = c
or_cell (some c) d = some c

collect_states-cells :
    (id : ℕ) (rows : List FileRow) (out : Dict FileState) (p : Text)
    → Distinct rows
    → state_cell (lookup p (collect_states id rows out))
      ≡ or_cell (of_owner id (cells rows) p) (state_cell (lookup p out))
unfolding cells collect_states read_file_row
collect_states-cells id [] out p h = refl
collect_states-cells id (r ∷ rows) out p h = elim (Bool-cases (text_eq r.file_path p)) [
  | inl k ↦
      let gone = same_path r rows p ((text_eq_iff _ _).0 k) h.0 in
      ap state_cell (collect_states-absent id p rows next gone)
      ∙ here k (Bool-cases (eqb r.source_id id))
  | inr k ↦ collect_states-cells id rows next p h.1 ∙ there k (Bool-cases (eqb r.source_id id))
]
  where
    next : Dict FileState
    next = if eqb r.source_id id then insert r.file_path (read_file_row r) out else out

    here :
        text_eq r.file_path p ≡ true
        → (eqb r.source_id id ≡ true) ⊎ (eqb r.source_id id ≡ false)
        → state_cell (lookup p next)
          ≡ or_cell (of_owner id (cells (r ∷ rows)) p) (state_cell (lookup p out))
    here k (inl e) =
        rw (e, k)
          (ap state_cell (lookup-insert r.file_path p (read_file_row r) out) ∙ (rw (k, e) refl))
    here k (inr e) = rw (e, k) (rw e refl)

    there :
        text_eq r.file_path p ≡ false
        → (eqb r.source_id id ≡ true) ⊎ (eqb r.source_id id ≡ false)
        → or_cell (of_owner id (cells rows) p) (state_cell (lookup p next))
          ≡ or_cell (of_owner id (cells (r ∷ rows)) p) (state_cell (lookup p out))
    there k (inl e) =
        rw (e, k)
          (ap (λ o. or_cell (of_owner id (cells rows) p) (state_cell o))
              (lookup-insert r.file_path p (read_file_row r) out)
            ∙ (rw k refl))
    there k (inr e) = rw (e, k) refl

or_none : (c : Option Cell) → or_cell c none ≡ c
or_none none = refl
or_none (some c) = refl

upsert_file_row-cells :
    (s : FileState) (d d' : Db) (p : Text)
    → s.hash < hash_limit
    → upsert_file_row s d ≡ some d'
    → cells d'.files_state p ≡ put s (cells d.files_state) p
unfolding upsert_file_row
upsert_file_row-cells s d d' p lt h =
    let rows = upsert_row (next_id (file_ids d.files_state)) s d.files_state in
    elim (Bool-cases (has_source_id s.source_id d.watched_sources)) [
      | inr e ↦ absurd (ground arith)
      | inl e ↦
          let same : rows ≡ d'.files_state = ground arith in
          subst (λ (rs : List FileRow). cells rs p ≡ put s (cells d.files_state) p) same
            (cells-upsert_row _ s d.files_state p lt)
    ]

-- The table of file states implements a finite map from paths to states with their owners: for tables
-- that keep the constraints, an upsert that is accepted puts one entry, a deleted row and a deleted
-- source take away their entries and no others, and what is loaded for a source is the map's part that
-- it owns.
pub files_state_refines_cells :
    (s : FileState) (d d' : Db) (path : Text) (id : ℕ) (p : Text)
    → IsConsistent d
    → s.hash < hash_limit
    → upsert_file_row s d ≡ some d'
    → (cells d'.files_state p ≡ put s (cells d.files_state) p)
      × (cells (delete_file_row path d).files_state p ≡ remove_path path (cells d.files_state) p)
      × (cells (delete_source_row id d).files_state p ≡ remove_owner id (cells d.files_state) p)
      × (state_cell (lookup p (collect_states id d.files_state []))
          ≡ of_owner id (cells d.files_state) p)
unfolding delete_file_row delete_source_row lookup
files_state_refines_cells s d d' path id p c lt h = (
  upsert_file_row-cells s d d' p lt h,
  cells-delete path d.files_state p,
  cells-keep_owner (λ n. not (eqb n id)) d.files_state p c.file_paths,
  collect_states-cells id d.files_state [] p c.file_paths ∙ or_none _,
)
