-- ===== src/Db/States.antt =====
-- queries.go: LoadFileStates reads back what UpsertFileState wrote.
use mathlib.Core.Path.{subst}
use fmon.Base.{
  ℕ, ◌<◌, ◌≡◌, refl, sym, ap, ◌∙◌, ◌≢◌, inl, inr, true, Option, some, List, [], ◌∷◌, arith, eqb,
  if◌then◌else◌, eqb_iff, Bool-cases, All, Pairwise, Text, text_eq, text_eq_iff,
}
use fmon.Base.Dict.{Dict, lookup, insert, lookup-insert}
use fmon.Db.{
  FileRow, Db, next_id, has_source_id, file_ids, read_file_row, collect_states, update_row, new_row,
  upsert_row, upsert_file_row,
}
use fmon.Db.Consistent.{IsConsistent}
use fmon.Models.{FileState}
use fmon.Models.Hash.{hash_limit, hash_to_db, hash_from_db, hash_from_db-hash_to_db}

-- What the next scan knows of a file: its content and the metadata that it was stored with.
pub record IsStored (s : FileState) (o : Option FileState) : Type 0 where
  pub state : FileState
  pub stored : o ≡ some state
  pub hash : state.hash ≡ s.hash
  pub size : state.size ≡ s.size
  pub mod_time : state.mod_time ≡ s.mod_time

pub collect_states-absent :
    (id : ℕ) (p : Text) (rows : List FileRow) (out : Dict FileState)
    → All (λ (r : FileRow). p ≢ r.file_path) rows
    → lookup p (collect_states id rows out) ≡ lookup p out
unfolding collect_states
collect_states-absent id p [] out h = refl
collect_states-absent id p (r ∷ rows) out h = elim (Bool-cases (eqb r.source_id id)) [
  | inr e ↦ rw e (collect_states-absent id p rows out h.1)
  | inl e ↦ rw e (
      collect_states-absent id p rows (insert r.file_path (read_file_row r) out) h.1
      ∙ lookup-insert r.file_path p (read_file_row r) out
      ∙ other)
]
  where
    other : (if text_eq r.file_path p then some (read_file_row r) else lookup p out) ≡ lookup p out
    other = elim (Bool-cases (text_eq r.file_path p)) [
      | inl e ↦ absurd (h.0 (sym ((text_eq_iff r.file_path p).0 e)))
      | inr e ↦ rw e
    ]

pub lookup-insert_self :
    (p : Text) (s : FileState) (out : Dict FileState) → lookup p (insert p s out) ≡ some s
lookup-insert_self p s out =
    let same : text_eq p p ≡ true = (text_eq_iff p p).1 refl in lookup-insert p p s out ∙ rw same

-- The row that the upsert leaves for the file.
IsStored-row :
    (s : FileState) (r : FileRow) (o : Option FileState)
    → s.hash < hash_limit
    → r.last_hash ≡ hash_to_db s.hash
    → r.size ≡ s.size
    → r.mod_time ≡ s.mod_time
    → o ≡ some (read_file_row r)
    → IsStored s o
unfolding read_file_row
IsStored-row s r o lt h z m e = record {
  state = read_file_row r;
  stored = e;
  hash = ap hash_from_db h ∙ (hash_from_db-hash_to_db s.hash lt).1;
  size = z;
  mod_time = m;
}

collect_states-upsert_row :
    (i : ℕ) (s : FileState) (rows : List FileRow) (out : Dict FileState)
    → s.hash < hash_limit
    → Pairwise (λ (r q : FileRow). r.file_path ≢ q.file_path) rows
    → IsStored s (lookup s.path (collect_states s.source_id (upsert_row i s rows) out))
unfolding collect_states upsert_row
collect_states-upsert_row i s [] out lt h =
    let self : eqb s.source_id s.source_id ≡ true = (eqb_iff _ _).1 refl in
    rw self (IsStored-row s (new_row i s) _ lt refl refl refl (lookup-insert_self s.path _ out))
collect_states-upsert_row i s (r ∷ rows) out lt h = elim (Bool-cases (text_eq r.file_path s.path)) [
  | inl e ↦
      let self : eqb s.source_id s.source_id ≡ true = (eqb_iff _ _).1 refl in
      let same : r.file_path ≡ s.path = (text_eq_iff _ _).0 e in
      let row = update_row s r in
      rw (e, collect_states)
        (rw self (
          IsStored-row s row _ lt refl refl refl (
            collect_states-absent s.source_id s.path rows
              (insert r.file_path (read_file_row row) out)
              (subst (λ (p : Text). All (λ (q : FileRow). p ≢ q.file_path) rows) same h.0)
            ∙ subst
                (λ (p : Text).
                  lookup p (insert r.file_path (read_file_row row) out) ≡ some (read_file_row row))
                same (lookup-insert_self r.file_path _ out))))
  | inr e ↦ rw e (collect_states-upsert_row i s rows _ lt h.1)
]

-- A successful upsert into tables with distinct file paths: loading the states of its source gives
-- the hash, the size and the modification time that were written.
pub upsert_file_row-IsStored :
    (s : FileState) (d d' : Db)
    → s.hash < hash_limit
    → IsConsistent d
    → upsert_file_row s d ≡ some d'
    → IsStored s (lookup s.path (collect_states s.source_id d'.files_state []))
unfolding upsert_file_row
upsert_file_row-IsStored s d d' lt c h =
    let rows = upsert_row (next_id (file_ids d.files_state)) s d.files_state in
    elim (Bool-cases (has_source_id s.source_id d.watched_sources)) [
      | inr e ↦ absurd (ground arith)
      | inl e ↦
          let same : rows ≡ d'.files_state = ground arith in
          subst
            (λ (rs : List FileRow). IsStored s (lookup s.path (collect_states s.source_id rs [])))
            same (collect_states-upsert_row _ s d.files_state [] lt c.file_paths)
    ]
