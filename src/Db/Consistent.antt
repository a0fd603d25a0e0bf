-- ===== src/Db/Consistent.antt =====
-- The unique and foreign keys of watched_sources and files_state (migrate.go) as an invariant of the
-- tables, kept by every statement.
use mathlib.Core.Path.{subst}
use fmon.Base.{
  ℕ, ◌<◌, ◌≡◌, refl, ◌∙◌, ◌≢◌, inl, inr, true, false, not, some, List, [], ◌∷◌, ◌++◌, map, arith,
  eqb, Bool-cases, ◌==◌, keep_if, any_of-append, All, All-map, All-keep_if, Pairwise, Pairwise-snoc,
  Pairwise-keep_if, Text, text_eq, text_eq_iff, nat_eq, text_equality,
}
use fmon.Base.Int.{ℤ, int_equality}
use fmon.Db.{
  FileRow, Db, empty_db, next_id, source_ids, has_source_path, has_source_id, new_source,
  insert_source_row, with_status, update_source_status, delete_source_row, file_ids, update_row,
  new_row, upsert_row, upsert_file_row, delete_file_row,
}
use fmon.Models.{SourceType, SourceStatus, Source, FileState}

-- PRIMARY KEY and UNIQUE of watched_sources, UNIQUE and FOREIGN KEY of files_state.
pub record IsConsistent (d : Db) : Type 0 where
  pub source_paths : Pairwise (λ (s t : Source). s.path ≢ t.path) d.watched_sources
  pub source_keys : Pairwise (λ (s t : Source). s.id ≢ t.id) d.watched_sources
  pub file_paths : Pairwise (λ (r q : FileRow). r.file_path ≢ q.file_path) d.files_state
  pub owners :
      All (λ (r : FileRow). has_source_id r.source_id d.watched_sources ≡ true) d.files_state

pub empty_db-IsConsistent : IsConsistent empty_db
empty_db-IsConsistent = record { source_paths = tt; source_keys = tt; file_paths = tt; owners = tt }

-- A new id is larger than every id of the table.
next_id_fresh : (ss : List Source) → All (λ (s : Source). s.id < next_id (source_ids ss)) ss
unfolding next_id
next_id_fresh [] = tt
next_id_fresh (s ∷ ss) = (
  omega arith,
  All-map (λ (t : Source). t.id < next_id (source_ids ss)) _ ss (λ t h. omega arith)
      (next_id_fresh ss),
)

path_fresh :
    (p : Text) (ss : List Source)
    → has_source_path p ss ≡ false
    → All (λ (s : Source). s.path ≢ p) ss
path_fresh p [] h = tt
path_fresh p (s ∷ ss) h = (
  λ e. let same : text_eq s.path p ≡ true = (text_eq_iff s.path p).1 e in ground arith,
  path_fresh p ss (ground arith),
)

owners-snoc :
    (rows : List FileRow) (ss : List Source) (t : Source)
    → All (λ (r : FileRow). has_source_id r.source_id ss ≡ true) rows
    → All (λ (r : FileRow). has_source_id r.source_id (ss ++ t ∷ []) ≡ true) rows
owners-snoc rows ss t =
    All-map _ _ rows λ r h. any_of-append (λ (s : Source). s.id == r.source_id) ss (t ∷ []) ∙ (rw h)

-- A source with a new path and a new id.
add_source-IsConsistent :
    (d : Db) (t : Source)
    → IsConsistent d
    → All (λ (s : Source). s.path ≢ t.path) d.watched_sources
    → All (λ (s : Source). s.id ≢ t.id) d.watched_sources
    → IsConsistent (record d { watched_sources = d.watched_sources ++ t ∷ [] })
add_source-IsConsistent d t c p i = record {
  source_paths = Pairwise-snoc _ d.watched_sources t c.source_paths p;
  source_keys = Pairwise-snoc _ d.watched_sources t c.source_keys i;
  file_paths = c.file_paths;
  owners = owners-snoc d.files_state d.watched_sources t c.owners;
}

pub insert_source_row-IsConsistent :
    (p : Text) (typ : SourceType) (now : ℤ) (d : Db) (id : ℕ) (d' : Db)
    → IsConsistent d
    → insert_source_row p typ now d ≡ some (id, d')
    → IsConsistent d'
unfolding insert_source_row
insert_source_row-IsConsistent p typ now d id d' c h =
    let ss = d.watched_sources in
    elim (Bool-cases (has_source_path p ss)) [
      | inl e ↦ absurd (ground arith)
      | inr e ↦
          let new = new_source (next_id (source_ids ss)) p typ now in
          let put : IsConsistent (record d { watched_sources = ss ++ new ∷ [] }) =
            add_source-IsConsistent d new c (path_fresh p ss e) (
              All-map (λ (t : Source). t.id < next_id (source_ids ss))
                (λ (t : Source). t.id ≢ new.id) ss (λ t lt g. omega arith) (next_id_fresh ss)) in
          let same : record d { watched_sources = ss ++ new ∷ [] } ≡ d' = ground arith in
          subst IsConsistent same put
    ]

All-with_status :
    (P : Source → Type 0) (id : ℕ) (st : SourceStatus) (ss : List Source)
    → ((s : Source) → P s → P (record s { status = st }))
    → All P ss
    → All P (map (with_status id st) ss)
All-with_status P id st [] f h = tt
All-with_status P id st (s ∷ ss) f h = elim (Bool-cases (eqb s.id id)) [
  | inl e ↦ rw e (f s h.0, All-with_status P id st ss f h.1)
  | inr e ↦ rw e (h.0, All-with_status P id st ss f h.1)
]

has_source_id-with_status :
    (k id : ℕ) (st : SourceStatus) (ss : List Source)
    → has_source_id k (map (with_status id st) ss) ≡ has_source_id k ss
has_source_id-with_status k id st [] = refl
has_source_id-with_status k id st (s ∷ ss) = ground (arith, has_source_id-with_status k id st ss)

with_status-paths :
    (id : ℕ) (st : SourceStatus) (ss : List Source)
    → Pairwise (λ (s t : Source). s.path ≢ t.path) ss
    → Pairwise (λ (s t : Source). s.path ≢ t.path) (map (with_status id st) ss)
with_status-paths id st [] h = tt
with_status-paths id st (s ∷ ss) h = elim (Bool-cases (eqb s.id id)) [
  | inl e ↦ rw e (
    All-with_status (λ t. s.path ≢ t.path) id st ss (λ t p. p) h.0,
    with_status-paths id st ss h.1,
  )
  | inr e ↦ rw e (
    All-with_status (λ t. s.path ≢ t.path) id st ss (λ t p. p) h.0,
    with_status-paths id st ss h.1,
  )
]

with_status-keys :
    (id : ℕ) (st : SourceStatus) (ss : List Source)
    → Pairwise (λ (s t : Source). s.id ≢ t.id) ss
    → Pairwise (λ (s t : Source). s.id ≢ t.id) (map (with_status id st) ss)
with_status-keys id st [] h = tt
with_status-keys id st (s ∷ ss) h = elim (Bool-cases (eqb s.id id)) [
  | inl e ↦
      rw e
        (All-with_status (λ t. s.id ≢ t.id) id st ss (λ t p. p) h.0, with_status-keys id st ss h.1)
  | inr e ↦
      rw e
        (All-with_status (λ t. s.id ≢ t.id) id st ss (λ t p. p) h.0, with_status-keys id st ss h.1)
]

pub update_source_status-IsConsistent :
    (id : ℕ) (st : SourceStatus) (d : Db)
    → IsConsistent d
    → IsConsistent (update_source_status id st d)
unfolding update_source_status
update_source_status-IsConsistent id st d c = record {
  source_paths = with_status-paths id st d.watched_sources c.source_paths;
  source_keys = with_status-keys id st d.watched_sources c.source_keys;
  file_paths = c.file_paths;
  owners =
      All-map _ _ d.files_state
        (λ r h. has_source_id-with_status r.source_id id st d.watched_sources ∙ h) c.owners;
}

-- A row of another source keeps its owner.
owner_kept :
    (k id : ℕ) (ss : List Source)
    → eqb k id ≡ false
    → has_source_id k ss ≡ true
    → has_source_id k (keep_if (λ (s : Source). not (s.id == id)) ss) ≡ true
owner_kept k id [] n h = absurd (ground arith)
owner_kept k id (s ∷ ss) n h = elim (Bool-cases (eqb s.id id)) [
  | inl e ↦ rw e (owner_kept k id ss n (ground arith))
  | inr e ↦ elim (Bool-cases (eqb s.id k)) [
    | inl f ↦ rw (e, f) refl
    | inr f ↦ rw (e, f) (owner_kept k id ss n (ground arith))
  ]
]

owners_kept :
    (id : ℕ) (ss : List Source) (rows : List FileRow)
    → All (λ (r : FileRow). has_source_id r.source_id ss ≡ true) rows
    → All
        (λ (r : FileRow).
          has_source_id r.source_id (keep_if (λ (s : Source). not (s.id == id)) ss) ≡ true)
        (keep_if (λ (r : FileRow). not (r.source_id == id)) rows)
owners_kept id ss [] h = tt
owners_kept id ss (r ∷ rows) h = elim (Bool-cases (eqb r.source_id id)) [
  | inl e ↦ rw e (owners_kept id ss rows h.1)
  | inr e ↦ rw e (owner_kept r.source_id id ss e h.0, owners_kept id ss rows h.1)
]

pub delete_source_row-IsConsistent :
    (id : ℕ) (d : Db) → IsConsistent d → IsConsistent (delete_source_row id d)
unfolding delete_source_row
delete_source_row-IsConsistent id d c = record {
  source_paths = Pairwise-keep_if _ _ d.watched_sources c.source_paths;
  source_keys = Pairwise-keep_if _ _ d.watched_sources c.source_keys;
  file_paths = Pairwise-keep_if _ _ d.files_state c.file_paths;
  owners = owners_kept id d.watched_sources d.files_state c.owners;
}

upsert_row-All :
    (P : FileRow → Type 0) (id : ℕ) (s : FileState) (rows : List FileRow)
    → ((r : FileRow) → P r → P (update_row s r))
    → P (new_row id s)
    → All P rows
    → All P (upsert_row id s rows)
unfolding upsert_row
upsert_row-All P id s [] f n h = (n, tt)
upsert_row-All P id s (r ∷ rows) f n h = elim (Bool-cases (text_eq r.file_path s.path)) [
  | inl e ↦ rw e (f r h.0, h.1)
  | inr e ↦ rw e (h.0, upsert_row-All P id s rows f n h.1)
]

upsert_row-paths :
    (id : ℕ) (s : FileState) (rows : List FileRow)
    → Pairwise (λ (r q : FileRow). r.file_path ≢ q.file_path) rows
    → Pairwise (λ (r q : FileRow). r.file_path ≢ q.file_path) (upsert_row id s rows)
unfolding upsert_row
upsert_row-paths id s [] h = (tt, tt)
upsert_row-paths id s (r ∷ rows) h = elim (Bool-cases (text_eq r.file_path s.path)) [
  | inl e ↦ rw e (h.0, h.1)
  | inr e ↦ rw e (
    upsert_row-All (λ q. r.file_path ≢ q.file_path) id s rows (λ q p. p)
        (λ p. let same : text_eq r.file_path s.path ≡ true = (text_eq_iff _ _).1 p in cc) h.0,
    upsert_row-paths id s rows h.1,
  )
]

pub upsert_file_row-IsConsistent :
    (s : FileState) (d d' : Db) → IsConsistent d → upsert_file_row s d ≡ some d' → IsConsistent d'
unfolding upsert_file_row
upsert_file_row-IsConsistent s d d' c h =
    let rows = upsert_row (next_id (file_ids d.files_state)) s d.files_state in
    elim (Bool-cases (has_source_id s.source_id d.watched_sources)) [
      | inr e ↦ absurd (ground arith)
      | inl e ↦
          let same : record d { files_state = rows } ≡ d' = ground arith in
          let put : IsConsistent (record d { files_state = rows }) = record {
            source_paths = c.source_paths;
            source_keys = c.source_keys;
            file_paths = upsert_row-paths _ s d.files_state c.file_paths;
            owners =
                upsert_row-All (λ (r : FileRow). has_source_id r.source_id d.watched_sources ≡ true)
                  _ s d.files_state (λ r h. e) e c.owners;
          } in
          subst IsConsistent same put
    ]

pub delete_file_row-IsConsistent :
    (p : Text) (d : Db) → IsConsistent d → IsConsistent (delete_file_row p d)
unfolding delete_file_row
delete_file_row-IsConsistent p d c = record {
  source_paths = c.source_paths;
  source_keys = c.source_keys;
  file_paths = Pairwise-keep_if _ _ d.files_state c.file_paths;
  owners = All-keep_if _ _ d.files_state c.owners;
}
