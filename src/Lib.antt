-- ===== src/Lib.antt =====
-- fmon, a file integrity monitor: a run compares the watched files and folders with the state stored
-- by the previous run and reports what was added, modified or deleted.
--
-- The parts, and the files that model them:
--
--   internal/models/models.go        Models, Models/Hash. The rows and values that all parts share. An
--                                    int64 is an integer, a uint64 hash a number below 2 ^ 64.
--   internal/monitor/paths.go        Paths, with filepath.Clean in Paths/Clean. Paths are lists of bytes.
--   internal/monitor/exclude.go      Exclude. The glob matcher (doublestar) is a parameter.
--   internal/db                      Db: the four tables and each SQL statement as a function on them,
--                                    with the constraints of migrate.go; Queries: the functions of
--                                    queries.go as actions that the driver may fail; Exec/Tx: the write
--                                    transaction of db.go. Db/History: the history's queries; Db/Totals:
--                                    those of the list command. Migrate: the schema and its version.
--   internal/config/config.go        Config: settings, defaults, validation, the source list, and the
--                                    mail password in Config/Password; Config/Write: writing the file.
--                                    Main/Setup: paths and loading.
--   internal/monitor/app.go          Exec: the state of a run, its messages, and the monad.
--   internal/monitor/scanner.go      Report, and Scanner: File (checkFile, emit), Folder (the walk and
--                                    finishFolder), Source (scanSource, handleMissing), Plan (reconcile,
--                                    filterPlanned, and resolveWatchedSource of commands.go), Scan.
--   internal/monitor/notify.go       Notify: the change lines, and the truncation of a script's message;
--                                    Notify/Render: Render, as its lines; Notify/Sinks: Notify with the
--                                    log file, the mail session and the scripts.
--   internal/monitor/output.go       Notify/Render (the lines) and Main/Run (PrintScan).
--   internal/monitor/list.go         Listing: Rows (humanBytes), Table (the rest).
--   internal/monitor/commands.go     Commands: init, add, rm, history and its clearing.
--   cmd/fmon/main.go                 Main: Args (flags and their checks), Setup, Run (from the arguments
--                                    to the exit code).
--
-- An action takes the outside world and the state of the run, and returns a value or a Go error with
-- the state after it. The outside world is a record of functions that take the number of the question:
-- the clock, cancellation, faults of the database driver, Lstat, the directory tree that WalkDir meets,
-- the hash of a file, symbolic links. Nothing is assumed of them unless a theorem says so, so every
-- theorem covers a disk that changes and a driver that fails while the scan runs. A panic is an error
-- that no handler catches: the index below 0 that a negative user_version gives to Migrate
-- (`migrations[i]` of internal/db/migrate.go), and `positional[0]` without an argument. The report and the
-- source scan, which the source passes by pointer, are parts of the state; a Go map is an association
-- list; a message is a constructor for each format with the values that it prints.
--
-- Libraries are parameters, with documented behaviour as a hypothesis where a theorem needs it: the
-- glob matcher, the TOML decoder, the flag parser, strconv.Quote, the formats of times and durations,
-- time.ParseDuration.
--
-- Loops are structural: over lists of paths, rows and sources, and over the directory tree. Two have
-- fuel: that of parseInterspersed gets one turn more than there are arguments, which is always enough,
-- and that of humanBytes gets five turns, which are enough for every int64.
--
-- How the proofs are put together: Scanner/Stable states, as an interface, which steps a scan takes,
-- and its children prove that every action of the scanner keeps any invariant that is stable under
-- those steps. Atomicity, the audit trail and the unique and foreign keys of the sources and states are three
-- instances.
-- The transactions of the commands are shown atomic by the same lemmas.
--
-- The builds for Linux and macOS are modelled (runtime.GOOS is a constant). Not modelled: the TOML
-- syntax and the comments in fmon.toml (for the commands its writing is one step that succeeds or changes
-- nothing, which Config/Write shows for the calls of the file system), the parsing of the flags of one
-- argument list and what the flag package prints, the columns of a table, the encoding
-- of a mail, the wording of the errors (a constructor for each), the connection string of the database
-- but for its pragmas, whether `cmd.Run` starts a process (the
-- outside says how each call ends), a ROLLBACK that fails (the writes count as undone at once, not when
-- the database is closed),
-- what another process does to the files between two questions except through the answers, the hash
-- function itself, and the version constant.
pub mod Base
pub mod Models
pub mod Migrate
pub mod Paths
pub mod Db
pub mod Config
pub mod Report
pub mod Exec
pub mod Queries
pub mod Exclude
pub mod Scanner
pub mod Notify
pub mod Commands
pub mod Listing
pub mod Main
