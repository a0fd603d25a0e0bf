-- ===== src/Models.antt =====
-- internal/models/models.go: the rows and values that every package shares. An identifier is a
-- number (SQLite assigns positive ones); sizes and times are int64 values, so integers; a hash is a
-- uint64, so a number below 2 ^ 64.
pub mod Hash
pub mod Hex
mod Tests
use fmon.Base.{ℕ, Option, Text}
use fmon.Base.Int.{ℤ}

pub data SourceType : Type 0 where
  source_file source_folder : SourceType

pub data SourceStatus : Type 0 where
  status_active status_missing : SourceStatus

pub data EventType : Type 0 where
  event_added event_modified event_deleted : EventType

pub record Source : Type 0 where
  pub id : ℕ
  pub path : Text
  pub typ : SourceType
  pub status : SourceStatus
  pub created_at : ℤ

pub record FileState : Type 0 where
  pub id : ℕ
  pub source_id : ℕ
  pub path : Text
  pub hash : ℕ
  pub size : ℤ
  pub mod_time : ℤ
  pub updated_at : ℤ

pub record HistoryEntry : Type 0 where
  pub id : ℕ
  pub path : Text
  pub event : EventType
  pub old_hash : Option ℕ
  pub new_hash : Option ℕ
  pub old_size : Option ℤ
  pub new_size : Option ℤ
  pub timestamp : ℤ

pub record Change : Type 0 where
  pub event : EventType
  pub path : Text
  pub source : Text
  pub old_hash : ℕ
  pub new_hash : ℕ
  pub old_size : ℤ
  pub new_size : ℤ
