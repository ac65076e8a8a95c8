-- ===== src/Memory/Disk.antt =====
-- The two files of a session, and the file operations of pkg/memory/jsonl.go on them. Every
-- operation may fail; a crash is a failure after which nothing more is done.
use nook_claw.Prelude.{ℕ, Option, none, some, List, [], ◌∷◌, ◌++◌, take}
use nook_claw.Prelude.Text.{Text}
use nook_claw.Memory.Codec.{Bytes}

pub record SessionMeta : Type 0 where
  pub key : Text
  pub summary : Text
  pub skip : ℕ
  pub count : ℕ
  pub created_at : ℕ
  pub updated_at : ℕ

-- `{key}.jsonl` and `{key}.meta.json`; `none` for a file that does not exist. Only writeMeta writes
-- the second, at one stroke, so it is kept decoded.
pub record Files : Type 0 where
  pub jsonl : Option Bytes
  pub meta : Option SessionMeta

abbrev pub no_files : Files
no_files = record { jsonl = none; meta = none }

-- How a file operation goes: well, or it fails with nothing written, after some bytes of an
-- append, or after all of them (Sync, Close or Chmod failed).
pub data Fault : Type 0 where
  fine failed : Fault
  torn : ℕ → Fault
  not_synced : Fault

pub data MemoryError : Type 0 where
  io_error marshal_error line_too_long : MemoryError

pub data Result (A : Type 0) : Type 0 where
  ok : A → Result A
  err : MemoryError → Result A

-- What the coming file operations meet; past the end of the list all go well.
pub record World : Type 0 where
  pub files : Files
  pub faults : List Fault

abbrev pub Io : Type 0 → Type 0
Io A = World → Result A × World

abbrev pub continue : {A B : Type 0} → Result A → (A → Io B) → World → Result B × World
continue (ok a) f w = f a w
continue (err e) f w = (err e, w)

infixl 10 ◌>>=◌ ◌>>◌
abbrev pub ◌>>=◌ : {A B : Type 0} → Io A → (A → Io B) → Io B
◌>>=◌ m f w = let (r, w') = m w in continue r f w'

abbrev pub ◌>>◌ : {B : Type 0} → Io (Unit {0}) → Io B → Io B
m >> n = m >>= λ _. n

abbrev pub pure : {A : Type 0} → A → Io A
pure a w = (ok a, w)

abbrev pub lift : {A : Type 0} → Result A → Io A
lift r w = (r, w)

abbrev pub next_fault : List Fault → Fault
next_fault [] = fine
next_fault (f ∷ fs) = f

abbrev pub later_faults : List Fault → List Fault
later_faults [] = []
later_faults (f ∷ fs) = fs

-- os.ReadFile, os.Open: nothing is written.
abbrev pub reading : {A : Type 0} → (Files → A) → Fault → World → Result A × World
reading f fine w = (ok (f w.files), w)
reading f _ w = (err io_error, w)

unfoldable pub read_file : {A : Type 0} → (Files → A) → Io A
read_file f w = reading f (next_fault w.faults) (record w { faults = later_faults w.faults })

-- fileutil.WriteFileAtomic: a temporary file is written, synced and renamed over the target. Each
-- step before the rename can fail and leaves the target as it was; behind it nothing is an error.
abbrev pub replacing : (Files → Files) → Fault → World → Result (Unit {0}) × World
replacing f fine w = (ok tt, record w { files = f w.files })
replacing f _ w = (err io_error, w)

unfoldable pub write_file_atomic : (Files → Files) → Io (Unit {0})
write_file_atomic f w =
    replacing f (next_fault w.faults) (record w { faults = later_faults w.faults })

abbrev pub contents : Option Bytes → Bytes
contents none = []
contents (some bs) = bs

abbrev pub appended : Bytes → Files → Files
appended bs f = record f { jsonl = some (contents f.jsonl ++ bs) }

-- The append of addMsg: open, write, sync, close, chmod.
abbrev pub appending : Bytes → Fault → World → Result (Unit {0}) × World
appending bs fine w = (ok tt, record w { files = appended bs w.files })
appending bs failed w = (err io_error, w)
appending bs (torn n) w = (err io_error, record w { files = appended (take n bs) w.files })
appending bs not_synced w = (err io_error, record w { files = appended bs w.files })

unfoldable pub append_file : Bytes → Io (Unit {0})
append_file bs w = appending bs (next_fault w.faults) (record w { faults = later_faults w.faults })
