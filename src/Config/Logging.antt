-- ===== src/Config/Logging.antt =====
-- crates/router/src/config/logging.rs: the writer that rotates its file. The file system is the
-- content of the log file and the backups beside it by their names; what it answers to the calls of
-- one write is a parameter of that write, as is the compressor. A u64 never wraps here: no file has
-- 2 ^ 64 bytes.
pub mod Recovery
pub mod Runs
pub mod Tracing
use Prim.Native.String
use tokendog.Base.{
  ℕ, ◌+◌, String, List, [], ◌∷◌, ◌++◌, Option, none, some, Bool, true, false, ◌&&◌, Outcome, ret,
  panic, ◌>>=◌, length, take, ltb, if◌then◌else◌,
}
use tokendog.Base.Map.{insert}

abbrev pub default_max_size : ℕ
default_max_size = 5242880

-- `io::Result`.
pub data Io (A : Type 0) : Type 0 where
  done : A → Io A
  failed : Io A

pub record Disk : Type 0 where
  pub log : List ℕ
  pub backups : List (String × List ℕ)

-- What the calls of one write are answered. `accepted` is the number of bytes that `File::write`
-- takes, `stamp` the local time to the second.
pub record Answers : Type 0 where
  pub flushed : Bool
  pub read : Bool
  pub compressed : Bool
  pub backed_up : Bool
  pub reopened : Bool
  pub accepted : Option ℕ
  pub stamp : String

-- `RotatingInner`; `open` says whether `file` is `Some`. `file_name` is the last part of the path,
-- `none` where it is absent or no UTF-8.
pub record RotatingInner : Type 0 where
  pub open_file : Bool
  pub bytes_written : ℕ
  pub max_size : ℕ
  pub file_name : Option String

-- `RotatingFileWriter::new` on a file that has the bytes `content`, or fails to open.
unfoldable pub new : Option (List ℕ) → ℕ → Option String → Io RotatingInner
new none max_size file_name = failed
new (some content) max_size file_name = done (record {
  open_file = true;
  bytes_written = length content;
  max_size = max_size;
  file_name = file_name;
})

abbrev pub with_default_max : Option (List ℕ) → Option String → Io RotatingInner
with_default_max content file_name = new content default_max_size file_name

abbrev name_of : Option String → String
name_of none = "router.log"
name_of (some name) = name

-- The name of the backup; it stands in the directory of the log file.
unfoldable pub make_backup_path : Option String → String → String
make_backup_path original ts =
    String.◌++◌ (name_of original) (String.◌++◌ "." (String.◌++◌ ts ".gz"))

abbrev pub is_empty {ℓ} : {A : Type ℓ} → List A → Bool
is_empty [] = true
is_empty (x ∷ xs) = false

module _ (gzip : List ℕ → List ℕ) where
  -- The backup of a content that is not empty; `failed` where a step of it fails.
  unfoldable pub back_up : Answers → Option String → List ℕ → Disk → Io Disk
  back_up answers file_name content disk =
      if is_empty content
      then done disk
      else if answers.compressed && answers.backed_up
      then done (record disk {
        backups = insert (make_backup_path file_name answers.stamp) (gzip content) disk.backups;
      })
      else failed

  -- The file is opened again, truncated.
  unfoldable pub reopen :
      Answers → RotatingInner → Io Disk → Disk → Io (Unit {0}) × (RotatingInner × Disk)
  reopen answers self failed disk = (failed, (record self { open_file = false }, disk))
  reopen answers self (done backed) disk =
      if answers.reopened
      then (
        done tt,
        (record self { open_file = true; bytes_written = 0 }, record backed { log = [] }),
      )
      else (failed, (record self { open_file = false }, backed))

  -- `self.file.take().unwrap()` panics where a rotation failed before.
  unfoldable pub rotate :
      Answers → RotatingInner → Disk → Outcome (Io (Unit {0}) × (RotatingInner × Disk))
  unfolding back_up reopen
  rotate answers self disk =
      let content = if answers.read then disk.log else [] in
      let rotated = reopen answers self (back_up answers self.file_name content disk) disk in
      let flushed =
        if answers.flushed then rotated else (failed, (record self { open_file = false }, disk)) in
      if self.open_file then ret flushed else panic

  append : Answers → List ℕ → RotatingInner → Disk → Option ℕ → Io ℕ × (RotatingInner × Disk)
  append answers buf self disk none = (failed, (self, disk))
  append answers buf self disk (some n) = (
    done n,
    (
      record self { bytes_written = self.bytes_written + n },
      record disk { log = disk.log ++ take n buf },
    ),
  )

  -- `inner.file.as_mut().unwrap().write(buf)?`, after the rotation where there was one.
  unfoldable pub append_to :
      Answers
      → List ℕ
      → Io (Unit {0}) × (RotatingInner × Disk)
      → Outcome (Io ℕ × (RotatingInner × Disk))
  unfolding append
  append_to answers buf (failed, (self, disk)) = ret (failed, (self, disk))
  append_to answers buf (done _, (self, disk)) =
      if self.open_file then ret (append answers buf self disk answers.accepted) else panic

  unfoldable pub write :
      Answers → List ℕ → RotatingInner → Disk → Outcome (Io ℕ × (RotatingInner × Disk))
  unfolding rotate append_to
  write answers buf self disk =
      let rotating =
        ltb self.max_size (self.bytes_written + length buf) && ltb 0 self.bytes_written in
      let rotated = do r ← rotate answers self disk; append_to answers buf r
      in if rotating then rotated else append_to answers buf (done tt, (self, disk))

  -- `flush`; `ok` is what the file answers.
  unfoldable pub flush : Bool → RotatingInner → Io (Unit {0})
  flush ok self = if self.open_file then (if ok then done tt else failed) else done tt
