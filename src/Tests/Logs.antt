-- ===== src/Tests/Logs.antt =====
-- A log file with a limit of three bytes: two writes, and one whose rotation fails.
use tokendog.Base.{ℕ, ◌≡◌, refl, List, [], ◌∷◌, none, true, false, arith, ret, panic}
use tokendog.Base.Map.{lookup, insert}
use tokendog.Config.Logging.{
  failed, Disk, Answers, RotatingInner, make_backup_path, back_up, reopen, rotate, append_to, write,
}
use tokendog.Config.Logging.Recovery.{IsConsistent, recovered, well}
use tokendog.Config.Logging.Runs.{
  Entry, AreFree, backups_of, write_all, recovered-write_all, write_after_failed_rotation,
}

-- A packer that puts a byte in front.
abbrev pack : List ℕ → List ℕ
pack bytes = 31 ∷ bytes

abbrev unpack : List ℕ → List ℕ
unpack [] = []
unpack (b ∷ bytes) = bytes

abbrev writer : RotatingInner
writer = record { open_file = true; bytes_written = 2; max_size = 3; file_name = none }

abbrev disk : Disk
disk = record { log = 1 ∷ 2 ∷ []; backups = [] }

abbrev entries : List Entry
entries = ("20260101_000000", (2, 7 ∷ 8 ∷ [])) ∷ ("20260101_000000", (1, 9 ∷ [])) ∷ []

writer-IsConsistent : IsConsistent writer disk
writer-IsConsistent = record { opened = refl; counted = refl }

-- Only the first write passes the limit, so it alone needs a name for a backup.
entries_free : AreFree disk (backups_of none 3 2 entries)
unfolding make_backup_path lookup
entries_free = (refl, tt, tt)

recovered-write_all_example :
    (self' : RotatingInner) × (disk' : Disk) × (write_all pack entries writer disk
      ≡ ret (self', disk'))
    × (recovered unpack disk' ≡ 1 ∷ 2 ∷ 7 ∷ 8 ∷ 9 ∷ [])
recovered-write_all_example =
    recovered-write_all pack unpack (λ bytes. refl) entries writer disk writer-IsConsistent
      (omega arith, (omega arith, tt)) entries_free

-- The file cannot be opened again.
abbrev broken : Answers
broken = record (well "20260101_000000" 2) { reopened = false }

abbrev left : Disk
left = record disk { backups = ("router.log.20260101_000000.gz", 31 ∷ 1 ∷ 2 ∷ []) ∷ [] }

rotation_fails :
    write pack broken (7 ∷ 8 ∷ []) writer disk
    ≡ ret (failed, (record writer { open_file = false }, left))
unfolding write rotate append_to back_up reopen insert make_backup_path
rotation_fails = refl

write_after_failed_rotation_example :
    write pack (well "20260101_000001" 1) (9 ∷ []) (record writer { open_file = false }) left
    ≡ panic
write_after_failed_rotation_example =
    write_after_failed_rotation pack broken (well "20260101_000001" 1) 2 (7 ∷ 8 ∷ []) (9 ∷ [])
      writer (record writer { open_file = false }) disk left refl rotation_fails
