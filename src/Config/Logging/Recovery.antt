-- ===== src/Config/Logging/Recovery.antt =====
-- The rotating writer against the plain log it stands for: the bytes of the backups, oldest first,
-- and those of the file.
use mathlib.Core.List.{append-nil, append_assoc}
use tokendog.Base.{
  ℕ, ◌+◌, ◌≤◌, ◌<◌, max, ◌≡◌, ◌≢◌, refl, sym, ap, ◌∙◌, ◌⊎◌, String, List, [], ◌∷◌, ◌++◌, Option,
  none, some, true, false, ◌&&◌, ret, length, take, length-take, length-append, ltb, arith,
  Bool-cases, inl, inr,
}
use tokendog.Base.Text.{str_eq, eq_iff}
use tokendog.Base.Map.{lookup, insert, lookup-insert}
use tokendog.Config.Logging.{
  done, Disk, Answers, RotatingInner, make_backup_path, is_empty, back_up, reopen, rotate,
  append_to, write,
}

-- The file is open and its length is what the writer counts.
pub record IsConsistent (self : RotatingInner) (disk : Disk) : Type 0 where
  pub opened : self.open_file ≡ true
  pub counted : self.bytes_written ≡ length disk.log

-- Every call succeeds, and the file takes `n` bytes.
abbrev pub well : String → ℕ → Answers
well stamp n = record {
  flushed = true;
  read = true;
  compressed = true;
  backed_up = true;
  reopened = true;
  accepted = some n;
  stamp = stamp;
}

module _ (gunzip : List ℕ → List ℕ) where
  abbrev pub unpacked : List (String × List ℕ) → List ℕ
  unpacked [] = []
  unpacked ((name, packed) ∷ backups) = gunzip packed ++ unpacked backups

  abbrev pub recovered : Disk → List ℕ
  recovered disk = unpacked disk.backups ++ disk.log

  unpacked-insert :
      (name : String) (packed : List ℕ) (backups : List (String × List ℕ))
      → lookup name backups ≡ none
      → unpacked (insert name packed backups) ≡ unpacked backups ++ gunzip packed
  unfolding lookup insert
  unpacked-insert name packed [] h = append-nil (gunzip packed)
  unpacked-insert name packed ((key, old) ∷ backups) h = elim (Bool-cases (str_eq key name)) [
    | inl same ↦ absurd (ground arith)
    | inr other ↦ rw other (
        ap (λ l. gunzip old ++ l) (unpacked-insert name packed backups (rw other at h))
        ∙ sym (append_assoc (gunzip old) (unpacked backups) (gunzip packed)))
  ]

module _ (gzip gunzip : List ℕ → List ℕ)
    (gunzip-gzip : (bytes : List ℕ) → gunzip (gzip bytes) ≡ bytes) (self : RotatingInner)
    (disk : Disk) (c : IsConsistent self disk) where
  -- What a write leaves: the writer open, the log longer by the bytes taken, the file `count` bytes
  -- long, and the backup `name` made, where there is one.
  pub record IsWritten (name : Option String) (count : ℕ) (taken : List ℕ) (len : ℕ)
      (self' : RotatingInner) (disk' : Disk) : Type 0 where
    pub consistent : IsConsistent self' disk'
    pub logged : recovered gunzip disk' ≡ recovered gunzip disk ++ taken
    pub others :
        (key : String) → name ≢ some key → lookup key disk'.backups ≡ lookup key disk.backups
    pub written : self'.bytes_written ≡ count
    pub file : self'.file_name ≡ self.file_name
    pub limit : self'.max_size ≡ self.max_size
    bounded : length disk'.log ≤ max self.max_size len

  module _ (stamp : String) (buf : List ℕ) (n : ℕ) (fits : n ≤ length buf) where
    abbrev pub Writes : Option String → ℕ → Type 0
    Writes name count =
        (self' : RotatingInner) × (disk' : Disk) × (write gzip (well stamp n) buf self disk
          ≡ ret (done n, (self', disk')))
        × IsWritten name count (take n buf) (length buf) self' disk'

    taken_length : length (take n buf) ≡ n
    taken_length = omega (arith, length-take n buf)

    -- If every call succeeds, a write that is within the limit, or to an empty file, returns, and
    -- leaves the log longer by the bytes that the file took, and no backup more.
    pub write_plain :
        (ltb self.max_size (self.bytes_written + length buf) && ltb 0 self.bytes_written) ≡ false
        → Writes none (self.bytes_written + n)
    unfolding write append_to
    write_plain stays = (
      record self { bytes_written = self.bytes_written + n },
      record disk { log = disk.log ++ take n buf },
      rw (stays, c.opened),
      record {
        consistent = record {
          opened = c.opened;
          counted = omega (arith, length-append disk.log (take n buf), taken_length, c.counted);
        };
        logged = sym (append_assoc (unpacked gunzip disk.backups) disk.log (take n buf));
        others = λ key ne. refl;
        written = refl;
        file = refl;
        limit = refl;
        bounded =
            let small : (self.bytes_written + length buf ≤ self.max_size)
                ⊎ (self.bytes_written ≡ 0) =
              ground arith in
            omega (arith, length-append disk.log (take n buf), taken_length, c.counted);
      },
    )

    -- If every call succeeds and no backup has the name of the one that is due, a write over the limit
    -- returns, and leaves the log longer by the bytes that the file took, which are then the file.
    pub write_rotated :
        lookup (make_backup_path self.file_name stamp) disk.backups ≡ none
        → (ltb self.max_size (self.bytes_written + length buf) && ltb 0 self.bytes_written) ≡ true
        → Writes (some (make_backup_path self.file_name stamp)) n
    unfolding write append_to rotate reopen back_up
    write_rotated fresh rotates =
        let over : ltb self.max_size (self.bytes_written + length buf) ≡ true = ground arith in
        let some_bytes : ltb 0 self.bytes_written ≡ true = ground arith in
        let content : is_empty disk.log ≡ false = not_empty disk.log (ground (arith, c.counted)) in
        (
          record self { open_file = true; bytes_written = 0 + n },
          record {
            log = take n buf;
            backups = insert (make_backup_path self.file_name stamp) (gzip disk.log) disk.backups;
          },
          rw (over, some_bytes, c.opened, content),
          record {
            consistent = record { opened = refl; counted = omega (arith, taken_length) };
            logged =
                ap (λ l. l ++ take n buf)
                  (unpacked-insert gunzip (make_backup_path self.file_name stamp) (gzip disk.log)
                      disk.backups fresh
                    ∙ ap (λ l. unpacked gunzip disk.backups ++ l) (gunzip-gzip disk.log));
            others = λ key ne. inserted key (λ e. ne (ap some e));
            written = omega arith;
            file = refl;
            limit = refl;
            bounded = omega (arith, taken_length);
          },
        )
      where
        not_empty : (bytes : List ℕ) → 0 < length bytes → is_empty bytes ≡ false
        not_empty [] h = elim h [ ]
        not_empty (b ∷ bytes) h = refl

        inserted :
            (key : String)
            → make_backup_path self.file_name stamp ≢ key
            → lookup key
                (insert (make_backup_path self.file_name stamp) (gzip disk.log) disk.backups)
              ≡ lookup key disk.backups
        inserted key ne =
            let test : str_eq (make_backup_path self.file_name stamp) key ≡ false =
              ground (arith, eq_iff (make_backup_path self.file_name stamp) key) in
            lookup-insert key (make_backup_path self.file_name stamp) (gzip disk.log) disk.backups
            ∙ rw test
