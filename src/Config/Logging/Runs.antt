-- ===== src/Config/Logging/Runs.antt =====
-- Any number of writes to the rotating writer, and what a failed rotation leads to.
use mathlib.Core.List.{append-nil, append_assoc}
use tokendog.Base.{
  ℕ, ◌+◌, ◌≤◌, ◌≡◌, ◌≢◌, refl, sym, ap, ◌∙◌, String, List, [], ◌∷◌, ◌++◌, Option, none, some, true,
  false, ◌&&◌, Outcome, ret, panic, ◌>>=◌, length, take, ltb, arith, Bool-cases, inl, inr, All, ◌⊎◌,
  Bool, some_eq, if◌then◌else◌, >>=-eq-ret,
}
use tokendog.Base.Map.{lookup}
use tokendog.Config.Logging.{
  Io, done, failed, Disk, Answers, RotatingInner, make_backup_path, back_up, reopen, rotate,
  append_to, write,
}
use tokendog.Config.Logging.Recovery.{IsConsistent, well, recovered, write_plain, write_rotated}

-- A write at a time stamp: the bytes that the file takes and the buffer.
abbrev pub Entry : Type 0
Entry = String × (ℕ × List ℕ)

abbrev pub taken : List Entry → List ℕ
taken [] = []
taken ((stamp, (n, buf)) ∷ entries) = take n buf ++ taken entries

-- A write finds `bytes` in the file: it rotates where it would pass the limit of a file that is not
-- empty.
abbrev pub passes : ℕ → ℕ → List ℕ → Bool
passes limit bytes buf = ltb limit (bytes + length buf) && ltb 0 bytes

-- The names of the backups that the writes make, in order.
abbrev pub backups_of : Option String → ℕ → ℕ → List Entry → List String
backups_of file limit bytes [] = []
backups_of file limit bytes ((stamp, (n, buf)) ∷ entries) =
    let rotated = make_backup_path file stamp ∷ backups_of file limit n entries in
    let kept = backups_of file limit (bytes + n) entries in
    if passes limit bytes buf then rotated else kept

-- The names differ from each other, and no backup has one of them.
abbrev pub AreFree : Disk → List String → Type 0
AreFree disk [] = Unit
AreFree disk (name ∷ names) =
    (lookup name disk.backups ≡ none) × All (λ other. name ≢ other) names × AreFree disk names

AreFree-kept :
    (disk disk' : Disk) (names : List String)
    → All (λ (name : String). lookup name disk'.backups ≡ lookup name disk.backups) names
    → AreFree disk names
    → AreFree disk' names
AreFree-kept disk disk' [] same free = tt
AreFree-kept disk disk' (name ∷ names) same (missing, apart, free) =
    (same.0 ∙ missing, apart, AreFree-kept disk disk' names same.1 free)

All-map : {A : Type 0} {P Q : A → Type 0} → ((a : A) → P a → Q a) → (l : List A) → All P l → All Q l
All-map f [] h = tt
All-map f (x ∷ l) h = (f x h.0, All-map f l h.1)

All-each : {A : Type 0} {P : A → Type 0} → ((a : A) → P a) → (l : List A) → All P l
All-each f [] = tt
All-each f (x ∷ l) = (f x, All-each f l)

module _ (gzip : List ℕ → List ℕ) where
  -- One write after the other; the logger ignores the outcome of each.
  abbrev pub write_all : List Entry → RotatingInner → Disk → Outcome (RotatingInner × Disk)
  write_all [] self disk = ret (self, disk)
  write_all ((stamp, (n, buf)) ∷ entries) self disk =
      write gzip (well stamp n) buf self disk >>= λ r. write_all entries r.1.0 r.1.1

  module _ (gunzip : List ℕ → List ℕ)
      (inverse : (bytes : List ℕ) → gunzip (gzip bytes) ≡ bytes) where
    -- The writes return, and the log is longer by what the file took of them.
    abbrev IsLogged : List Entry → RotatingInner → Disk → Type 0
    IsLogged entries self disk =
        (self' : RotatingInner) × (disk' : Disk) × (write_all entries self disk
          ≡ ret (self', disk'))
        × (recovered gunzip disk' ≡ recovered gunzip disk ++ taken entries)

    -- One write before the others.
    IsLogged-first :
        (stamp : String) (n : ℕ) (buf : List ℕ) (entries : List Entry) (self self1 : RotatingInner)
        (disk disk1 : Disk)
        → write gzip (well stamp n) buf self disk ≡ ret (done n, (self1, disk1))
        → recovered gunzip disk1 ≡ recovered gunzip disk ++ take n buf
        → IsLogged entries self1 disk1
        → IsLogged ((stamp, (n, buf)) ∷ entries) self disk
    IsLogged-first stamp n buf entries self self1 disk disk1 run logged (self2, disk2, runs, rest) =
        (
          self2,
          disk2,
          rw run runs,
          rest
              ∙ (ap (λ l. l ++ taken entries) logged
                  ∙ append_assoc (recovered gunzip disk) (take n buf) (taken entries)),
        )

    module _ (stamp : String) (n : ℕ) (buf : List ℕ) (entries : List Entry) (self : RotatingInner)
        (disk : Disk) (c : IsConsistent self disk) (fits : n ≤ length buf)
        (later : (self1 : RotatingInner) (disk1 : Disk)
          → IsConsistent self1 disk1
          → AreFree disk1 (backups_of self1.file_name self1.max_size self1.bytes_written entries)
          → IsLogged entries self1 disk1) where
      first_rotated :
          passes self.max_size self.bytes_written buf ≡ true
          → AreFree disk (
              make_backup_path self.file_name stamp
              ∷ backups_of self.file_name self.max_size n entries)
          → IsLogged ((stamp, (n, buf)) ∷ entries) self disk
      first_rotated rotates (missing, apart, free') =
          let (self1, disk1, run, w) =
            write_rotated gzip gunzip inverse self disk c stamp buf n fits missing rotates in
          let names = backups_of self.file_name self.max_size n entries in
          let kept =
            AreFree-kept disk disk1 names
              (All-map (λ name ne. w.others name (λ e. ne (some_eq e))) names apart) free' in
          IsLogged-first stamp n buf entries self self1 disk disk1 run w.logged
            (later self1 disk1 w.consistent (rw (w.file, w.limit, w.written) kept))

      first_plain :
          passes self.max_size self.bytes_written buf ≡ false
          → AreFree disk (backups_of self.file_name self.max_size (self.bytes_written + n) entries)
          → IsLogged ((stamp, (n, buf)) ∷ entries) self disk
      first_plain stays free' =
          let (self1, disk1, run, w) =
            write_plain gzip gunzip inverse self disk c stamp buf n fits stays in
          let names = backups_of self.file_name self.max_size (self.bytes_written + n) entries in
          let kept =
            AreFree-kept disk disk1 names (All-each (λ name. w.others name (λ e. cc)) names)
              free' in
          IsLogged-first stamp n buf entries self self1 disk disk1 run w.logged
            (later self1 disk1 w.consistent (rw (w.file, w.limit, w.written) kept))

    -- Where unpacking undoes packing, no byte of the log is lost or reordered: after any writes whose
    -- calls succeed, if the backups that they make have names that differ from each other and from
    -- those of the backups that are there, the backups and the file hold the log that was there,
    -- followed by the bytes that the file took, write by write.
    pub recovered-write_all :
        (entries : List Entry) (self : RotatingInner) (disk : Disk)
        → IsConsistent self disk
        → All (λ (e : Entry). e.1.0 ≤ length e.1.1) entries
        → AreFree disk (backups_of self.file_name self.max_size self.bytes_written entries)
        → (self' : RotatingInner) × (disk' : Disk) × (write_all entries self disk
            ≡ ret (self', disk'))
          × (recovered gunzip disk' ≡ recovered gunzip disk ++ taken entries)
    recovered-write_all [] self disk c fits free =
        (self, disk, refl, sym (append-nil (recovered gunzip disk)))
    recovered-write_all ((stamp, (n, buf)) ∷ entries) self disk c fits free =
        elim (Bool-cases (passes self.max_size self.bytes_written buf)) [
          | inl rotates ↦
              first_rotated stamp n buf entries self disk c fits.0
                (λ self1 disk1 c1 free1. recovered-write_all entries self1 disk1 c1 fits.1 free1)
                rotates (rw rotates at free)
          | inr stays ↦
              first_plain stamp n buf entries self disk c fits.0
                (λ self1 disk1 c1 free1. recovered-write_all entries self1 disk1 c1 fits.1 free1)
                stays (rw stays at free)
        ]

  closed_panics :
      (answers : Answers) (buf : List ℕ) (self : RotatingInner) (disk : Disk)
      → self.open_file ≡ false
      → write gzip answers buf self disk ≡ panic
  unfolding write rotate append_to
  closed_panics answers buf self disk closed =
      elim (Bool-cases
        (ltb self.max_size (self.bytes_written + length buf) && ltb 0 self.bytes_written)) [
          | inl over ↦ rw (over, closed)
          | inr under ↦ rw (under, closed)
        ]

  append_failed :
      (answers : Answers) (n : ℕ) (buf : List ℕ) (r : Io (Unit {0}) × (RotatingInner × Disk))
      (self' : RotatingInner) (disk' : Disk)
      → answers.accepted ≡ some n
      → append_to gzip answers buf r ≡ ret (failed, (self', disk'))
      → r ≡ (failed, (self', disk'))
  unfolding append_to
  append_failed answers n buf (failed, (s, d)) self' disk' ok e = cc
  append_failed answers n buf (done t, (s, d)) self' disk' ok e = ground arith

  rotate_failed :
      (answers : Answers) (self self' : RotatingInner) (disk disk' : Disk)
      → rotate gzip answers self disk ≡ ret (failed, (self', disk'))
      → self'.open_file ≡ false
  unfolding rotate reopen back_up
  rotate_failed answers self self' disk disk' e = ground arith

  -- If a write fails though its file would take the bytes, so in its rotation, then every later
  -- write panics.
  pub write_after_failed_rotation :
      (answers later : Answers) (n : ℕ) (buf next : List ℕ) (self self' : RotatingInner)
      (disk disk' : Disk)
      → answers.accepted ≡ some n
      → write gzip answers buf self disk ≡ ret (failed, (self', disk'))
      → write gzip later next self' disk' ≡ panic
  unfolding write append_to
  write_after_failed_rotation answers later n buf next self self' disk disk' ok e =
      closed_panics later next self' disk' (
        closed (
          Bool-cases
            (ltb self.max_size (self.bytes_written + length buf) && ltb 0 self.bytes_written)))
    where
      closed :
          ((ltb self.max_size (self.bytes_written + length buf) && ltb 0 self.bytes_written) ≡ true)
            ⊎ ((ltb self.max_size (self.bytes_written + length buf) && ltb 0 self.bytes_written)
                ≡ false)
          → self'.open_file ≡ false
      closed (inl over) =
          let (r, rotated, appended) =
            >>=-eq-ret (rotate gzip answers self disk) _ (rw over at e) in
          rotate_failed answers self self' disk disk'
            (rotated ∙ ap ret (append_failed answers n buf r self' disk' ok appended))
      closed (inr under) =
          let bad =
            append_failed answers n buf (done tt, (self, disk)) self' disk' ok (rw under at e) in
          cc
