-- ===== src/Disk.antt =====
-- The file system as cmd/bt/main.go uses it, by Go's `os`: names, symbolic links and hard links,
-- and one file open for writing. A name stands for a whole path. No other process changes the disk.
pub mod Writes
pub mod Entries
pub mod Calls
use bittorrent_client.Base.{
  Bool, List, Option, Result, [], bytes_eq, drop, err, false, if◌then◌else◌, leb, length, none, ok,
  replicate, some, suc, take, zero, ℕ, ◌++◌, ◌+◌, ◌-◌, ◌==◌, ◌∷◌,
}

abbrev pub FileName : Type 0
FileName = List ℕ

-- What a name stands for. A regular file and a directory have the number of an inode.
pub data Entry : Type 0 where
  directory regular : ℕ → Entry
  symlink : FileName → Entry

-- `next` is the number of the next inode.
pub record Disk : Type 0 where
  pub entry : FileName → Option Entry
  pub contents : ℕ → List ℕ
  pub next : ℕ

-- errors.Is tells these from each other; `device` is any other error.
pub data DiskError : Type 0 where
  not_exist exist short_file : DiskError
  device : ℕ → DiskError

-- A call that fails on its own: its error, and how many bytes a write has written before.
pub record Fault : Type 0 where
  pub code : ℕ
  pub progress : ℕ

-- The disk and the number of calls so far.
pub record Host : Type 0 where
  pub disk : Disk
  pub calls : ℕ

abbrev pub Call : Type 0 → Type 0
Call A = Host → Result DiskError A × Host

abbrev pub assign {ℓ} : {A : Type ℓ} → (FileName → A) → FileName → A → FileName → A
assign f name a = λ k. if bytes_eq k name then a else f k

-- os.Lstat, os.Stat
unfoldable pub lstat_on : Disk → FileName → Result DiskError Entry
lstat_on d name = elim (d.entry name) [ none ↦ err not_exist | some e ↦ ok e ]

-- ELOOP
abbrev pub too_many_links : ℕ
too_many_links = 40

follow : ℕ → Disk → FileName → Result DiskError Entry
follow zero d name = err (device too_many_links)
follow (suc fuel) d name = elim (d.entry name) [
  | none ↦ err not_exist
  | some (symlink target) ↦ follow fuel d target
  | some (directory i) ↦ ok (directory i)
  | some (regular i) ↦ ok (regular i)
]

-- os.Stat
unfoldable pub stat_on : Disk → FileName → Result DiskError Entry
unfolding follow
stat_on d name = follow too_many_links d name

-- os.ReadFile; reading a directory is EISDIR.
unfoldable pub read_file_on : Disk → FileName → Result DiskError (List ℕ)
read_file_on d name = elim (stat_on d name) [
  | err e ↦ err e
  | ok (regular i) ↦ ok (d.contents i)
  | ok _ ↦ err (device 21)
]

-- os.SameFile, on what os.Stat returns
unfoldable pub same_file : Entry → Entry → Bool
same_file (directory i) (directory j) = i == j
same_file (regular i) (regular j) = i == j
same_file _ _ = false

-- A file that os.CreateTemp has opened.
pub record File : Type 0 where
  pub name : FileName
  pub inode : ℕ

abbrev created : Disk → FileName → File × Disk
created d name = (
  record { name = name; inode = d.next },
  record {
    entry = assign d.entry name (some (regular d.next));
    contents = λ k. if k == d.next then [] else d.contents k;
    next = suc d.next;
  },
)

-- os.CreateTemp, with the names that it tries.
unfoldable pub create_on : List FileName → Disk → Result DiskError (File × Disk)
create_on [] d = err exist
create_on (name ∷ names) d =
    let again = create_on names d in
    elim (d.entry name) [ none ↦ ok (created d name) | some e ↦ again ]

-- Bytes written at an offset; a gap before them is filled with zeros.
unfoldable pub patch : ℕ → List ℕ → List ℕ → List ℕ
patch offset [] xs = xs
patch offset (b ∷ bs) xs =
    take offset (xs ++ replicate (offset - length xs) 0)
    ++ (b ∷ bs)
    ++ drop (offset + suc (length bs)) xs

unfoldable pub write_on : ℕ → ℕ → List ℕ → Disk → Disk
unfolding patch
write_on inode offset bytes d = record d {
  contents = λ k. if k == inode then patch offset bytes (d.contents k) else d.contents k;
}

-- io.CopyN from the start of a file
unfoldable pub read_on : ℕ → ℕ → Disk → Result DiskError (List ℕ)
read_on inode n d =
    if leb n (length (d.contents inode)) then ok (take n (d.contents inode)) else err short_file

unfoldable pub unlinked : Disk → FileName → Disk
unlinked d name = record d { entry = assign d.entry name none }

-- The entry of `old` under the name `new` too.
unfoldable pub linked : Disk → Entry → FileName → Disk
linked d e new = record d { entry = assign d.entry new (some e) }

-- os.Remove. A directory with files in it is a fault.
unfoldable pub remove_on : FileName → Disk → Result DiskError Disk
unfolding unlinked
remove_on name d = elim (d.entry name) [ none ↦ err not_exist | some e ↦ ok (unlinked d name) ]

-- os.Link refuses a name that is there.
unfoldable pub link_on : FileName → FileName → Disk → Result DiskError Disk
unfolding linked
link_on old new d = elim (d.entry old) [
  | none ↦ err not_exist
  | some e ↦ elim (d.entry new) [ none ↦ ok (linked d e new) | some _ ↦ err exist ]
]

-- os.Rename replaces what `new` was, a symbolic link itself too, but no directory. Two names of one
-- file both stay.
unfoldable pub rename_on : FileName → FileName → Disk → Result DiskError Disk
unfolding linked unlinked
rename_on old new d = elim (d.entry old) [
  | none ↦ err not_exist
  | some e ↦ elim (d.entry new) [
    | none ↦ ok (unlinked (linked d e new) old)
    | some (directory i) ↦ err exist
    | some (regular i) ↦
        if same_file e (regular i) then ok d else ok (unlinked (linked d e new) old)
    | some (symlink target) ↦ ok (unlinked (linked d e new) old)
  ]
]

abbrev pub counted : Host → Host
counted h = record h { calls = suc h.calls }

settled : {A : Type 0} → Host → Result DiskError (A × Disk) → Result DiskError A × Host
settled h (ok (a, d)) = (ok a, record h { disk = d })
settled h (err e) = (err e, h)

abbrev pub looked : {A : Type 0} → Disk → Result DiskError A → Result DiskError (A × Disk)
looked d (ok a) = ok (a, d)
looked d (err e) = err e

abbrev pub changed : Result DiskError Disk → Result DiskError (Unit {0} × Disk)
changed (ok d) = ok (tt, d)
changed (err e) = err e

-- What WriteAt returns, and the disk after it.
pub record WroteAt : Type 0 where
  pub count : ℕ
  pub error : Option ℕ
  pub host : Host

module _ (fault : ℕ → Option Fault) where
  tried :
      {A : Type 0}
      → Option Fault
      → (Disk → Result DiskError (A × Disk))
      → Host
      → Result DiskError A × Host
  unfolding settled
  tried none op h = settled (counted h) (op h.disk)
  tried (some f) op h = (err (device f.code), counted h)

  -- A call fails on its own, or does what it does on the disk.
  unfoldable pub call : {A : Type 0} → (Disk → Result DiskError (A × Disk)) → Call A
  unfolding tried
  call op h = tried (fault h.calls) op h

  abbrev pub lstat : FileName → Call Entry
  lstat name = call (λ d. looked d (lstat_on d name))

  abbrev pub stat : FileName → Call Entry
  stat name = call (λ d. looked d (stat_on d name))

  abbrev pub read_file : FileName → Call (List ℕ)
  read_file name = call (λ d. looked d (read_file_on d name))

  abbrev pub create_temp : List FileName → Call File
  create_temp names = call (create_on names)

  abbrev pub seek_start : Call (Unit {0})
  seek_start = call (λ d. ok (tt, d))

  abbrev pub read_start : File → ℕ → Call (List ℕ)
  read_start f n = call (λ d. looked d (read_on f.inode n d))

  abbrev pub close_file : Call (Unit {0})
  close_file = call (λ d. ok (tt, d))

  abbrev pub remove : FileName → Call (Unit {0})
  remove name = call (λ d. changed (remove_on name d))

  abbrev pub link : FileName → FileName → Call (Unit {0})
  link old new = call (λ d. changed (link_on old new d))

  abbrev pub rename : FileName → FileName → Call (Unit {0})
  rename old new = call (λ d. changed (rename_on old new d))

  wrote : Option Fault → ℕ → ℕ → List ℕ → Host → WroteAt
  wrote none inode offset bytes h = record {
    count = length bytes;
    error = none;
    host = record (counted h) { disk = write_on inode offset bytes h.disk };
  }
  wrote (some f) inode offset bytes h = record {
    count = length (take f.progress bytes);
    error = some f.code;
    host = record (counted h) { disk = write_on inode offset (take f.progress bytes) h.disk };
  }

  -- WriteAt; one that fails may have written a part.
  unfoldable pub write_at : File → ℕ → List ℕ → Host → WroteAt
  unfolding wrote
  write_at f offset bytes h = wrote (fault h.calls) f.inode offset bytes h
