-- ===== src/Disk/Entries.antt =====
-- What the operations on names do to the entries of a disk.
use bittorrent_client.Base.{
  ==_iff, All, Bool-cases, List, Option, Option-cases, [], ap, arith, bytes_eq, bytes_eq_self,
  false, inl, inr, none, ok, refl, some, subst, sym, true, ℕ, ◌==◌, ◌∷◌, ◌≡◌, ◌≢◌,
}
use bittorrent_client.Disk.{
  Disk, Entry, File, FileName, create_on, created, link_on, linked, regular, remove_on, rename_on,
  same_file, symlink, directory, unlinked,
}

-- A new file: an unused name and an inode of its own, empty; nothing else is touched.
pub record Created (d : Disk) (f : File) (e : Disk) : Type 0 where
  pub unused : d.entry f.name ≡ none
  pub inode_next : f.inode ≡ d.next
  pub mine : e.entry f.name ≡ some (regular f.inode)
  pub others : (name : FileName) → bytes_eq name f.name ≡ false → e.entry name ≡ d.entry name
  pub blank : e.contents f.inode ≡ []
  pub contents_same : (i : ℕ) → i ≢ f.inode → e.contents i ≡ d.contents i

created-Created :
    (d : Disk) (name : FileName)
    → d.entry name ≡ none
    → Created d (created d name).0 (created d name).1
created-Created d name free =
    let here : (d.next == d.next) ≡ true = ground arith in
    record {
      unused = free;
      inode_next = refl;
      mine = rw (bytes_eq_self name) refl;
      others = λ k apart. rw apart refl;
      blank = rw here refl;
      contents_same = λ i apart. let test : (i == d.next) ≡ false = ground arith in rw test refl;
    }

-- The name is one of those that are tried.
pub create_on-Created :
    (P : FileName → Type 0) (names : List FileName) (d e : Disk) (f : File)
    → All P names
    → create_on names d ≡ ok (f, e)
    → P f.name × Created d f e
unfolding create_on
create_on-Created P [] d e f a h = absurd (ground arith)
create_on-Created P (name ∷ names) d e f a h = elim (Option-cases (d.entry name)) [
  | inl free ↦
      let same : created d name ≡ (f, e) = ground arith in
      subst (λ (x : File × Disk). P x.0.name × Created d x.0 x.1) same
        (a.0, created-Created d name free)
  | inr (x, taken) ↦ create_on-Created P names d e f a.1 (rw (taken, create_on) at h)
]

-- `f` gets a second name, or its only one is replaced.
pub linked-entry : (d : Disk) (x : Entry) (new : FileName) → (linked d x new).entry new ≡ some x
unfolding linked
linked-entry d x new = rw (bytes_eq_self new) refl

pub linked-others :
    (d : Disk) (x : Entry) (new name : FileName)
    → bytes_eq name new ≡ false
    → (linked d x new).entry name ≡ d.entry name
unfolding linked
linked-others d x new name apart = rw apart refl

pub unlinked-entry : (d : Disk) (name : FileName) → (unlinked d name).entry name ≡ none
unfolding unlinked
unlinked-entry d name = rw (bytes_eq_self name) refl

pub unlinked-others :
    (d : Disk) (old name : FileName)
    → bytes_eq name old ≡ false
    → (unlinked d old).entry name ≡ d.entry name
unfolding unlinked
unlinked-others d old name apart = rw apart refl

pub remove_on-ok :
    (name : FileName) (d e : Disk) (o : Option Entry)
    → d.entry name ≡ o
    → remove_on name d ≡ ok e
    → e ≡ unlinked d name
unfolding remove_on
remove_on-ok name d e none q h = absurd (ground arith)
remove_on-ok name d e (some x) q h = ground arith

pub link_on-ok :
    (old new : FileName) (d e : Disk) (x : Entry) (o : Option Entry)
    → d.entry old ≡ some x
    → d.entry new ≡ o
    → link_on old new d ≡ ok e
    → (o ≡ none) × (e ≡ linked d x new)
unfolding link_on
link_on-ok old new d e x none q r h = (refl, ground arith)
link_on-ok old new d e x (some y) q r h = absurd (ground arith)

-- A rename moves the name, unless the new name stands for the file already.
pub rename_on-ok :
    (old new : FileName) (d e : Disk) (i : ℕ) (o : Option Entry)
    → d.entry old ≡ some (regular i)
    → d.entry new ≡ o
    → o ≢ some (regular i)
    → rename_on old new d ≡ ok e
    → e ≡ unlinked (linked d (regular i) new) old
unfolding rename_on same_file
rename_on-ok old new d e i none q r n h = ground arith
rename_on-ok old new d e i (some (directory j)) q r n h = absurd (ground arith)
rename_on-ok old new d e i (some (regular j)) q r n h =
    let test : (i == j) ≡ false = elim (Bool-cases (i == j)) [
      | inl same ↦ absurd (n (ap (λ k. some (regular k)) (sym ((==_iff i j).0 same))))
      | inr apart ↦ apart
    ] in
    ground (arith, test)
rename_on-ok old new d e i (some (symlink target)) q r n h = ground arith
