-- ===== src/Command/Download/Placed.antt =====
-- The states of the disk around the publication of a verified file.
use bittorrent_client.Base.{List, bytes_eq, false, inl, inr, length, some, ℕ, ◌∙◌, ◌≡◌, ◌≢◌, ◌⊎◌}
use bittorrent_client.Disk.{Disk, File, FileName, linked, regular, unlinked}
use bittorrent_client.Disk.Entries.{linked-entry, linked-others, unlinked-others}
use bittorrent_client.Command.{Machine}

-- The output stands for a regular file with this many bytes and this digest.
pub record Placed (sha1 : List ℕ → List ℕ) (output : FileName) (n : ℕ) (hash : List ℕ) (e : Disk)
    : Type 0 where
  pub inode : ℕ
  pub is_regular : e.entry output ≡ some (regular inode)
  pub size : length (e.contents inode) ≡ n
  pub digest : sha1 (e.contents inode) ≡ hash

-- Apart from the output and the temporary file, `e` is as `d`.
pub record Loose (f : File) (output : FileName) (d e : Disk) : Type 0 where
  pub others :
      (name : FileName)
      → bytes_eq name output ≡ false
      → bytes_eq name f.name ≡ false
      → e.entry name ≡ d.entry name
  pub contents_same : (i : ℕ) → i ≢ f.inode → e.contents i ≡ d.contents i

-- Removing the temporary name keeps that.
pub unlinked-Loose :
    (f : File) (output : FileName) (d e : Disk)
    → Loose f output d e
    → Loose f output d (unlinked e f.name)
unfolding unlinked
unlinked-Loose f output d e l = record {
  others = λ name x y. unlinked-others e f.name name y ∙ l.others name x y;
  contents_same = l.contents_same;
}

module _ (m : Machine) (f : File) (output : FileName) (n : ℕ) (hash : List ℕ) (d : Disk)
    (apart : bytes_eq output f.name ≡ false) where
  open m use {fault, sha1}

  abbrev pub Good : Disk → Type 0
  Good e = Loose f output d e × Placed sha1 output n hash e

  abbrev pub Bad : Disk → Type 0
  Bad e = Loose f output d e × ((e.entry output ≡ d.entry output) ⊎ Placed sha1 output n hash e)

  pub Good-Bad : (e : Disk) → Good e → Bad e
  Good-Bad e g = (g.0, inr g.1)

  unlinked-Placed :
      (e : Disk) → Placed sha1 output n hash e → Placed sha1 output n hash (unlinked e f.name)
  unfolding unlinked
  unlinked-Placed e p = record {
    inode = p.inode;
    is_regular = unlinked-others e f.name output apart ∙ p.is_regular;
    size = p.size;
    digest = p.digest;
  }

  pub unlinked-Good : (e : Disk) → Good e → Good (unlinked e f.name)
  unlinked-Good e g = (unlinked-Loose f output d e g.0, unlinked-Placed e g.1)

  pub unlinked-Bad : (e : Disk) → Bad e → Bad (unlinked e f.name)
  unlinked-Bad e (l, inl same) =
      (unlinked-Loose f output d e l, inl (unlinked-others e f.name output apart ∙ same))
  unlinked-Bad e (l, inr p) = (unlinked-Loose f output d e l, inr (unlinked-Placed e p))

  -- The verified file under its new name.
  linked-Good :
      (e : Disk)
      → Loose f output d e
      → length (e.contents f.inode) ≡ n
      → sha1 (e.contents f.inode) ≡ hash
      → Good (linked e (regular f.inode) output)
  unfolding linked
  linked-Good e l size digest = (
    record {
      others = λ name x y. linked-others e (regular f.inode) output name x ∙ l.others name x y;
      contents_same = l.contents_same;
    },
    record {
      inode = f.inode;
      is_regular = linked-entry e (regular f.inode) output;
      size = size;
      digest = digest;
    },
  )

  -- The file is verified and has not been published.
  pub record Ready (e : Disk) : Type 0 where
    pub mine : e.entry f.name ≡ some (regular f.inode)
    pub same : e.entry output ≡ d.entry output
    pub other : e.entry output ≢ some (regular f.inode)
    pub loose : Loose f output d e
    pub size : length (e.contents f.inode) ≡ n
    pub digest : sha1 (e.contents f.inode) ≡ hash

  pub Ready-Good : (e : Disk) → Ready e → Good (linked e (regular f.inode) output)
  Ready-Good e r = linked-Good e r.loose r.size r.digest
