-- ===== src/Command/Download/Stored.antt =====
-- The callback of downloadPiece: what it changes on the disk, and what the file holds when
-- FetchPiece has ended well.
use bittorrent_client.Base.{
  List, Option, ap, arith, false, length, length-append, none, subst, sym, take, true, ℕ, ◌++◌, ◌+◌,
  ◌==◌, ◌∙◌, ◌≡◌, ◌≢◌,
}
use bittorrent_client.Disk.{Disk, File, Host, WroteAt, write_on, write_at}
use bittorrent_client.Disk.Writes.{Wrote, cut, patch-append, whole, write_at-Wrote, wrote_disk}
use bittorrent_client.Command.{Machine}
use bittorrent_client.Command.Download.{caller, store, stored}
use bittorrent_client.Peer.Fetch.{PieceSpec}
use bittorrent_client.Peer.Fetch.Tiling.{Delivers}

-- Only the contents of the file may differ.
pub record Aside (f : File) (d e : Disk) : Type 0 where
  pub entry_same : (name : List ℕ) → e.entry name ≡ d.entry name
  pub contents_same : (i : ℕ) → i ≢ f.inode → e.contents i ≡ d.contents i

write_on-Aside :
    (f : File) (d e : Disk) (offset : ℕ) (bytes : List ℕ)
    → Aside f d e
    → Aside f d (write_on f.inode offset bytes e)
unfolding write_on
write_on-Aside f d e offset bytes h = record {
  entry_same = h.entry_same;
  contents_same = λ i apart.
      let test : (i == f.inode) ≡ false = ground arith in rw test (h.contents_same i apart);
}

-- A write at the end appends.
write_on-append :
    (i offset : ℕ) (bytes : List ℕ) (d : Disk)
    → length (d.contents i) ≡ offset
    → (write_on i offset bytes d).contents i ≡ d.contents i ++ bytes
unfolding write_on
write_on-append i offset bytes d h =
    let here : (i == i) ≡ true = ground arith in
    rw (here, sym h) (patch-append bytes (d.contents i))

module _ (m : Machine) where
  open m use {fault}

  -- A block that is taken was written whole.
  stored-done :
      (f : File) (offset : ℕ) (bytes : List ℕ) (h k : Host) (r : WroteAt)
      → Wrote fault f offset bytes h r
      → stored (length bytes) r ≡ (none, k)
      → wrote_disk h (write_on f.inode offset bytes h.disk) ≡ k
  unfolding stored
  stored-done f offset bytes h k r whole e = ap (λ (r : Option ℕ × Host). r.1) e
  stored-done f offset bytes h k r (cut n j x) e = absurd (ground arith)

  stored-Aside :
      (f : File) (d : Disk) (offset : ℕ) (bytes : List ℕ) (h : Host) (r : WroteAt)
      → Aside f d h.disk
      → Wrote fault f offset bytes h r
      → Aside f d (stored (length bytes) r).1.disk
  unfolding stored
  stored-Aside f d offset bytes h r q whole = write_on-Aside f d h.disk offset bytes q
  stored-Aside f d offset bytes h r q (cut n j x) =
      write_on-Aside f d h.disk offset (take n bytes) q

  -- The callback changes nothing but the file.
  pub store-Aside :
      (f : File) (d : Disk) (offset : ℕ) (bytes : List ℕ) (h : Host)
      → Aside f d h.disk
      → Aside f d (store m f offset bytes h).1.disk
  unfolding store
  store-Aside f d offset bytes h q =
      stored-Aside f d offset bytes h (write_at fault f offset bytes h) q
        (write_at-Wrote fault f offset bytes h)

  -- The blocks that FetchPiece delivers fill the file from its end on.
  pub Delivers-size :
      (f : File) (p : PieceSpec) (k : Host) (offset : ℕ) (h : Host)
      → length (h.disk.contents f.inode) ≡ offset
      → Delivers (caller m f) p k offset h
      → length (k.disk.contents f.inode) ≡ p.len
  unfolding store
  Delivers-size f p k offset h e (Delivers.whole at_end same) =
      subst (λ (x : Host). length (x.disk.contents f.inode) ≡ p.len) (sym same) (e ∙ at_end)
  Delivers-size f p k offset h e (Delivers.piece bytes some_bytes size taken later) =
      let next =
        stored-done f offset bytes h _ (write_at fault f offset bytes h)
          (write_at-Wrote fault f offset bytes h) taken in
      Delivers-size f p k (offset + length bytes) _
        (subst (λ (x : Host). length (x.disk.contents f.inode) ≡ offset + length bytes) next
          (ap length (write_on-append f.inode offset bytes h.disk e)
            ∙ length-append (h.disk.contents f.inode) bytes
            ∙ ap (λ n. n + length bytes) e))
        later
