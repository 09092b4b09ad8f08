-- ===== src/Disk/Writes.antt =====
-- Writes that are laid end to end.
use bittorrent_client.Base.{
  List, Option, [], append-nil, ap₂, arith, drop_all, length, none, refl, replicate, some, suc, sym,
  take, take-append, ℕ, ◌++◌, ◌+◌, ◌-◌, ◌∙◌, ◌∷◌, ◌≡◌,
}
use bittorrent_client.Disk.{
  Disk, Fault, File, Host, WroteAt, counted, patch, write_at, write_on, wrote,
}

-- A write at the end of a file appends to it.
pub patch-append : (bytes xs : List ℕ) → patch (length xs) bytes xs ≡ xs ++ bytes
unfolding patch
patch-append [] xs = sym (append-nil xs)
patch-append (b ∷ bs) xs =
    ap₂ (λ ys zs. ys ++ (b ∷ bs) ++ zs)
      (take-append (length xs) xs (replicate (length xs - length xs) 0) refl)
      (drop_all (length xs + suc (length bs)) xs (omega arith))
    ∙ append-nil (xs ++ (b ∷ bs))

abbrev pub wrote_disk : Host → Disk → Host
wrote_disk h d = record (counted h) { disk = d }

module _ (fault : ℕ → Option Fault) where
  -- A write is whole, or a part was written before an error.
  pub data Wrote (f : File) (offset : ℕ) (bytes : List ℕ) (h : Host) : WroteAt → Type 0 where
    whole : Wrote f offset bytes h (record {
      count = length bytes;
      error = none;
      host = wrote_disk h (write_on f.inode offset bytes h.disk);
    })
    cut :
        (n k e : ℕ)
        → Wrote f offset bytes h (record {
          count = k;
          error = some e;
          host = wrote_disk h (write_on f.inode offset (take n bytes) h.disk);
        })

  wrote-Wrote :
      (o : Option Fault) (f : File) (offset : ℕ) (bytes : List ℕ) (h : Host)
      → Wrote f offset bytes h (wrote fault o f.inode offset bytes h)
  unfolding wrote
  wrote-Wrote none f offset bytes h = whole
  wrote-Wrote (some x) f offset bytes h = cut x.progress (length (take x.progress bytes)) x.code

  pub write_at-Wrote :
      (f : File) (offset : ℕ) (bytes : List ℕ) (h : Host)
      → Wrote f offset bytes h (write_at fault f offset bytes h)
  unfolding write_at
  write_at-Wrote f offset bytes h = wrote-Wrote (fault h.calls) f offset bytes h
