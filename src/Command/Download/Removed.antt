-- ===== src/Command/Download/Removed.antt =====
-- The removal of the temporary name, by publishing or by the deferred calls.
use bittorrent_client.Base.{Result, arith, err, ok, refl, subst, sym, ◌≡◌}
use bittorrent_client.Disk.{
  Disk, DiskError, File, Host, changed, close_file, remove, remove_on, unlinked,
}
use bittorrent_client.Disk.Calls.{Outcome, call-Outcome}
use bittorrent_client.Disk.Entries.{remove_on-ok}
use bittorrent_client.Command.{Machine}
use bittorrent_client.Command.Download.{clean_up}

pub changed-ok :
    (r : Result DiskError Disk) (a : Unit {0}) (d : Disk) → changed r ≡ ok (a, d) → r ≡ ok d
changed-ok (ok e) a d h = ground arith
changed-ok (err x) a d h = absurd (ground arith)

module _ (m : Machine) (f : File) where
  open m use {fault}

  pub remove-Outcome :
      (D F : Disk → Type 0) (h : Host)
      → ((e : Disk) → D e → D (unlinked e f.name))
      → ((e : Disk) → D e → F e)
      → D h.disk
      → Outcome (λ _ k. D k.disk) (λ k. F k.disk) (remove fault f.name h)
  remove-Outcome D F h keep weaker x =
      call-Outcome fault (λ _ k. D k.disk) (λ k. F k.disk) (λ e. changed (remove_on f.name e)) h
        (λ a e q.
          subst D
            (sym (
              remove_on-ok f.name h.disk e (h.disk.entry f.name) refl
                (changed-ok (remove_on f.name h.disk) a e q)))
            (keep h.disk x))
        (weaker h.disk x)

  left_by :
      (D : Disk → Type 0) (r : Result DiskError (Unit {0}) × Host)
      → Outcome (λ _ k. D k.disk) (λ k. D k.disk) r
      → D r.1.disk
  left_by D (ok a, k) x = x
  left_by D (err e, k) x = x

  -- The deferred calls only remove the temporary name.
  pub clean_up-keeps :
      (D : Disk → Type 0) (h : Host)
      → ((e : Disk) → D e → D (unlinked e f.name))
      → D h.disk
      → D (clean_up m f h).disk
  clean_up-keeps D h keep x = left_by D _ (
      remove-Outcome D D (close_file fault h).1 keep (λ e y. y)
        (left_by D _ (
          call-Outcome fault (λ _ k. D k.disk) (λ k. D k.disk) (λ e. ok (tt, e)) h
            (λ a e q. subst D (ground arith) x) x)))
