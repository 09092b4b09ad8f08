-- ===== src/Disk/Calls.antt =====
-- The outcomes of a call of the file system.
use bittorrent_client.Base.{Option, Result, err, none, ok, refl, some, ℕ, ◌≡◌}
use bittorrent_client.Disk.{Disk, DiskError, Fault, Host, call, counted, tried, settled}

abbrev pub on_disk : Host → Disk → Host
on_disk h d = record (counted h) { disk = d }

-- What a call leaves: on success the result of the operation on the disk, and on an error the
-- disk as it was.
abbrev pub Outcome :
    {A : Type 0} → (A → Host → Type 0) → (Host → Type 0) → Result DiskError A × Host → Type 0
Outcome D F (ok a, h) = D a h
Outcome D F (err e, h) = F h

module _ (fault : ℕ → Option Fault) where
  settled-Outcome :
      {A : Type 0} (D : A → Host → Type 0) (F : Host → Type 0) (h : Host)
      (r : Result DiskError (A × Disk))
      → ((a : A) (d : Disk) → r ≡ ok (a, d) → D a (record h { disk = d }))
      → F h
      → Outcome D F (settled h r)
  unfolding settled
  settled-Outcome D F h (ok (a, d)) k f = k a d refl
  settled-Outcome D F h (err e) k f = f

  tried-Outcome :
      {A : Type 0} (D : A → Host → Type 0) (F : Host → Type 0)
      (op : Disk → Result DiskError (A × Disk)) (o : Option Fault) (h : Host)
      → ((a : A) (d : Disk) → op h.disk ≡ ok (a, d) → D a (on_disk h d))
      → F (counted h)
      → Outcome D F (tried fault o op h)
  unfolding tried
  tried-Outcome D F op none h k f = settled-Outcome D F (counted h) (op h.disk) k f
  tried-Outcome D F op (some e) h k f = f

  pub call-Outcome :
      {A : Type 0} (D : A → Host → Type 0) (F : Host → Type 0)
      (op : Disk → Result DiskError (A × Disk)) (h : Host)
      → ((a : A) (d : Disk) → op h.disk ≡ ok (a, d) → D a (on_disk h d))
      → F (counted h)
      → Outcome D F (call fault op h)
  unfolding call
  call-Outcome D F op h k f = tried-Outcome D F op (fault h.calls) h k f

  settled-Lucky :
      {A : Type 0} (D : Host → Type 0) (h : Host) (r : Result DiskError (A × Disk))
      → ((a : A) (d : Disk) → r ≡ ok (a, d) → D (record h { disk = d }))
      → ((e : DiskError) → r ≡ err e → D h)
      → D (settled h r).1
  unfolding settled
  settled-Lucky D h (ok (a, d)) k f = k a d refl
  settled-Lucky D h (err e) k f = f e refl

  -- A call that does not fail on its own.
  pub call-Lucky :
      {A : Type 0} (D : Host → Type 0) (op : Disk → Result DiskError (A × Disk)) (h : Host)
      → fault h.calls ≡ none
      → ((a : A) (d : Disk) → op h.disk ≡ ok (a, d) → D (on_disk h d))
      → ((e : DiskError) → op h.disk ≡ err e → D (counted h))
      → D (call fault op h).1
  unfolding call tried
  call-Lucky D op h lucky k f = rw lucky (settled-Lucky D (counted h) (op h.disk) k f)

  -- A call that fails on its own does nothing but count.
  pub call-failed :
      {A : Type 0} (op : Disk → Result DiskError (A × Disk)) (h : Host) (f : Fault)
      → fault h.calls ≡ some f
      → (call fault op h).1 ≡ counted h
  unfolding call tried
  call-failed op h f failed = rw failed refl
