-- ===== src/Command/Steps.antt =====
-- What follows from the steps that the commands share.
use bittorrent_client.Base.{
  Leads, List, Option, Result, arith, err, none, ok, refl, some, subst, ℕ, ◌∙◌, ◌≡◌,
}
use bittorrent_client.Disk.{read_file_on, Disk, DiskError, Fault, Host, call, looked}
use bittorrent_client.Disk.Calls.{Outcome, call-Outcome}
use bittorrent_client.Metainfo.{TorrentFile}
use bittorrent_client.Metainfo.Open.{OpenError, open_torrent}
use bittorrent_client.Command.{
  CommandError, Flags, Machine, give, input_of, lift, open_input, refuse, torrent_of,
}

pub lift-Leads :
    {A : Type 0} (D : A → Host → Type 0) (F : Host → Type 0) (f : DiskError → CommandError)
    (r : Result DiskError A × Host)
    → Outcome D F r
    → Leads D (λ _ h. F h) (lift f r)
unfolding lift
lift-Leads D F f (ok a, h) k = k
lift-Leads D F f (err e, h) k = k

pub refuse-Leads :
    (D : Unit {0} → Host → Type 0) (F : Host → Type 0) (o : Option CommandError) (h : Host)
    → (o ≡ none → D tt h)
    → F h
    → Leads D (λ _ k. F k) (refuse o h)
unfolding refuse
refuse-Leads D F none h d f = d refl
refuse-Leads D F (some e) h d f = f

pub give-Leads :
    {A : Type 0} (D : A → Host → Type 0) (F : Host → Type 0) (r : Result CommandError A) (h : Host)
    → ((a : A) → r ≡ ok a → D a h)
    → F h
    → Leads D (λ _ k. F k) (give r h)
unfolding give
give-Leads D F (ok a) h d f = d a refl
give-Leads D F (err e) h d f = f

-- The disk is `d`.
abbrev pub Still : Disk → Host → Type 0
Still d h = h.disk ≡ d

looked-ok :
    {A : Type 0} (d e : Disk) (r : Result DiskError A) (a : A)
    → looked d r ≡ ok (a, e)
    → (e ≡ d) × (r ≡ ok a)
looked-ok d e (ok b) a h = (ground arith, ground arith)
looked-ok d e (err x) a h = absurd (ground arith)

-- A call that only looks at the disk.
pub look-Outcome :
    {A : Type 0} (fault : ℕ → Option Fault) (g : Disk → Result DiskError A) (d : Disk) (h : Host)
    → Still d h
    → Outcome
        (λ a k. Still d k × (g d ≡ ok a))
        (λ k. Still d k)
        (call fault (λ e. looked e (g e)) h)
look-Outcome fault g d h s =
    call-Outcome fault (λ a k. Still d k × (g d ≡ ok a)) (Still d) (λ e. looked e (g e)) h
      (λ a e q.
        let seen = looked-ok h.disk e (g h.disk) a q in
        (seen.0 ∙ s, subst (λ x. g x ≡ ok a) s seen.1))
      s

pub look-Leads :
    {A : Type 0} (fault : ℕ → Option Fault) (g : Disk → Result DiskError A)
    (f : DiskError → CommandError) (d : Disk) (h : Host)
    → Still d h
    → Leads
        (λ a k. Still d k × (g d ≡ ok a))
        (λ _ k. Still d k)
        (lift f (call fault (λ e. looked e (g e)) h))
look-Leads fault g f d h s =
    lift-Leads (λ a k. Still d k × (g d ≡ ok a)) (Still d) f _ (look-Outcome fault g d h s)

-- The torrent that the input file holds.
pub record Opens (m : Machine) (f : Flags) (d : Disk) (t : TorrentFile) : Type 0 where
  pub bytes : List ℕ
  pub is_file : read_file_on d (input_of f) ≡ ok bytes
  pub opened : open_torrent m.bencode m.sha1 (ok bytes) ≡ ok t

torrent_of-ok :
    (m : Machine) (r : Result OpenError TorrentFile) (t : TorrentFile)
    → torrent_of m r ≡ ok t
    → r ≡ ok t
unfolding torrent_of
torrent_of-ok m (ok u) t e = ground arith
torrent_of-ok m (err x) t e = absurd (ground arith)

pub open_input-Leads :
    (m : Machine) (f : Flags) (d : Disk) (r : Result DiskError (List ℕ) × Host)
    → Outcome (λ bytes k. Still d k × (read_file_on d (input_of f) ≡ ok bytes)) (λ k. Still d k) r
    → Leads (λ t k. Still d k × Opens m f d t) (λ _ k. Still d k) (open_input m r)
unfolding open_input open_torrent torrent_of give
open_input-Leads m f d (err e, k) o = o
open_input-Leads m f d (ok bytes, k) o =
    give-Leads (λ t h. Still d h × Opens m f d t) (Still d)
      (torrent_of m (open_torrent m.bencode m.sha1 (ok bytes))) k
      (λ t e. (o.0, record { bytes = bytes; is_file = o.1; opened = torrent_of-ok m _ t e })) o.0
