-- ===== src/Command/Download/Attempt.antt =====
-- One download into the temporary file, from its creation to the deferred calls.
use bittorrent_client.Base.{
  All, Bool-cases, Flow, Leads, Leads-mono, List, [], after, after-Leads, arith, bytes_eq,
  bytes_eq→eq, done, fail, false, get_or, inl, inr, length, ok, refl, some, spent, subst, sym, ℕ,
  ◌<◌, ◌^◌, ◌∙◌, ◌≡◌, ◌≢◌,
}
use bittorrent_client.Disk.{counted, create_on, create_temp, Disk, File, FileName, Host, regular}
use bittorrent_client.Disk.Entries.{create_on-Created, Created}
use bittorrent_client.Metainfo.{TorrentFile}
use bittorrent_client.Disk.Calls.{call-Outcome}
use bittorrent_client.Command.Steps.{lift-Leads}
use bittorrent_client.Command.{lift, not_created, CommandError, Flags, Machine, find_peer}
use bittorrent_client.Command.Steps.{Still}
use bittorrent_client.Command.Download.{deferred, fetch_from, fill, publish, verify}
use bittorrent_client.Command.Download.Stored.{Aside}
use bittorrent_client.Command.Download.Filled.{Filled, fetch_from-Filled, verify-Leads}
use bittorrent_client.Command.Download.Placed.{Bad, Ready}
use bittorrent_client.Command.Download.Publishing.{
  Published, clean_up-Bad, clean_up-Published, publish-Leads,
}
use bittorrent_client.Peer.Fetch.{PieceSpec}

-- The inodes of regular files are below the next one.
abbrev pub IsDisk : Disk → Type 0
IsDisk d = (name : FileName) (i : ℕ) → d.entry name ≡ some (regular i) → i < d.next

module _ (m : Machine) (f : File) (output : FileName) (hash : List ℕ) (d : Disk)
    (apart : bytes_eq output f.name ≡ false) where
  open m use {fault, sha1, temp_names}

  -- Before the file is published.
  working-Bad : (n : ℕ) (e x : Disk) → Created d f e → Aside f e x → Bad m f output n hash d apart x
  working-Bad n e x c a = (
    record {
      others = λ name u v. a.entry_same name ∙ c.others name v;
      contents_same = λ i u. a.contents_same i u ∙ c.contents_same i u;
    },
    inl (a.entry_same output ∙ c.others output apart),
  )

  working-Ready :
      (n : ℕ) (e x : Disk)
      → IsDisk d
      → Created d f e
      → Aside f e x
      → length (x.contents f.inode) ≡ n
      → sha1 (x.contents f.inode) ≡ hash
      → Ready m f output n hash d apart x
  working-Ready n e x w c a size digest =
      let same : x.entry output ≡ d.entry output = a.entry_same output ∙ c.others output apart in
      record {
        mine = a.entry_same f.name ∙ c.mine;
        same = same;
        other = λ q. absurd (omega (arith, w output f.inode (sym same ∙ q), c.inode_next));
        loose = (working-Bad n e x c a).0;
        size = size;
        digest = digest;
      }

module _ (m : Machine) (f : Flags) (t : TorrentFile) (d : Disk) (w : IsDisk d) (temp : File)
    (p : PieceSpec) (small : p.len < 2 ^ 32) (apart : bytes_eq f.output temp.name ≡ false) where
  open m use {fault, sha1, temp_names}

  abbrev pub hash : List ℕ
  hash = get_or t.piece_hashes p.index []

  abbrev pub EndsBadly : Host → Type 0
  EndsBadly k = Bad m temp f.output p.len hash d apart k.disk

  abbrev pub EndsWell : Host → Type 0
  EndsWell k = Published m temp f.output p.len hash d apart f.force d k.disk

  fetch_from-Leads :
      (peer_id : List ℕ) (e : Disk) (h : Host)
      → Still e h
      → Created d temp e
      → Leads
          (λ _ k. Filled m temp e p.len k)
          (λ _ k. EndsBadly k)
          (fetch_from m temp t p (find_peer m f t peer_id) h)
  fetch_from-Leads peer_id e h s c =
      Leads-mono (λ _ k. Filled m temp e p.len k) (λ _ k. Filled m temp e p.len k)
        (λ _ k. Aside temp e k.disk) (λ _ k. EndsBadly k) _ (λ a k q. q)
        (λ x k q. working-Bad m temp f.output hash d apart p.len e k.disk c q)
        (fetch_from-Filled m temp e t p (find_peer m f t peer_id) h small
          (subst (λ (x : Disk). x.contents temp.inode ≡ []) (sym s) c.blank)
          (subst (Aside temp e) (sym s)
            (record { entry_same = λ name. refl; contents_same = λ i apart. refl })))

  verified-Leads :
      (e : Disk) (k : Host)
      → Created d temp e
      → Filled m temp e p.len k
      → Leads
          (λ _ j. Still k.disk j × (sha1 (k.disk.contents temp.inode) ≡ hash))
          (λ _ j. EndsBadly j)
          (verify m temp t p k)
  verified-Leads e k c q =
      let D : Unit {0} → Host → Type 0 =
        λ _ j. Still k.disk j × (sha1 (k.disk.contents temp.inode) ≡ hash) in
      Leads-mono D D (λ _ j. Still k.disk j) (λ _ j. EndsBadly j) _ (λ a j r. r)
        (λ x j r.
          subst (Bad m temp f.output p.len hash d apart) (sym r)
            (working-Bad m temp f.output hash d apart p.len e k.disk c q.0))
        (verify-Leads m temp t p k.disk k refl q.1)

  published-Leads :
      (e : Disk) (k j : Host)
      → Created d temp e
      → Filled m temp e p.len k
      → Still k.disk j
      → sha1 (k.disk.contents temp.inode) ≡ hash
      → Leads (λ _ i. EndsWell i) (λ _ i. EndsBadly i) (publish m temp f.force f.output j)
  published-Leads e k j c q s digest =
      let ready : Ready m temp f.output p.len hash d apart k.disk =
        working-Ready m temp f.output hash d apart p.len e k.disk w c q.0 q.1 digest in
      Leads-mono (λ _ i. Published m temp f.output p.len hash d apart f.force k.disk i.disk)
        (λ _ i. EndsWell i) (λ _ i. EndsBadly i) (λ _ i. EndsBadly i) _
        (λ a i g. (g.0, λ unforced. sym ready.same ∙ g.1 unforced)) (λ x i b. b)
        (publish-Leads m temp f.output p.len hash d apart f.force k.disk j s ready)

  pub fill-Leads :
      (peer_id : List ℕ) (e : Disk) (h : Host)
      → Still e h
      → Created d temp e
      → Leads (λ _ k. EndsWell k) (λ _ k. EndsBadly k) (fill m f t peer_id p temp h)
  unfolding fill
  fill-Leads peer_id e h s c =
      after-Leads (λ _ k. Filled m temp e p.len k) (λ _ k. EndsWell k) (λ _ k. EndsBadly k)
        (fetch_from m temp t p (find_peer m f t peer_id) h)
        (λ _ k. after (verify m temp t p k) λ _. publish m temp f.force f.output)
        (fetch_from-Leads peer_id e h s c)
        λ _ k q.
          after-Leads (λ _ j. Still k.disk j × (sha1 (k.disk.contents temp.inode) ≡ hash))
            (λ _ j. EndsWell j) (λ _ j. EndsBadly j) (verify m temp t p k)
            (λ _. publish m temp f.force f.output) (verified-Leads e k c q)
            λ _ j r. published-Leads e k j c q r.0 r.1

  pub deferred-Leads :
      (r : Flow CommandError Host (Unit {0}))
      → Leads (λ _ k. EndsWell k) (λ _ k. EndsBadly k) r
      → Leads (λ _ k. EndsWell k) (λ _ k. EndsBadly k) (deferred m temp r)
  unfolding deferred
  deferred-Leads (done a k) h = clean_up-Published m temp f.output p.len hash d apart f.force d k h
  deferred-Leads (fail x k) h = clean_up-Bad m temp f.output p.len hash d apart k h
  deferred-Leads spent h = h

pub distinct-bytes_eq : (a b : FileName) → a ≢ b → bytes_eq a b ≡ false
distinct-bytes_eq a b h = elim (Bool-cases (bytes_eq a b)) [
  | inl same ↦ absurd (h (bytes_eq→eq a b same))
  | inr apart ↦ apart
]

module _ (m : Machine) (f : Flags) (d : Disk) where
  open m use {fault, temp_names}

  -- A temporary file that is not the output.
  abbrev pub Temp : File → Host → Type 0
  Temp temp k = (temp.name ≢ f.output) × Created d temp k.disk

  pub create_temp-Leads :
      (h : Host) (F : Host → Type 0)
      → All (λ n. n ≢ f.output) (temp_names f.output)
      → Still d h
      → F (counted h)
      → Leads
          (λ temp k. Temp temp k)
          (λ _ k. F k)
          (lift not_created (create_temp fault (temp_names f.output) h))
  create_temp-Leads h F names s failed = lift-Leads Temp F not_created _ (
      call-Outcome fault Temp F (create_on (temp_names f.output)) h
        (λ temp e q.
          create_on-Created (λ n. n ≢ f.output) (temp_names f.output) d e temp names
            (subst (λ x. create_on (temp_names f.output) x ≡ ok (temp, e)) s q))
        failed)
