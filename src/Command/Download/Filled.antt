-- ===== src/Command/Download/Filled.antt =====
-- The temporary file of downloadPiece, from its fetch to the comparison of its hash.
use bittorrent_client.Base.{
  Bool-cases, Flow, Leads, List, Result, [], after, after-Leads, ap, arith, bytes_eq, bytes_eq→eq,
  done, err, fail, get_or, inl, inr, leb, length, ok, pos, refl, spent, subst, take, take_all, true,
  ℕ, ◌<◌, ◌^◌, ◌≡◌,
}
use bittorrent_client.Disk.{Disk, File, Host, read_on, read_start, seek_start}
use bittorrent_client.Metainfo.{TorrentFile}
use bittorrent_client.Command.{CommandError, DialResult, Machine, not_sought, lift, not_hashed}
use bittorrent_client.Command.Steps.{Still, look-Leads}
use bittorrent_client.Command.Download.{
  caller, fetch_outcome, in_session, fetch_from, verify, compare_hash,
}
use bittorrent_client.Command.Download.Stored.{Aside, store-Aside, Delivers-size}
use bittorrent_client.Peer.Session.{Session, SessionError, new_session}
use bittorrent_client.Peer.Fetch.{FetchError, PieceSpec, World, fetch_piece}
use bittorrent_client.Peer.Fetch.Holds.{Holds, fetch_piece-Holds}
use bittorrent_client.Peer.Fetch.Tiling.{fetch_piece-Delivers}

module _ (m : Machine) (f : File) where
  open m use {fault, sha1, writer}

  -- The file has this many bytes.
  abbrev pub Filled : Disk → ℕ → Host → Type 0
  Filled d n k = Aside f d k.disk × (length (k.disk.contents f.inode) ≡ n)

  fetch_outcome-Filled :
      (d : Disk) (n : ℕ) (w : Flow FetchError (World (caller m f)) (Unit {0}))
      → Holds (caller m f) (λ k. Aside f d k.disk) w
      → ((a : Unit {0}) (u : World (caller m f))
          → w ≡ done a u
          → length (u.sink.disk.contents f.inode) ≡ n)
      → Leads (λ _ k. Filled d n k) (λ _ k. Aside f d k.disk) (fetch_outcome m f w)
  unfolding fetch_outcome
  fetch_outcome-Filled d n (done a u) h k = (h, k a u refl)
  fetch_outcome-Filled d n (fail e u) h k = h
  fetch_outcome-Filled d n spent h k = tt

  in_session-Filled :
      (d : Disk) (p : PieceSpec) (r : DialResult writer) (s : Result SessionError Session)
      (h : Host)
      → p.len < 2 ^ 32
      → h.disk.contents f.inode ≡ []
      → Aside f d h.disk
      → Leads (λ _ k. Filled d p.len k) (λ _ k. Aside f d k.disk) (in_session m f r p s h)
  unfolding in_session
  in_session-Filled d p r (err e) h small blank q = q
  in_session-Filled d p r (ok s) h small blank q =
      let v : World (caller m f) = record {
        link = record { session = s; input = r.conn.input };
        out = r.conn.out;
        sink = h;
        looks = 0;
      } in
      fetch_outcome-Filled d p.len (fetch_piece (caller m f) true true p v)
        (fetch_piece-Holds (caller m f) (λ k. Aside f d k.disk)
          (λ offset bytes k a. store-Aside m f d offset bytes k a) true true p v q)
        (λ a u e.
          Delivers-size m f p u.sink 0 h (ap length blank)
            (fetch_piece-Delivers (caller m f) true true p v u a small e).2)

  pub fetch_from-Filled :
      (d : Disk) (t : TorrentFile) (p : PieceSpec) (r : Result CommandError (DialResult writer))
      (h : Host)
      → p.len < 2 ^ 32
      → h.disk.contents f.inode ≡ []
      → Aside f d h.disk
      → Leads (λ _ k. Filled d p.len k) (λ _ k. Aside f d k.disk) (fetch_from m f t p r h)
  unfolding fetch_from
  fetch_from-Filled d t p (err e) h small blank q = q
  fetch_from-Filled d t p (ok r) h small blank q =
      in_session-Filled d p r (new_session true (pos (length t.piece_hashes))) h small blank q

  compare_hash-Leads :
      (expected bytes : List ℕ) (d : Disk) (h : Host)
      → Still d h
      → Leads
          (λ _ k. Still d k × (sha1 bytes ≡ expected))
          (λ _ k. Still d k)
          (compare_hash m expected bytes h)
  unfolding compare_hash
  compare_hash-Leads expected bytes d h s = elim (Bool-cases (bytes_eq (sha1 bytes) expected)) [
    | inl same ↦ rw same (s, bytes_eq→eq (sha1 bytes) expected same)
    | inr other ↦ rw other s
  ]

  -- Reading as many bytes as the file has gives all of them.
  read_on_all :
      (n : ℕ) (d : Disk) (bytes : List ℕ)
      → length (d.contents f.inode) ≡ n
      → read_on f.inode n d ≡ ok bytes
      → bytes ≡ d.contents f.inode
  unfolding read_on
  read_on_all n d bytes size e =
      let whole : take n (d.contents f.inode) ≡ d.contents f.inode =
        take_all n (d.contents f.inode) (omega arith) in
      elim (Bool-cases (leb n (length (d.contents f.inode)))) [
        | inl enough ↦ ground (arith, whole)
        | inr short ↦ absurd (ground arith)
      ]

  -- Verifying changes nothing, and what it accepts has the hash.
  pub verify-Leads :
      (t : TorrentFile) (p : PieceSpec) (d : Disk) (h : Host)
      → Still d h
      → length (d.contents f.inode) ≡ p.len
      → Leads
          (λ _ k. Still d k × (sha1 (d.contents f.inode) ≡ get_or t.piece_hashes p.index []))
          (λ _ k. Still d k)
          (verify m f t p h)
  unfolding verify
  verify-Leads t p d h s size =
      let hash : List ℕ = get_or t.piece_hashes p.index [] in
      let D : Unit {0} → Host → Type 0 = λ _ k. Still d k × (sha1 (d.contents f.inode) ≡ hash) in
      let F : CommandError → Host → Type 0 = λ _ k. Still d k in
      after-Leads (λ _ k. Still d k × (ok tt ≡ ok tt)) D F (lift not_sought (seek_start fault h))
        (λ _ k. after (lift not_hashed (read_start fault f p.len k)) (compare_hash m hash))
        (look-Leads fault (λ _. ok tt) not_sought d h s)
        λ _ k q.
          after-Leads (λ bytes j. Still d j × (read_on f.inode p.len d ≡ ok bytes)) D F
            (lift not_hashed (read_start fault f p.len k)) (compare_hash m hash)
            (look-Leads fault (read_on f.inode p.len) not_hashed d k q.0)
            λ bytes j r.
              subst
                (λ x. Leads (λ _ i. Still d i × (sha1 x ≡ hash)) F (compare_hash m hash bytes j))
                (read_on_all p.len d bytes size r.1) (compare_hash-Leads hash bytes d j r.0)
