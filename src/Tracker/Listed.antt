-- ===== src/Tracker/Listed.antt =====
-- The dictionary form of a peer list.
use bittorrent_client.Base.{
  Bool-cases, List, Option, Result, [], ap, arith, err, inl, inr, length, none, ok, refl, some,
  subst, subst₂, suc, sym, take, take_all, true, ℕ, ◌<◌, ◌==◌, ◌^◌, ◌↔◌, ◌∙◌, ◌∷◌, ◌≡◌,
}
use bittorrent_client.Net.{IpAddr}
use bittorrent_client.Tracker.{
  Value, Values, Entries, Peer, TrackerError, lookup, ip_key, port_key, peer_id_key, parse_port,
  parse_peer_id, parse_dict_peers, text, dictionary, end, item, identified, named, dict_peer,
  dict_peers, prepend, with_addr, with_ip, with_port,
}
use bittorrent_client.Tracker.Interval.{Counts, parse_port_iff}

-- The ID is missing, or a string of 20 bytes.
pub data Identified : Option Value → Option (List ℕ) → Type 0 where
  absent : Identified none none
  given : (s : List ℕ) → length s ≡ 20 → Identified (some (text s)) (some s)

named_id :
    (i : ℕ) (a : IpAddr) (port : ℕ) (v : Value) (p : Peer)
    → named i a port (parse_peer_id v) ≡ ok p
    → (p.addr ≡ a) × (p.port ≡ port) × Identified (some v) p.peer_id
unfolding named parse_peer_id
named_id i a port (text s) p e = elim (Bool-cases (length s == 20)) [
  | inr short ↦ absurd (ground arith)
  | inl whole ↦
      let size : length s ≡ 20 = ground arith in
      let same : record { peer_id = some (take 20 s); addr = a; port = port } ≡ p = ground arith in
      subst (λ (q : Peer). (q.addr ≡ a) × (q.port ≡ port) × Identified (some (text s)) q.peer_id)
        same
        (
          refl,
          refl,
          subst (λ x. Identified (some (text s)) (some x)) (sym (take_all 20 s (omega arith)))
              (given s size),
        )
]
named_id i a port _ p e = absurd (ground arith)

identified_id :
    (i : ℕ) (a : IpAddr) (port : ℕ) (o : Option Value) (p : Peer)
    → identified i a port o ≡ ok p
    → (p.addr ≡ a) × (p.port ≡ port) × Identified o p.peer_id
unfolding identified
identified_id i a port none p e =
    let same : record { peer_id = none; addr = a; port = port } ≡ p = ground arith in
    subst (λ (q : Peer). (q.addr ≡ a) × (q.port ≡ port) × Identified none q.peer_id) same
      (refl, refl, absent)
identified_id i a port (some v) p e = named_id i a port v p e

-- An ID that is missing or whole is accepted.
Identified-identified :
    (i : ℕ) (a : IpAddr) (port : ℕ) (o : Option Value) (id : Option (List ℕ))
    → Identified o id
    → identified i a port o ≡ ok (record { peer_id = id; addr = a; port = port })
unfolding identified named parse_peer_id
Identified-identified i a port _ _ absent = refl
Identified-identified i a port _ _ (given s size) =
    let test : (length s == 20) ≡ true = ground arith in rw (test, take_all 20 s (omega arith)) refl

module _ (parse_addr : List ℕ → Option IpAddr) where
  -- The dictionary describes the peer: an IP literal, a port from 1 to 65535, and the ID.
  pub record Described (d : Entries) (p : Peer) : Type 0 where
    pub ip : List ℕ
    pub ip_eq : lookup ip_key d ≡ some (text ip)
    pub addr_eq : parse_addr ip ≡ some p.addr
    pub port_counts : Counts (lookup port_key d) p.port
    pub port_positive : 0 < p.port
    pub port_small : p.port < 2 ^ 16
    pub id : Identified (lookup peer_id_key d) p.peer_id

  -- One dictionary for each peer, in order.
  pub data Listed : Values → List Peer → Type 0 where
    nothing : Listed end []
    peer :
        {d : Entries} {vs : Values} {p : Peer} {ps : List Peer}
        → Described d p
        → Listed vs ps
        → Listed (item (dictionary d) vs) (p ∷ ps)

  with_port-Described :
      (i : ℕ) (a : IpAddr) (ip : List ℕ) (d : Entries) (r : Result TrackerError ℕ) (p : Peer)
      → lookup ip_key d ≡ some (text ip)
      → parse_addr ip ≡ some a
      → parse_port (lookup port_key d) ≡ r
      → with_port i a r d ≡ ok p
      → Described d p
  unfolding with_port
  with_port-Described i a ip d (err x) p ip_eq addr_eq port_eq e = absurd (ground arith)
  with_port-Described i a ip d (ok port) p ip_eq addr_eq port_eq e =
      let (same_addr, same_port, id) = identified_id i a port (lookup peer_id_key d) p e in
      let (counts, positive, small) = (parse_port_iff (lookup port_key d) port).0 port_eq in
      record {
        ip = ip;
        ip_eq = ip_eq;
        addr_eq = addr_eq ∙ ap some (sym same_addr);
        port_counts = subst (Counts (lookup port_key d)) (sym same_port) counts;
        port_positive = omega arith;
        port_small = omega arith;
        id = id;
      }

  with_addr-Described :
      (i : ℕ) (ip : List ℕ) (d : Entries) (r : Option IpAddr) (p : Peer)
      → lookup ip_key d ≡ some (text ip)
      → parse_addr ip ≡ r
      → with_addr parse_addr i ip r d ≡ ok p
      → Described d p
  unfolding with_addr
  with_addr-Described i ip d none p ip_eq addr_eq e = absurd (ground arith)
  with_addr-Described i ip d (some a) p ip_eq addr_eq e =
      with_port-Described i a ip d (parse_port (lookup port_key d)) p ip_eq addr_eq refl e

  with_ip-Described :
      (i : ℕ) (d : Entries) (o : Option Value) (p : Peer)
      → lookup ip_key d ≡ o
      → with_ip parse_addr i o d ≡ ok p
      → Described d p
  unfolding with_ip
  with_ip-Described i d (some (text ip)) p ip_eq e =
      with_addr-Described i ip d (parse_addr ip) p ip_eq refl e
  with_ip-Described i d _ p ip_eq e = absurd (ground arith)

  Described-dict_peer :
      (i : ℕ) (d : Entries) (p : Peer)
      → Described d p
      → dict_peer parse_addr i (dictionary d) ≡ ok p
  unfolding dict_peer with_ip with_addr with_port
  Described-dict_peer i d p h =
      rw
        (
          h.ip_eq,
          h.addr_eq,
          (parse_port_iff (lookup port_key d) p.port).1
              (h.port_counts, h.port_positive, h.port_small),
        )
        (Identified-identified i p.addr p.port (lookup peer_id_key d) p.peer_id h.id)

  prepend-Listed :
      (i : ℕ) (v : Value) (vs : Values) (r : Result TrackerError Peer)
      (rs : Result TrackerError (List Peer)) (ps : List Peer)
      → ((p : Peer) → r ≡ ok p → (d : Entries) × (v ≡ dictionary d) × Described d p)
      → ((qs : List Peer) → rs ≡ ok qs → Listed vs qs)
      → prepend r rs ≡ ok ps
      → Listed (item v vs) ps
  unfolding prepend
  prepend-Listed i v vs (err x) rs ps f g e = absurd (ground arith)
  prepend-Listed i v vs (ok p) (err x) ps f g e = absurd (ground arith)
  prepend-Listed i v vs (ok p) (ok qs) ps f g e =
      let same : p ∷ qs ≡ ps = ground arith in
      let (d, is_dictionary, h) = f p refl in
      subst₂ (λ x y. Listed (item x vs) y) (sym is_dictionary) same (peer h (g qs refl))

  dict_peer-Described :
      (i : ℕ) (v : Value) (p : Peer)
      → dict_peer parse_addr i v ≡ ok p
      → (d : Entries) × (v ≡ dictionary d) × Described d p
  unfolding dict_peer
  dict_peer-Described i (dictionary d) p e =
      (d, refl, with_ip-Described i d (lookup ip_key d) p refl e)
  dict_peer-Described i _ p e = absurd (ground arith)

  dict_peers-Listed :
      (i : ℕ) (vs : Values) (ps : List Peer) → dict_peers parse_addr i vs ≡ ok ps → Listed vs ps
  unfolding dict_peers
  dict_peers-Listed i end ps e =
      let same : [] ≡ ps = ground arith in subst (Listed end) same nothing
  dict_peers-Listed i (item v vs) ps e =
      prepend-Listed i v vs (dict_peer parse_addr i v) (dict_peers parse_addr (suc i) vs) ps
        (dict_peer-Described i v) (dict_peers-Listed (suc i) vs) e

  Listed-dict_peers :
      (i : ℕ) {vs : Values} {ps : List Peer} → Listed vs ps → dict_peers parse_addr i vs ≡ ok ps
  unfolding dict_peers prepend
  Listed-dict_peers i nothing = refl
  Listed-dict_peers i (peer {d = d} {p = p} h l) =
      rw (Described-dict_peer i d p h, Listed-dict_peers (suc i) l) refl

  -- `parseDictPeers` accepts exactly the lists of dictionaries that each describe a peer, and
  -- returns these peers in order.
  pub parse_dict_peers_iff :
      (vs : Values) (ps : List Peer) → (parse_dict_peers parse_addr vs ≡ ok ps) ↔ Listed vs ps
  unfolding parse_dict_peers
  parse_dict_peers_iff vs ps = (dict_peers-Listed 0 vs ps, Listed-dict_peers 0)
