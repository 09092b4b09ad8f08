-- ===== src/Tracker/Compact.antt =====
-- The compact form of a peer list: six bytes for a peer.
use bittorrent_client.Base.{
  Bool-cases, List, [], ap, append_assoc, ap₂, arith, drop, drop-append, drop-drop, drop_all, inl,
  inr, length, length-append, length-drop, map, none, ok, refl, slices, subst, suc, sym, take,
  take-append, true, zero, ℕ, ◌%◌, ◌*◌, ◌++◌, ◌+◌, ◌/◌, ◌==◌, ◌↔◌, ◌∙◌, ◌∷◌, ◌≡◌, ◌≤◌,
}
use bittorrent_client.Wire.Endian.{uint16}
use bittorrent_client.Net.{ip4}
use bittorrent_client.Tracker.{Peer, compact_peer, parse_compact_peers}

abbrev pub anonymous : List ℕ → ℕ → Peer
anonymous ip port = record { peer_id = none; addr = ip4 ip; port = port }

-- Four address bytes and a port, high byte first, for each peer in turn, and nothing more.
pub data Packed : List ℕ → List Peer → Type 0 where
  nothing : Packed [] []
  peer :
      (ip : List ℕ) (hi lo : ℕ) {later : List ℕ} {ps : List Peer}
      → length ip ≡ 4
      → Packed later ps
      → Packed (ip ++ (hi ∷ lo ∷ later)) (anonymous ip (hi * 256 + lo) ∷ ps)

chunk-Packed :
    (y later : List ℕ) (ps : List Peer)
    → 6 ≤ length y
    → drop 6 y ≡ later
    → Packed later ps
    → Packed y (compact_peer (take 6 y) ∷ ps)
unfolding compact_peer uint16
chunk-Packed (a ∷ b ∷ c ∷ d ∷ hi ∷ lo ∷ r) later ps h e p =
    peer (a ∷ b ∷ c ∷ d ∷ []) hi lo refl (subst (λ x. Packed x ps) (sym e) p)
chunk-Packed _ later ps h e p = absurd (omega arith)

slices-Packed :
    (k offset : ℕ) (raw : List ℕ)
    → length raw ≡ offset + k * 6
    → Packed (drop offset raw) (map compact_peer (slices 6 k offset raw))
unfolding slices
slices-Packed zero offset raw e =
    subst (λ x. Packed x []) (sym (drop_all offset raw (omega arith))) nothing
slices-Packed (suc k) offset raw e =
    chunk-Packed (drop offset raw) (drop (offset + 6) raw) _ (omega (arith, length-drop offset raw))
      (drop-drop offset 6 (offset + 6) raw refl) (slices-Packed k (offset + 6) raw (omega arith))

compact_peer-append :
    (ip : List ℕ) (hi lo : ℕ)
    → length ip ≡ 4
    → compact_peer (ip ++ (hi ∷ lo ∷ [])) ≡ anonymous ip (hi * 256 + lo)
unfolding compact_peer uint16
compact_peer-append ip hi lo e =
    rw (take-append 4 ip (hi ∷ lo ∷ []) e, drop-append 4 ip (hi ∷ lo ∷ []) e) refl

length-Packed : {raw : List ℕ} {ps : List Peer} → Packed raw ps → length raw ≡ length ps * 6
length-Packed nothing = omega arith
length-Packed (peer ip hi lo {later = later} e p) =
    omega (arith, length-append ip (hi ∷ lo ∷ later), length-Packed p)

Packed-slices :
    {raw : List ℕ} {ps : List Peer} (offset : ℕ) (xs : List ℕ)
    → Packed raw ps
    → drop offset xs ≡ raw
    → map compact_peer (slices 6 (length ps) offset xs) ≡ ps
unfolding slices
Packed-slices offset xs nothing e = refl
Packed-slices offset xs (peer ip hi lo {later = later} size p) e =
    let whole : length (ip ++ (hi ∷ lo ∷ [])) ≡ 6 =
      omega (arith, length-append ip (hi ∷ lo ∷ []), size) in
    let split : drop offset xs ≡ (ip ++ (hi ∷ lo ∷ [])) ++ later =
      e ∙ sym (append_assoc ip (hi ∷ lo ∷ []) later) in
    ap₂ ◌∷◌
      (ap (λ x. compact_peer (take 6 x)) split
        ∙ ap compact_peer (take-append 6 (ip ++ (hi ∷ lo ∷ [])) later whole)
        ∙ compact_peer-append ip hi lo size)
      (Packed-slices (offset + 6) xs p (
        sym (drop-drop offset 6 (offset + 6) xs refl)
        ∙ ap (drop 6) split
        ∙ drop-append 6 (ip ++ (hi ∷ lo ∷ [])) later whole))

parsed-Packed : (raw : List ℕ) (ps : List Peer) → parse_compact_peers raw ≡ ok ps → Packed raw ps
unfolding parse_compact_peers
parsed-Packed raw ps e = elim (Bool-cases (length raw % 6 == 0)) [
  | inr odd ↦ absurd (ground arith)
  | inl even ↦
      let same : map compact_peer (slices 6 (length raw / 6) 0 raw) ≡ ps = ground arith in
      subst (Packed raw) same (slices-Packed (length raw / 6) 0 raw (ground arith))
]

Packed-parsed : (raw : List ℕ) (ps : List Peer) → Packed raw ps → parse_compact_peers raw ≡ ok ps
unfolding parse_compact_peers
Packed-parsed raw ps p =
    let even : (length raw % 6 == 0) ≡ true = ground (arith, length-Packed p) in
    let count : length raw / 6 ≡ length ps = omega (arith, length-Packed p) in
    rw (even, count) (ap ok (Packed-slices 0 raw p refl))

-- `parseCompactPeers` accepts exactly the strings made of four address bytes and a big-endian port
-- for each peer, and returns these peers in order and without IDs.
pub parse_compact_peers_iff :
    (raw : List ℕ) (ps : List Peer) → (parse_compact_peers raw ≡ ok ps) ↔ Packed raw ps
parse_compact_peers_iff raw ps = (parsed-Packed raw ps, Packed-parsed raw ps)
