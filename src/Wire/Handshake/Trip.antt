-- ===== src/Wire/Handshake/Trip.antt =====
-- The handshake reader accepts exactly the bytes that the writer makes.
use bittorrent_client.Base.{
  ==_iff, Bool-cases, List, Returns, [], after-Returns, after-done, ap, ap₂, arith, bytes_eq_self,
  bytes_eq→eq, done, drop, drop-append, drop-drop, get_or, inl, inr, length, length-append,
  length-drop, length-take, refl, singleton_of_length, subst, sym, take, take-append,
  take-append-drop, take_all, wrap, wrap-Returns, wrap-done, ℕ, ◌++◌, ◌+◌, ◌==◌, ◌∙◌, ◌∷◌, ◌≡◌, ◌≤◌,
}
use bittorrent_client.Wire.Io.{
  Stream, IoError, read_full, read_full-Took, read_full-append, read_full-Returns,
}
use bittorrent_client.Wire.Error.{handshake_io}
use bittorrent_client.Wire.Handshake.{
  Handshake, IsHandshake, handshake_bytes, fields, parse_rest, read_rest, read_handshake, protocol,
  len_protocol, read_named,
}

-- Everything of a handshake after its first byte.
abbrev tail_bytes : Handshake → List ℕ
tail_bytes h = protocol ++ (h.reserved ++ (h.info_hash ++ h.peer_id))

length-tail_bytes : (h : Handshake) → IsHandshake h → length (tail_bytes h) ≡ 67
length-tail_bytes h v = omega (
  arith,
  v.reserved_size,
  v.info_hash_size,
  v.peer_id_size,
  length-append h.reserved (h.info_hash ++ h.peer_id),
  length-append h.info_hash h.peer_id,
)

fields-tail_bytes : (h : Handshake) → IsHandshake h → fields (tail_bytes h) ≡ h
unfolding fields
fields-tail_bytes h v = λ k. record {
  reserved = take-append 8 h.reserved (h.info_hash ++ h.peer_id) v.reserved_size k;
  info_hash = info_hash_at k;
  peer_id = peer_id_at k;
}
  where
    info_hash_at : take 20 (drop 8 (h.reserved ++ (h.info_hash ++ h.peer_id))) ≡ h.info_hash
    info_hash_at =
        ap (take 20) (drop-append 8 h.reserved (h.info_hash ++ h.peer_id) v.reserved_size)
        ∙ take-append 20 h.info_hash h.peer_id v.info_hash_size

    peer_id_at : take 20 (drop 28 (h.reserved ++ (h.info_hash ++ h.peer_id))) ≡ h.peer_id
    peer_id_at =
        ap (take 20) (
          sym (drop-drop 8 20 28 (h.reserved ++ (h.info_hash ++ h.peer_id)) refl)
          ∙ ap (drop 20) (drop-append 8 h.reserved (h.info_hash ++ h.peer_id) v.reserved_size)
          ∙ drop-append 20 h.info_hash h.peer_id v.info_hash_size)
        ∙ take_all 20 h.peer_id (omega (arith, v.peer_id_size))

-- The other way round: 67 bytes that begin with the name are those of their fields.
tail_bytes-fields :
    (xs : List ℕ)
    → length xs ≡ 67
    → take len_protocol xs ≡ protocol
    → (tail_bytes (fields xs) ≡ xs) × IsHandshake (fields xs)
unfolding fields
tail_bytes-fields xs e name = (
  ap (◌++◌ protocol) (
        ap (◌++◌ (take 8 (drop 19 xs))) (
          ap (◌++◌ (take 20 (drop 27 xs))) (
            take_all 20 (drop 47 xs) (omega (arith, length-drop 47 xs))
            ∙ sym (drop-drop 27 20 47 xs refl))
          ∙ take-append-drop 20 (drop 27 xs)
          ∙ sym (drop-drop 19 8 27 xs refl))
        ∙ take-append-drop 8 (drop 19 xs))
      ∙ ap (λ l. l ++ drop 19 xs) (sym name)
      ∙ take-append-drop 19 xs,
  record {
    reserved_size = size 8 19 (omega (arith, e));
    info_hash_size = size 20 27 (omega (arith, e));
    peer_id_size = size 20 47 (omega (arith, e));
  },
)
  where
    size : (a n : ℕ) → n + a ≤ length xs → length (take a (drop n xs)) ≡ a
    size a n h = omega (arith, length-take a (drop n xs), length-drop n xs)

parse_rest-done :
    (xs : List ℕ) (s t : Stream) (h : Handshake)
    → parse_rest xs s ≡ done h t
    → (take len_protocol xs ≡ protocol) × (fields xs ≡ h) × (s ≡ t)
unfolding parse_rest
parse_rest-done xs s t h e = ground (arith, bytes_eq→eq (take len_protocol xs) protocol)

parse_rest-tail_bytes :
    (h : Handshake) (s : Stream) → IsHandshake h → parse_rest (tail_bytes h) s ≡ done h s
unfolding parse_rest
parse_rest-tail_bytes h s v =
    rw (bytes_eq_self protocol) (ap (λ x. done x s) (fields-tail_bytes h v))

-- A handshake at the head of any stream is read back with all its fields, and the stream is left at
-- the byte after it.
pub read_handshake-handshake_bytes :
    (h : Handshake) (bs : List ℕ) (e : IoError)
    → IsHandshake h
    → read_handshake (record { bytes = handshake_bytes h ++ bs; ending = e })
      ≡ done h (record { bytes = bs; ending = e })
unfolding read_handshake read_rest read_named handshake_bytes
read_handshake-handshake_bytes h bs e v =
    rw
      (
        read_full-append 1 (19 ∷ []) (tail_bytes h ++ bs) e refl,
        read_full-append 67 (tail_bytes h) bs e (length-tail_bytes h v),
      )
      (parse_rest-tail_bytes h (record { bytes = bs; ending = e }) v)

-- What the reader took after the first byte.
record ReadsRest (len : ℕ) (s t : Stream) (h : Handshake) : Type 0 where
  first : len ≡ len_protocol
  valid : IsHandshake h
  split : s.bytes ≡ tail_bytes h ++ t.bytes
  same_ending : t.ending ≡ s.ending

read_named-done :
    (s t : Stream) (h : Handshake) → read_named s ≡ done h t → ReadsRest len_protocol s t h
unfolding read_named
read_named-done s t h e =
    let (xs, u, e1, r) = after-done (wrap handshake_io (read_full 67 s)) _ e in
    let took = read_full-Took 67 s u xs (wrap-done handshake_io (read_full 67 s) e1) in
    let (name, parsed, same) = parse_rest-done xs u t h r in
    let (back, valid) = tail_bytes-fields xs took.size name in
    record {
      first = refl;
      valid = subst IsHandshake parsed valid;
      split =
          took.split
          ∙ ap (λ v. xs ++ v.bytes) same
          ∙ ap (λ l. l ++ t.bytes) (sym back ∙ ap tail_bytes parsed);
      same_ending = subst (λ v. v.ending ≡ s.ending) same took.same_ending;
    }

read_rest-done :
    (len : ℕ) (s t : Stream) (h : Handshake) → read_rest len s ≡ done h t → ReadsRest len s t h
unfolding read_rest
read_rest-done len s t h e = elim (Bool-cases (len == len_protocol)) [
  | inl same ↦
      let q : len ≡ len_protocol = (==_iff len len_protocol).0 same in
      subst (λ n. ReadsRest n s t h) (sym q) (read_named-done s t h (rw same at e))
  | inr other ↦ absurd (ground arith)
]

-- Whatever the reader accepts is a handshake with fields of the right sizes, whose bytes stood at
-- the head of the stream; the stream is left at the byte after them.
pub read_handshake-done :
    (s t : Stream) (h : Handshake)
    → read_handshake s ≡ done h t
    → IsHandshake h × (s.bytes ≡ handshake_bytes h ++ t.bytes) × (t.ending ≡ s.ending)
unfolding read_handshake handshake_bytes
read_handshake-done s t h e =
    let (len, u, e1, r) = after-done (wrap handshake_io (read_full 1 s)) _ e in
    let took = read_full-Took 1 s u len (wrap-done handshake_io (read_full 1 s) e1) in
    let rest : ReadsRest (get_or len 0 0) u t h = read_rest-done (get_or len 0 0) u t h r in
    let head : len ≡ 19 ∷ [] =
      singleton_of_length 0 len took.size ∙ ap (λ (n : ℕ). n ∷ []) rest.first in
    (rest.valid, took.split ∙ ap₂ ◌++◌ head rest.split, rest.same_ending ∙ took.same_ending)

parse_rest-Returns : (xs : List ℕ) (s : Stream) → Returns (parse_rest xs s)
unfolding parse_rest
parse_rest-Returns xs s = ground arith

read_rest-Returns : (len : ℕ) (s : Stream) → Returns (read_rest len s)
unfolding read_rest read_named
read_rest-Returns len s = elim (Bool-cases (len == len_protocol)) [
  | inl same ↦ rw same (
      after-Returns (wrap handshake_io (read_full 67 s)) _
        (wrap-Returns handshake_io _ (read_full-Returns 67 s)) (λ xs t. parse_rest-Returns xs t))
  | inr other ↦ rw other tt
]

pub read_handshake-Returns : (s : Stream) → Returns (read_handshake s)
unfolding read_handshake
read_handshake-Returns s =
    after-Returns (wrap handshake_io (read_full 1 s)) _
      (wrap-Returns handshake_io _ (read_full-Returns 1 s))
      (λ len t. read_rest-Returns (get_or len 0 0) t)
