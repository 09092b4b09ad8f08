-- ===== src/Tracker/Url/Pieces.antt =====
-- The pieces of an encoded query.
use bittorrent_client.Base.{
  All, All-append, List, [], ap, arith, false, inl, inr, length, length-append, refl, true, ℕ, ◌++◌,
  ◌==◌, ◌∙◌, ◌∷◌, ◌≡◌, ◌≢◌,
}
use bittorrent_client.Wire.Endian.{IsBytes}
use bittorrent_client.Tracker.Url.{
  Values, add_piece, add_pieces, add_unescaped, all_pairs, contains, cut_at, join, pair, pairs_of,
  query_escape, split_on, values_add,
}
use bittorrent_client.Tracker.Url.Escapes.{Separator, escaped_apart, query_unescape-query_escape}

-- A byte string without the byte.
abbrev Without : ℕ → List ℕ → Type 0
Without c xs = All (λ x. x ≢ c) xs

ne-test : (x c : ℕ) → x ≢ c → (x == c) ≡ false
ne-test x c h = ground arith

contains-Without : (c : ℕ) (xs : List ℕ) → Without c xs → contains c xs ≡ false
unfolding contains
contains-Without c [] h = refl
contains-Without c (x ∷ xs) h = rw (ne-test x c h.0) (contains-Without c xs h.1)

cut_at-append : (c : ℕ) (xs ys : List ℕ) → Without c xs → cut_at c (xs ++ (c ∷ ys)) ≡ (xs, ys)
unfolding cut_at
cut_at-append c [] ys h = let same : (c == c) ≡ true = ground arith in rw same refl
cut_at-append c (x ∷ xs) ys h = rw (ne-test x c h.0, cut_at-append c xs ys h.1) refl

split_on-Without : (c : ℕ) (xs : List ℕ) → Without c xs → split_on c xs ≡ xs ∷ []
unfolding split_on
split_on-Without c [] h = refl
split_on-Without c (x ∷ xs) h = rw (ne-test x c h.0, split_on-Without c xs h.1) refl

split_on-append :
    (c : ℕ) (xs ys : List ℕ) → Without c xs → split_on c (xs ++ (c ∷ ys)) ≡ xs ∷ split_on c ys
unfolding split_on
split_on-append c [] ys h = let same : (c == c) ≡ true = ground arith in rw same refl
split_on-append c (x ∷ xs) ys h = rw (ne-test x c h.0, split_on-append c xs ys h.1) refl

split_on-join :
    (p : List ℕ) (ps : List (List ℕ))
    → Without 38 p
    → All (Without 38) ps
    → split_on 38 (join (p ∷ ps)) ≡ p ∷ ps
unfolding join
split_on-join p [] h k = split_on-Without 38 p h
split_on-join p (q ∷ ps) h k =
    split_on-append 38 p (join (q ∷ ps)) h ∙ ap (λ r. p ∷ r) (split_on-join q ps k.0 k.1)

pair-Without :
    (c : ℕ) (key value : List ℕ)
    → Separator c
    → 61 ≢ c
    → IsBytes key
    → IsBytes value
    → Without c (pair key value)
unfolding pair
pair-Without c key value s n k v =
    All-append (λ x. x ≢ c) (query_escape key) (61 ∷ query_escape value) (escaped_apart c key s k)
      (n, escaped_apart c value s v)

-- A pair is read back.
add_piece-pair :
    (key value : List ℕ) (acc : Values)
    → IsBytes key
    → IsBytes value
    → add_piece (pair key value) acc ≡ values_add key value acc
unfolding add_piece add_unescaped pair
add_piece-pair key value acc k v =
    let semicolon : contains 59 (pair key value) ≡ false =
      contains-Without 59 (pair key value)
        (pair-Without 59 key value (inr (inl refl)) (λ q. absurd (omega (arith, q))) k v) in
    let some_bytes : (length (pair key value) == 0) ≡ false =
      ground (arith, length-append (query_escape key) (61 ∷ query_escape value)) in
    let cut : cut_at 61 (pair key value) ≡ (query_escape key, query_escape value) =
      cut_at-append 61 (query_escape key) (query_escape value)
        (escaped_apart 61 key (inr (inr refl)) k) in
    rw
      (
        semicolon,
        some_bytes,
        cut,
        query_unescape-query_escape key k,
        query_unescape-query_escape value v,
      )
      refl

-- The entry's key and values are bytes, and it has a value.
pub record IsEntry (e : List ℕ × List (List ℕ)) : Type 0 where
  pub key_bytes : IsBytes e.0
  pub value_bytes : All IsBytes e.1
  pub some_value : e.1 ≢ []

-- The values of one key, and of all keys, added in order.
abbrev pub add_values : List ℕ → List (List ℕ) → Values → Values
add_values key [] acc = acc
add_values key (v ∷ vs) acc = add_values key vs (values_add key v acc)

abbrev pub add_all : Values → Values → Values
add_all [] acc = acc
add_all ((k, vs) ∷ rest) acc = add_all rest (add_values k vs acc)

add_pieces-pairs_of :
    (key : List ℕ) (vs rest : List (List ℕ)) (acc : Values)
    → IsBytes key
    → All IsBytes vs
    → add_pieces (pairs_of key vs rest) acc ≡ add_pieces rest (add_values key vs acc)
unfolding pairs_of add_pieces
add_pieces-pairs_of key [] rest acc k h = refl
add_pieces-pairs_of key (v ∷ vs) rest acc k h =
    ap (add_pieces (pairs_of key vs rest)) (add_piece-pair key v acc k h.0)
    ∙ add_pieces-pairs_of key vs rest (values_add key v acc) k h.1

pub add_pieces-all_pairs :
    (vs acc : Values) → All IsEntry vs → add_pieces (all_pairs vs) acc ≡ add_all vs acc
unfolding all_pairs add_pieces
add_pieces-all_pairs [] acc h = refl
add_pieces-all_pairs ((k, ws) ∷ rest) acc h =
    add_pieces-pairs_of k ws (all_pairs rest) acc h.0.key_bytes h.0.value_bytes
    ∙ add_pieces-all_pairs rest (add_values k ws acc) h.1

pairs_of-Without :
    (key : List ℕ) (vs rest : List (List ℕ))
    → IsBytes key
    → All IsBytes vs
    → All (Without 38) rest
    → All (Without 38) (pairs_of key vs rest)
unfolding pairs_of
pairs_of-Without key [] rest k h r = r
pairs_of-Without key (v ∷ vs) rest k h r = (
  pair-Without 38 key v (inl refl) (λ q. absurd (omega (arith, q))) k h.0,
  pairs_of-Without key vs rest k h.1 r,
)

all_pairs-Without : (vs : Values) → All IsEntry vs → All (Without 38) (all_pairs vs)
unfolding all_pairs
all_pairs-Without [] h = tt
all_pairs-Without ((k, ws) ∷ rest) h =
    pairs_of-Without k ws (all_pairs rest) h.0.key_bytes h.0.value_bytes
      (all_pairs-Without rest h.1)

split_on-pieces :
    (ps : List (List ℕ)) (acc : Values)
    → All (Without 38) ps
    → add_pieces (split_on 38 (join ps)) acc ≡ add_pieces ps acc
unfolding split_on join add_pieces add_piece contains
split_on-pieces [] acc h = refl
split_on-pieces (p ∷ ps) acc h = ap (λ qs. add_pieces qs acc) (split_on-join p ps h.0 h.1)

-- The pieces of the joined pairs are the pairs.
pub parsed-pairs :
    (vs acc : Values)
    → All IsEntry vs
    → add_pieces (split_on 38 (join (all_pairs vs))) acc ≡ add_all vs acc
parsed-pairs vs acc h =
    split_on-pieces (all_pairs vs) acc (all_pairs-Without vs h) ∙ add_pieces-all_pairs vs acc h
