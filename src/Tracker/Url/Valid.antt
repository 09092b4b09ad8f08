-- ===== src/Tracker/Url/Valid.antt =====
-- What a parsed query has: one entry of a key, with values, and bytes only.
use bittorrent_client.Base.{
  All, All-append, Bool-cases, List, Option, Option-cases, [], arith, inl, inr, length, ltb, none,
  refl, some, subst, ℕ, ◌++◌, ◌<◌, ◌==◌, ◌||◌, ◌∷◌, ◌≡◌, ◌≢◌,
}
use mathlib.Core.Option.{some-injective}
use bittorrent_client.Wire.Endian.{IsBytes}
use bittorrent_client.Tracker.Url.{
  Escape, Values, add_piece, add_pieces, add_unescaped, at_first, at_second, between, cons_first,
  cut_at, first_digit, outside, parse_query, put, query_unescape, second_digit, split_on, unescape,
  unescape_byte, unhex, url_query, values_add, values_set, values_update, wrong, contains,
}
use bittorrent_client.Tracker.Url.Updates.{Distinct, update-All, update-Distinct}
use bittorrent_client.Tracker.Url.Pieces.{IsEntry}

pub record IsQuery (vs : Values) : Type 0 where
  pub entries : All IsEntry vs
  pub distinct : Distinct vs

update-IsQuery :
    (k : List ℕ) (f : List (List ℕ) → List (List ℕ)) (vs : Values)
    → IsBytes k
    → ((ws : List (List ℕ)) → All IsBytes ws → All IsBytes (f ws) × (f ws ≢ []))
    → IsQuery vs
    → IsQuery (values_update k f vs)
update-IsQuery k f vs b h q = record {
  entries =
      update-All IsEntry k f vs
        (record { key_bytes = b; value_bytes = (h [] tt).0; some_value = (h [] tt).1 })
        (λ ws e. record {
          key_bytes = b;
          value_bytes = (h ws e.value_bytes).0;
          some_value = (h ws e.value_bytes).1;
        })
        q.entries;
  distinct = update-Distinct k f vs q.distinct;
}

pub set-IsQuery :
    (k v : List ℕ) (vs : Values) → IsBytes k → IsBytes v → IsQuery vs → IsQuery (values_set k v vs)
unfolding values_set
set-IsQuery k v vs b c q =
    update-IsQuery k (λ old. v ∷ []) vs b (λ ws h. ((c, tt), λ e. absurd (ground (arith, e)))) q

ends_not_empty : (ws : List (List ℕ)) (v : List ℕ) → ws ++ (v ∷ []) ≢ []
ends_not_empty [] v = λ e. absurd (ground (arith, e))
ends_not_empty (w ∷ ws) v = λ e. absurd (ground (arith, e))

add-IsQuery :
    (k v : List ℕ) (vs : Values) → IsBytes k → IsBytes v → IsQuery vs → IsQuery (values_add k v vs)
unfolding values_add
add-IsQuery k v vs b c q =
    update-IsQuery k (λ old. old ++ (v ∷ [])) vs b
      (λ ws h. (All-append IsBytes ws (v ∷ []) h (c, tt), ends_not_empty ws v)) q

-- The first digit of an escape is less than 16.
Small : Escape → Type 0
Small (at_second h) = h < 16
Small _ = Unit

unhex-lt : (c d : ℕ) → unhex c ≡ some d → d < 16
unfolding unhex between
unhex-lt c d h = ground arith

unescape_byte-Small :
    (e : Escape) (c : ℕ)
    → c < 256
    → Small e
    → Small ((unescape_byte e c).0) × IsBytes ((unescape_byte e c).1)
unfolding unescape_byte Small first_digit second_digit
unescape_byte-Small outside c b h = elim (Bool-cases (c == 37)) [
  | inl percent ↦ rw percent (tt, tt)
  | inr other ↦ rw other (tt, (ground arith, tt))
]
unescape_byte-Small at_first c b h = elim (Option-cases (unhex c)) [
  | inl bad ↦ rw bad (tt, tt)
  | inr (d, good) ↦ rw good (unhex-lt c d good, tt)
]
unescape_byte-Small (at_second h) c b k = elim (Option-cases (unhex c)) [
  | inl bad ↦ rw bad (tt, tt)
  | inr (d, good) ↦ rw good (tt, (omega (arith, k, unhex-lt c d good), tt))
]
unescape_byte-Small wrong c b h = (tt, tt)

put-IsBytes :
    (out t : List ℕ) (o : Option (List ℕ))
    → IsBytes out
    → ((s : List ℕ) → o ≡ some s → IsBytes s)
    → put out o ≡ some t
    → IsBytes t
put-IsBytes out t none a h e = absurd (ground (arith, e))
put-IsBytes out t (some s) a h e =
    subst IsBytes (some-injective (out ++ s) t e) (All-append (λ b. b < 256) out s a (h s refl))

unescape-IsBytes :
    (e : Escape) (s t : List ℕ) → IsBytes s → Small e → unescape e s ≡ some t → IsBytes t
unfolding unescape
unescape-IsBytes outside [] t b h u = subst IsBytes (some-injective [] t u) tt
unescape-IsBytes at_first [] t b h u = absurd (ground (arith, u))
unescape-IsBytes wrong [] t b h u = absurd (ground (arith, u))
unescape-IsBytes (at_second d) [] t b h u = absurd (ground (arith, u))
unescape-IsBytes e (c ∷ s) t b h u =
    let small : Small ((unescape_byte e c).0) × IsBytes ((unescape_byte e c).1) =
      unescape_byte-Small e c b.0 h in
    put-IsBytes ((unescape_byte e c).1) t (unescape ((unescape_byte e c).0) s) small.1
      (λ r q. unescape-IsBytes ((unescape_byte e c).0) s r b.1 small.0 q) u

cons_first-IsBytes :
    (c : ℕ) (ps : List (List ℕ)) → c < 256 → All IsBytes ps → All IsBytes (cons_first c ps)
cons_first-IsBytes c [] b h = ((b, tt), tt)
cons_first-IsBytes c (p ∷ ps) b h = ((b, h.0), h.1)

split_on-IsBytes : (sep : ℕ) (s : List ℕ) → IsBytes s → All IsBytes (split_on sep s)
unfolding split_on
split_on-IsBytes sep [] h = (tt, tt)
split_on-IsBytes sep (c ∷ s) h = elim (Bool-cases (c == sep)) [
  | inl cut ↦ rw cut (tt, split_on-IsBytes sep s h.1)
  | inr other ↦ rw other (cons_first-IsBytes c (split_on sep s) h.0 (split_on-IsBytes sep s h.1))
]

cut_at-IsBytes :
    (sep : ℕ) (s : List ℕ) → IsBytes s → IsBytes ((cut_at sep s).0) × IsBytes ((cut_at sep s).1)
unfolding cut_at
cut_at-IsBytes sep [] h = (tt, tt)
cut_at-IsBytes sep (c ∷ s) h = elim (Bool-cases (c == sep)) [
  | inl cut ↦ rw cut (tt, h.1)
  | inr other ↦
      let later : IsBytes ((cut_at sep s).0) × IsBytes ((cut_at sep s).1) =
        cut_at-IsBytes sep s h.1 in
      rw other ((h.0, later.0), later.1)
]

add_unescaped-IsQuery :
    (k v : Option (List ℕ)) (acc : Values)
    → ((s : List ℕ) → k ≡ some s → IsBytes s)
    → ((s : List ℕ) → v ≡ some s → IsBytes s)
    → IsQuery acc
    → IsQuery (add_unescaped k v acc)
unfolding add_unescaped
add_unescaped-IsQuery none none acc a b q = q
add_unescaped-IsQuery none (some v) acc a b q = q
add_unescaped-IsQuery (some k) none acc a b q = q
add_unescaped-IsQuery (some k) (some v) acc a b q = add-IsQuery k v acc (a k refl) (b v refl) q

unescaped-IsBytes : (s t : List ℕ) → IsBytes s → query_unescape s ≡ some t → IsBytes t
unfolding query_unescape Small
unescaped-IsBytes s t b h = unescape-IsBytes outside s t b tt h

add_piece-IsQuery :
    (p : List ℕ) (acc : Values) → IsBytes p → IsQuery acc → IsQuery (add_piece p acc)
unfolding add_piece
add_piece-IsQuery p acc b q = elim (Bool-cases (contains 59 p || length p == 0)) [
  | inl skipped ↦ rw skipped q
  | inr kept ↦
      let cut : IsBytes ((cut_at 61 p).0) × IsBytes ((cut_at 61 p).1) = cut_at-IsBytes 61 p b in
      rw kept (
        add_unescaped-IsQuery (query_unescape ((cut_at 61 p).0)) (query_unescape ((cut_at 61 p).1))
          acc (λ s h. unescaped-IsBytes ((cut_at 61 p).0) s cut.0 h)
          (λ s h. unescaped-IsBytes ((cut_at 61 p).1) s cut.1 h) q)
]

add_pieces-IsQuery :
    (ps : List (List ℕ)) (acc : Values) → All IsBytes ps → IsQuery acc → IsQuery (add_pieces ps acc)
unfolding add_pieces
add_pieces-IsQuery [] acc h q = q
add_pieces-IsQuery (p ∷ ps) acc h q =
    add_pieces-IsQuery ps (add_piece p acc) h.1 (add_piece-IsQuery p acc h.0 q)

no-IsQuery : IsQuery []
no-IsQuery = record { entries = tt; distinct = tt }

pub url_query-IsQuery : (s : List ℕ) → IsBytes s → IsQuery (url_query s)
unfolding url_query parse_query
url_query-IsQuery s b = elim (Bool-cases (ltb 10000 (length (split_on 38 s)))) [
  | inl many ↦ rw many no-IsQuery
  | inr few ↦ rw few (add_pieces-IsQuery (split_on 38 s) [] (split_on-IsBytes 38 s b) no-IsQuery)
]
