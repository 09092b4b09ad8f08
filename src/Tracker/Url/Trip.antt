-- ===== src/Tracker/Url/Trip.antt =====
-- A query that is encoded and parsed again.
use bittorrent_client.Base.{
  All, Bool-cases, List, Option, [], ap, append-nil, append_assoc, bytes_eq, bytes_eq→eq, false,
  if◌then◌else◌, inl, inr, none, refl, some, subst, sym, ℕ, ◌++◌, ◌∙◌, ◌∷◌, ◌≡◌, ◌≢◌,
}
use bittorrent_client.Tracker.Url.{
  Values, bytes_le, encode_values, insert_key, parse_query, sort_keys, values_add, values_get,
}
use bittorrent_client.Tracker.Url.Updates.{Distinct, found, get-update}
use bittorrent_client.Tracker.Url.Pieces.{IsEntry, add_all, add_values, parsed-pairs}

bytes_ne : (xs ys : List ℕ) → xs ≢ ys → bytes_eq xs ys ≡ false
bytes_ne xs ys h = elim (Bool-cases (bytes_eq xs ys)) [
  | inl same ↦ absurd (h (bytes_eq→eq xs ys same))
  | inr other ↦ other
]

insert_key-All :
    (P : List ℕ × List (List ℕ) → Type 0) (e : List ℕ × List (List ℕ)) (vs : Values)
    → P e
    → All P vs
    → All P (insert_key e vs)
unfolding insert_key
insert_key-All P e [] p h = (p, tt)
insert_key-All P e (f ∷ vs) p h = elim (Bool-cases (bytes_le (e.0) (f.0))) [
  | inl before ↦ rw before (p, h)
  | inr behind ↦ rw behind (h.0, insert_key-All P e vs p h.1)
]

sort_keys-All :
    (P : List ℕ × List (List ℕ) → Type 0) (vs : Values) → All P vs → All P (sort_keys vs)
unfolding sort_keys
sort_keys-All P [] h = tt
sort_keys-All P (e ∷ vs) h = insert_key-All P e (sort_keys vs) h.0 (sort_keys-All P vs h.1)

insert_key-Distinct :
    (e : List ℕ × List (List ℕ)) (vs : Values)
    → All (λ f. e.0 ≢ f.0) vs
    → Distinct vs
    → Distinct (insert_key e vs)
unfolding insert_key
insert_key-Distinct e [] a h = (tt, tt)
insert_key-Distinct e (f ∷ vs) a h = elim (Bool-cases (bytes_le (e.0) (f.0))) [
  | inl before ↦ rw before (a, h)
  | inr behind ↦ rw behind (
    insert_key-All (λ g. f.0 ≢ g.0) e vs (λ q. a.0 (sym q)) h.0,
    insert_key-Distinct e vs a.1 h.1,
  )
]

sort_keys-Distinct : (vs : Values) → Distinct vs → Distinct (sort_keys vs)
unfolding sort_keys
sort_keys-Distinct [] h = tt
sort_keys-Distinct (e ∷ vs) h =
    insert_key-Distinct e (sort_keys vs) (sort_keys-All (λ f. e.0 ≢ f.0) vs h.0)
      (sort_keys-Distinct vs h.1)

get-insert_key :
    (key k : List ℕ) (ws : List (List ℕ)) (vs : Values)
    → All (λ f. k ≢ f.0) vs
    → values_get key (insert_key (k, ws) vs) ≡ values_get key ((k, ws) ∷ vs)
unfolding insert_key values_get
get-insert_key key k ws [] a = refl
get-insert_key key k ws ((j, us) ∷ vs) a = elim (Bool-cases (bytes_le k j)) [
  | inl before ↦ rw before refl
  | inr behind ↦
      rw (behind, get-insert_key key k ws vs a.1)
        (elim (Bool-cases (bytes_eq key k)) [
          | inl same ↦
              let apart : bytes_eq key j ≡ false =
                bytes_ne key j (λ q. a.0 (sym (bytes_eq→eq key k same) ∙ q)) in
              rw (same, apart) refl
          | inr other ↦ rw other refl
        ])
]

get-sort_keys :
    (key : List ℕ) (vs : Values) → Distinct vs → values_get key (sort_keys vs) ≡ values_get key vs
unfolding sort_keys values_get
get-sort_keys key [] h = refl
get-sort_keys key ((k, ws) ∷ vs) h =
    get-insert_key key k ws (sort_keys vs) (sort_keys-All (λ f. k ≢ f.0) vs h.0)
    ∙ rw (get-sort_keys key vs h.1) refl

-- The values of a key with more of them.
abbrev more : Option (List (List ℕ)) → List (List ℕ) → Option (List (List ℕ))
more none [] = none
more none (w ∷ ws) = some (w ∷ ws)
more (some us) ws = some (us ++ ws)

more_empty : (o : Option (List (List ℕ))) → more o [] ≡ o
more_empty none = refl
more_empty (some us) = ap some (append-nil us)

more_one :
    (o : Option (List (List ℕ))) (w : List ℕ) (ws : List (List ℕ))
    → more (more o (w ∷ [])) ws ≡ more o (w ∷ ws)
more_one none w ws = refl
more_one (some us) w ws = ap some (append_assoc us (w ∷ []) ws)

more-found :
    (o : Option (List (List ℕ))) (v : List ℕ) → some (found o ++ (v ∷ [])) ≡ more o (v ∷ [])
more-found none v = refl
more-found (some us) v = refl

get-add :
    (key k value : List ℕ) (vs : Values)
    → values_get key (values_add k value vs)
      ≡ (if bytes_eq key k then more (values_get key vs) (value ∷ []) else values_get key vs)
unfolding values_add
get-add key k value vs = get-update key k (λ old. old ++ (value ∷ [])) vs ∙ rw more-found refl

get-add_values :
    (key k : List ℕ) (ws : List (List ℕ)) (acc : Values)
    → values_get key (add_values k ws acc)
      ≡ (if bytes_eq key k then more (values_get key acc) ws else values_get key acc)
get-add_values key k [] acc = elim (Bool-cases (bytes_eq key k)) [
  | inl same ↦ rw same (sym (more_empty (values_get key acc)))
  | inr other ↦ rw other refl
]
get-add_values key k (w ∷ ws) acc = elim (Bool-cases (bytes_eq key k)) [
  | inl same ↦
      rw (get-add_values key k ws (values_add k w acc), get-add, same)
        (more_one (values_get key acc) w ws)
  | inr other ↦ rw (get-add_values key k ws (values_add k w acc), get-add, other) refl
]

-- The values of a key with those of a query.
abbrev and_more : Option (List (List ℕ)) → Option (List (List ℕ)) → Option (List (List ℕ))
and_more o none = o
and_more o (some ws) = more o ws

get-apart : (key : List ℕ) (vs : Values) → All (λ f. key ≢ f.0) vs → values_get key vs ≡ none
unfolding values_get
get-apart key [] h = refl
get-apart key ((k, ws) ∷ vs) h = rw (bytes_ne key k h.0, get-apart key vs h.1) refl

get-add_all :
    (key : List ℕ) (vs acc : Values)
    → Distinct vs
    → values_get key (add_all vs acc) ≡ and_more (values_get key acc) (values_get key vs)
unfolding values_get
get-add_all key [] acc h = refl
get-add_all key ((k, ws) ∷ vs) acc h =
    get-add_all key vs (add_values k ws acc) h.1 ∙ elim (Bool-cases (bytes_eq key k)) [
      | inl same ↦
          let none_later : values_get key vs ≡ none =
            get-apart key vs
              (subst (λ x. All (λ f. x ≢ f.0) vs) (sym (bytes_eq→eq key k same)) h.0) in
          rw (none_later, get-add_values, same) refl
      | inr other ↦ rw (get-add_values, other) refl
    ]

more_values : (ws : List (List ℕ)) → ws ≢ [] → more none ws ≡ some ws
more_values [] h = absurd (h refl)
more_values (w ∷ ws) h = refl

and_more-get :
    (key : List ℕ) (vs : Values)
    → All IsEntry vs
    → and_more none (values_get key vs) ≡ values_get key vs
unfolding values_get
and_more-get key [] h = refl
and_more-get key ((k, ws) ∷ vs) h = elim (Bool-cases (bytes_eq key k)) [
  | inl same ↦ rw (same) (more_values ws h.0.some_value)
  | inr other ↦ rw (other) (and_more-get key vs h.1)
]

-- A query that has one entry for each of its keys, with values, is encoded by Values.Encode into
-- bytes that URL.Query parses back to the same values, in the same order, of every key.
pub parse_query-encode_values :
    (key : List ℕ) (vs : Values)
    → All IsEntry vs
    → Distinct vs
    → values_get key (parse_query (encode_values vs)) ≡ values_get key vs
unfolding parse_query encode_values values_get
parse_query-encode_values key vs h d =
    let sorted : All IsEntry (sort_keys vs) = sort_keys-All IsEntry vs h in
    ap (values_get key) (parsed-pairs (sort_keys vs) [] sorted)
    ∙ get-add_all key (sort_keys vs) [] (sort_keys-Distinct vs d)
    ∙ and_more-get key (sort_keys vs) sorted
    ∙ get-sort_keys key vs d
