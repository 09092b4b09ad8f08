-- ===== src/Tracker/Url/Updates.antt =====
-- What an update of a query changes.
use bittorrent_client.Base.{
  All, Bool-cases, List, Option, [], arith, bytes_eq, bytes_eq_self, bytes_eq→eq, false,
  if◌then◌else◌, inl, inr, none, refl, some, subst, sym, true, ℕ, ◌∙◌, ◌∷◌, ◌≡◌, ◌≢◌,
}
use bittorrent_client.Tracker.Url.{Values, values_get, values_set, values_update}

-- The values of a key, or nil.
abbrev pub found : Option (List (List ℕ)) → List (List ℕ)
found none = []
found (some vs) = vs

pub get-update :
    (key k : List ℕ) (f : List (List ℕ) → List (List ℕ)) (vs : Values)
    → values_get key (values_update k f vs)
      ≡ (if bytes_eq key k then some (f (found (values_get key vs))) else values_get key vs)
unfolding values_get values_update
get-update key k f [] = refl
get-update key k f ((j, ws) ∷ vs) = elim (Bool-cases (bytes_eq k j)) [
  | inl same ↦
      rw (same, sym (bytes_eq→eq k j same))
        (elim (Bool-cases (bytes_eq key k)) [ inl here ↦ rw here refl | inr there ↦ rw there refl ])
  | inr other ↦ elim (Bool-cases (bytes_eq key k)) [
    | inl here ↦
        let apart : bytes_eq key j ≡ false =
          subst (λ x. bytes_eq x j ≡ false) (sym (bytes_eq→eq key k here)) other in
        rw (other, here, apart, get-update key k f vs) (rw here refl)
    | inr there ↦ rw (other, there, get-update key k f vs) (rw there refl)
  ]
]

pub get-set :
    (key k value : List ℕ) (vs : Values)
    → values_get key (values_set k value vs)
      ≡ (if bytes_eq key k then some (value ∷ []) else values_get key vs)
unfolding values_set
get-set key k value vs = get-update key k (λ old. value ∷ []) vs

-- No key has two entries, as in a map.
abbrev pub Distinct : Values → Type 0
Distinct [] = Unit
Distinct (e ∷ rest) = All (λ f. e.0 ≢ f.0) rest × Distinct rest

pub update-All :
    (P : List ℕ × List (List ℕ) → Type 0) (k : List ℕ) (f : List (List ℕ) → List (List ℕ))
    (vs : Values)
    → P (k, f [])
    → ((ws : List (List ℕ)) → P (k, ws) → P (k, f ws))
    → All P vs
    → All P (values_update k f vs)
unfolding values_update
update-All P k f [] p step h = (p, tt)
update-All P k f ((j, ws) ∷ vs) p step h = elim (Bool-cases (bytes_eq k j)) [
  | inl same ↦ rw same (step ws (subst (λ x. P (x, ws)) (sym (bytes_eq→eq k j same)) h.0), h.1)
  | inr other ↦ rw other (h.0, update-All P k f vs p step h.1)
]

pub update-Distinct :
    (k : List ℕ) (f : List (List ℕ) → List (List ℕ)) (vs : Values)
    → Distinct vs
    → Distinct (values_update k f vs)
unfolding values_update
update-Distinct k f [] h = (tt, tt)
update-Distinct k f ((j, ws) ∷ vs) h = elim (Bool-cases (bytes_eq k j)) [
  | inl same ↦ rw same (subst (λ x. All (λ g. x ≢ g.0) vs) (sym (bytes_eq→eq k j same)) h.0, h.1)
  | inr other ↦
      let apart : j ≢ k = λ q.
        absurd (
          ground (arith, sym other ∙ subst (λ x. bytes_eq k x ≡ true) (sym q) (bytes_eq_self k))) in
      rw other (update-All (λ g. j ≢ g.0) k f vs apart (λ us p. p) h.0, update-Distinct k f vs h.1)
]
