-- ===== src/Base/Slices.antt =====
-- A byte string cut into slices of one length, as the loops over fixed-size records cut it.
use Prim.Native.Nat.{ℕ, zero, suc, ◌+◌, ◌*◌, ◌≤◌}
use mathlib.Core.Path.{◌≡◌, refl, sym, ap, ap₂, ◌∙◌}
use mathlib.Core.List.{List, [], ◌∷◌, ◌++◌}
use native.Mathlib.Omega.{arith}
use bittorrent_client.Base.Lists.{
  All, length, take, drop, length-append, length-take, length-drop, drop-drop, take-append,
  drop-append, take-append-take-drop,
}

module _ {ℓ} {A : Type ℓ} where
  abbrev pub concat : List (List A) → List A
  concat [] = []
  concat (x ∷ xs) = x ++ concat xs

  -- `k` slices of `n` elements, from the offset on
  unfoldable pub slices : ℕ → ℕ → ℕ → List A → List (List A)
  slices n zero offset xs = []
  slices n (suc k) offset xs = take n (drop offset xs) ∷ slices n k (offset + n) xs

  pub length-slices : (n k offset : ℕ) (xs : List A) → length (slices n k offset xs) ≡ k
  unfolding slices
  length-slices n zero offset xs = refl
  length-slices n (suc k) offset xs = ap suc (length-slices n k (offset + n) xs)

  pub slices-All :
      (n k offset : ℕ) (xs : List A)
      → offset + k * n ≤ length xs
      → All (λ x. length x ≡ n) (slices n k offset xs)
  unfolding slices
  slices-All n zero offset xs h = tt
  slices-All n (suc k) offset xs h = (
    omega (arith, length-take n (drop offset xs), length-drop offset xs),
    slices-All n k (offset + n) xs (omega arith),
  )

  -- The slices are what they were cut from.
  pub concat-slices :
      (n k offset : ℕ) (xs : List A) → concat (slices n k offset xs) ≡ take (k * n) (drop offset xs)
  unfolding slices
  concat-slices n zero offset xs =
      let none_left : zero * n ≡ 0 = omega arith in
      sym (ap (λ (m : ℕ). take m (drop offset xs)) none_left)
  concat-slices n (suc k) offset xs =
      ap (◌++◌ (take n (drop offset xs))) (
        concat-slices n k (offset + n) xs
        ∙ ap (take (k * n)) (sym (drop-drop offset n (offset + n) xs refl)))
      ∙ take-append-take-drop n (k * n) (suc k * n) (drop offset xs) (omega arith)

  -- Parts of one length are the slices of what they make.
  pub slices-concat :
      (n offset : ℕ) (parts : List (List A)) (xs : List A)
      → All (λ x. length x ≡ n) parts
      → drop offset xs ≡ concat parts
      → slices n (length parts) offset xs ≡ parts
  unfolding slices
  slices-concat n offset [] xs h e = refl
  slices-concat n offset (p ∷ parts) xs h e =
      ap₂ ◌∷◌ (ap (take n) e ∙ take-append n p (concat parts) h.0) (
        slices-concat n (offset + n) parts xs h.1 (
          sym (drop-drop offset n (offset + n) xs refl)
          ∙ ap (drop n) e
          ∙ drop-append n p (concat parts) h.0))

  pub length-concat :
      (n : ℕ) (parts : List (List A))
      → All (λ x. length x ≡ n) parts
      → length (concat parts) ≡ length parts * n
  length-concat n [] h = omega arith
  length-concat n (p ∷ parts) h =
      omega (arith, length-append p (concat parts), length-concat n parts h.1, h.0)
