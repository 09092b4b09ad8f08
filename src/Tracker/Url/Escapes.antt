-- ===== src/Tracker/Url/Escapes.antt =====
-- Escaping and unescaping.
use bittorrent_client.Base.{
  All, All-append, Bool-cases, List, Option, [], ap, arith, false, inl, inr, none, refl, some, sym,
  true, ℕ, ◌%◌, ◌*◌, ◌++◌, ◌+◌, ◌/◌, ◌<◌, ◌==◌, ◌∙◌, ◌∷◌, ◌≡◌, ◌≢◌, ◌⊎◌,
}
use bittorrent_client.Wire.Endian.{IsBytes}
use bittorrent_client.Tracker.Url.{
  between, escape_byte, hex_digit, outside, put, query_escape, query_unescape, unescape, unhex,
  unreserved, first_digit, second_digit, unescape_byte,
}

-- None of `%`, `&`, `+`, `;` and `=`.
abbrev Plain : ℕ → Type 0
Plain c = (c ≢ 37) × (c ≢ 38) × (c ≢ 43) × (c ≢ 59) × (c ≢ 61)

unreserved-Plain : (c : ℕ) → unreserved c ≡ true → Plain c
unfolding unreserved between
unreserved-Plain c h = (ground arith, ground arith, ground arith, ground arith, ground arith)

unhex-hex_digit : (d : ℕ) → d < 16 → unhex (hex_digit d) ≡ some d
unfolding unhex hex_digit between
unhex-hex_digit d h = ground arith

hex_digit-Plain : (d : ℕ) → d < 16 → Plain (hex_digit d)
unfolding hex_digit
hex_digit-Plain d h = (ground arith, ground arith, ground arith, ground arith, ground arith)

unescape_byte-plain : (c : ℕ) → c ≢ 37 → c ≢ 43 → unescape_byte outside c ≡ (outside, c ∷ [])
unfolding unescape_byte
unescape_byte-plain c h k =
    let percent : (c == 37) ≡ false = ground arith in
    let plus : (c == 43) ≡ false = ground arith in rw (percent, plus) refl

put_none : (o : Option (List ℕ)) → put [] o ≡ o
put_none none = refl
put_none (some cs) = refl

-- An escape of two digits.
unescape_byte-digits :
    (h l : ℕ) (t : List ℕ)
    → h < 16
    → l < 16
    → unescape outside (37 ∷ hex_digit h ∷ hex_digit l ∷ t)
      ≡ put ((h * 16 + l) ∷ []) (unescape outside t)
unfolding unescape unescape_byte first_digit second_digit
unescape_byte-digits h l t a b =
    rw (unhex-hex_digit h a, unhex-hex_digit l b)
      (put_none (put [] (put ((h * 16 + l) ∷ []) (unescape outside t)))
        ∙ put_none (put ((h * 16 + l) ∷ []) (unescape outside t)))

unescape-escape_byte :
    (c : ℕ) (t : List ℕ)
    → c < 256
    → unescape outside (escape_byte c ++ t) ≡ put (c ∷ []) (unescape outside t)
unfolding escape_byte unescape
unescape-escape_byte c t h = elim (Bool-cases (unreserved c)) [
  | inl u ↦ rw (u, unescape_byte-plain c (unreserved-Plain c u).0 (unreserved-Plain c u).2) refl
  | inr r ↦ elim (Bool-cases (c == 32)) [
    | inl space ↦ rw (r, space) (ap (λ x. put (x ∷ []) (unescape outside t)) (ground arith))
    | inr other ↦
        rw (r, other)
          (unescape_byte-digits (c / 16) (c % 16) t (omega arith) (omega arith)
            ∙ ap (λ x. put (x ∷ []) (unescape outside t)) (omega arith))
  ]
]

pub query_unescape-query_escape :
    (s : List ℕ) → IsBytes s → query_unescape (query_escape s) ≡ some s
unfolding query_unescape query_escape unescape
query_unescape-query_escape [] h = refl
query_unescape-query_escape (c ∷ s) h =
    unescape-escape_byte c (query_escape s) h.0
    ∙ ap (put (c ∷ [])) (query_unescape-query_escape s h.1)

-- What the escaped bytes are not: `sep` is `&`, `;` or `=`.
abbrev pub Separator : ℕ → Type 0
Separator sep = (sep ≡ 38) ⊎ (sep ≡ 59) ⊎ (sep ≡ 61)

Plain-apart : (sep c : ℕ) → Separator sep → Plain c → c ≢ sep
Plain-apart sep c (inl e) p = λ q. p.1 (q ∙ e)
Plain-apart sep c (inr (inl e)) p = λ q. p.3 (q ∙ e)
Plain-apart sep c (inr (inr e)) p = λ q. p.4 (q ∙ e)

plus_apart : (sep : ℕ) → Separator sep → sep ≢ 43
plus_apart sep (inl e) = λ q. absurd (omega (arith, q, e))
plus_apart sep (inr (inl e)) = λ q. absurd (omega (arith, q, e))
plus_apart sep (inr (inr e)) = λ q. absurd (omega (arith, q, e))

percent_apart : (sep : ℕ) → Separator sep → sep ≢ 37
percent_apart sep (inl e) = λ q. absurd (omega (arith, q, e))
percent_apart sep (inr (inl e)) = λ q. absurd (omega (arith, q, e))
percent_apart sep (inr (inr e)) = λ q. absurd (omega (arith, q, e))

byte_apart : (sep c : ℕ) → Separator sep → c < 256 → All (λ x. x ≢ sep) (escape_byte c)
unfolding escape_byte
byte_apart sep c k h = elim (Bool-cases (unreserved c)) [
  | inl u ↦ rw u (Plain-apart sep c k (unreserved-Plain c u), tt)
  | inr r ↦ elim (Bool-cases (c == 32)) [
    | inl space ↦ rw (r, space) ((λ q. plus_apart sep k (sym q)), tt)
    | inr other ↦
        rw (r, other)
          (
            λ q. percent_apart sep k (sym q),
            (
              Plain-apart sep (hex_digit (c / 16)) k (hex_digit-Plain (c / 16) (omega arith)),
              (Plain-apart sep (hex_digit (c % 16)) k (hex_digit-Plain (c % 16) (omega arith)), tt),
            ),
          )
  ]
]

pub escaped_apart :
    (sep : ℕ) (s : List ℕ) → Separator sep → IsBytes s → All (λ c. c ≢ sep) (query_escape s)
unfolding query_escape
escaped_apart sep [] k h = tt
escaped_apart sep (c ∷ s) k h =
    All-append (λ x. x ≢ sep) (escape_byte c) (query_escape s) (byte_apart sep c k h.0)
      (escaped_apart sep s k h.1)
