-- ===== src/Metainfo/Layout.antt =====
-- The layouts that `toTorrentFile` accepts.
use bittorrent_client.Base.{
  ==_iff, All, Bool-cases, List, Result, ap, ap₂, arith, concat, concat-slices, err, false, inl,
  inr, is_negative, is_positive, length, length-concat, ltb, negsuc, ok, pos, refl, slices,
  slices-All, slices-concat, subst, suc, sym, take_all, true, zero, ℕ, ℤ, ◌%◌, ◌*◌, ◌+◌, ◌-◌, ◌/◌,
  ◌<◌, ◌==◌, ◌^◌, ◌↔◌, ◌∙◌, ◌≡◌, ◌≤◌,
}
use bittorrent_client.Metainfo.{
  Info, MetaInfo, TorrentFile, split_piece_hashes, expected_piece_count, LayoutError,
  to_torrent_file, with_hashes,
}
use native.Mathlib.Nat.{lt-div-mul-add, div-mul-le_self, div-lt_iff_lt-mul, le-div_iff_mul-le}

-- The hashes of a pieces string: 20 bytes each, and nothing between or after them.
pub record Hashes (pieces : List ℕ) (hashes : List (List ℕ)) : Type 0 where
  pub whole : All (λ h. length h ≡ 20) hashes
  pub joined : pieces ≡ concat hashes

split_piece_hashes-Hashes :
    (i : Info) (hashes : List (List ℕ)) → split_piece_hashes i ≡ ok hashes → Hashes i.pieces hashes
unfolding split_piece_hashes
split_piece_hashes-Hashes i hashes e = elim (Bool-cases (length i.pieces % 20 == 0)) [
  | inr odd ↦ absurd (ground arith)
  | inl even ↦
      let same : slices 20 (length i.pieces / 20) 0 i.pieces ≡ hashes = ground arith in
      subst (Hashes i.pieces) same (record {
        whole = slices-All 20 (length i.pieces / 20) 0 i.pieces (omega arith);
        joined = sym (
            concat-slices 20 (length i.pieces / 20) 0 i.pieces
            ∙ take_all (length i.pieces / 20 * 20) i.pieces (ground arith));
      })
]

Hashes-split_piece_hashes :
    (i : Info) (hashes : List (List ℕ)) → Hashes i.pieces hashes → split_piece_hashes i ≡ ok hashes
unfolding split_piece_hashes
Hashes-split_piece_hashes i hashes h =
    let size : length i.pieces ≡ length hashes * 20 =
      ap length h.joined ∙ length-concat 20 hashes h.whole in
    let even : (length i.pieces % 20 == 0) ≡ true = ground arith in
    let count : length i.pieces / 20 ≡ length hashes = omega arith in
    rw (even, count) (ap ok (slices-concat 20 0 hashes i.pieces h.whole h.joined))

-- `k` pieces of `size` bytes cover `n` bytes, and the last of them is used.
abbrev pub Covers : ℕ → ℕ → ℕ → Type 0
Covers size n k = (n ≤ k * size) × (k * size < n + size)

-- The layout of `t` is the one that the metainfo declares.
pub record Layout (m : MetaInfo) (info_hash : List ℕ) (t : TorrentFile) : Type 0 where
  pub size : ℕ
  pub n : ℕ
  pub positive : 0 < size
  pub piece_length_eq : m.info.piece_length ≡ pos size
  pub len_eq : m.info.len ≡ pos n
  pub hashes : Hashes m.info.pieces t.piece_hashes
  pub count : length t.piece_hashes ≤ 2 ^ 32
  pub covers : Covers size n (length t.piece_hashes)
  pub fields : t ≡ record {
    announce = m.announce;
    info_hash = info_hash;
    piece_hashes = t.piece_hashes;
    piece_length = pos size;
    len = pos n;
    name = m.info.name;
  }

-- The quotient rounded up.
Covers-ceiling : (n size : ℕ) → 0 < size → Covers size (suc n) (1 + n / size)
Covers-ceiling n size h =
    (omega (arith, lt-div-mul-add {a = n} {b = size} h), omega (arith, div-mul-le_self n size))

Covers-unique : (n size k : ℕ) → 0 < size → Covers size (suc n) k → k ≡ 1 + n / size
Covers-unique n size zero h c = absurd (omega (arith, c))
Covers-unique n size (suc k) h c =
    let upper : n / size < suc k =
      (div-lt_iff_lt-mul {k = size} {x = n} {y = suc k} h).1 (omega (arith, c)) in
    let lower : k ≤ n / size =
      (le-div_iff_mul-le {k = size} {x = k} {y = n} h).1 (omega (arith, c)) in
    omega (arith, upper, lower)

Covers-none : (size k : ℕ) → Covers size 0 k → k ≡ 0
Covers-none size zero c = refl
Covers-none size (suc k) c = absurd (omega (arith, c))

-- The expected count is the only number of pieces that covers the content.
expected_piece_count-Covers :
    (n size k : ℕ) → (k ≡ expected_piece_count (pos n) (pos (suc size))) ↔ Covers (suc size) n k
unfolding expected_piece_count
expected_piece_count-Covers zero size k =
    (λ e. subst (Covers (suc size) 0) (sym e) (omega arith, omega arith), Covers-none (suc size) k)
expected_piece_count-Covers (suc n) size k =
    let less : suc n - 1 ≡ n = omega arith in
    let count : expected_piece_count (pos (suc n)) (pos (suc size)) ≡ 1 + n / suc size =
      ap (λ (j : ℕ). 1 + j / suc size) less in
    (
      λ e.
          subst (Covers (suc size) (suc n)) (sym (e ∙ count))
            (Covers-ceiling n (suc size) (omega arith)),
      λ c. Covers-unique n (suc size) k (omega arith) c ∙ sym count,
    )

abbrev built : MetaInfo → List ℕ → List (List ℕ) → ℤ → ℤ → TorrentFile
built m info_hash hashes piece_length len = record {
  announce = m.announce;
  info_hash = info_hash;
  piece_hashes = hashes;
  piece_length = piece_length;
  len = len;
  name = m.info.name;
}

-- The layout once the two lengths are known.
with_hashes-Layout :
    (m : MetaInfo) (info_hash : List ℕ) (t : TorrentFile) (size n : ℕ)
    (r : Result LayoutError (List (List ℕ)))
    → m.info.piece_length ≡ pos (suc size)
    → m.info.len ≡ pos n
    → split_piece_hashes m.info ≡ r
    → with_hashes m info_hash r ≡ ok t
    → Layout m info_hash t
unfolding with_hashes
with_hashes-Layout m info_hash t size n (err e) p l r h = absurd (ground arith)
with_hashes-Layout m info_hash t size n (ok hashes) p l r h =
    elim (Bool-cases (ltb (2 ^ 32) (length hashes))) [
      | inl many ↦ absurd (ground arith)
      | inr few ↦
          elim (Bool-cases (length hashes == expected_piece_count m.info.len m.info.piece_length)) [
            | inr other ↦ absurd (ground arith)
            | inl right ↦
                let same : built m info_hash hashes m.info.piece_length m.info.len ≡ t =
                  ground arith in
                let count : length hashes ≡ expected_piece_count (pos n) (pos (suc size)) =
                  (==_iff (length hashes) (expected_piece_count m.info.len m.info.piece_length)).0
                    right
                  ∙ ap₂ expected_piece_count l p in
                subst (Layout m info_hash) same (record {
                  size = suc size;
                  n = n;
                  positive = omega arith;
                  piece_length_eq = p;
                  len_eq = l;
                  hashes = split_piece_hashes-Hashes m.info hashes r;
                  count = ground arith;
                  covers = (expected_piece_count-Covers n size (length hashes)).0 count;
                  fields = ap₂ (built m info_hash hashes) p l;
                })
          ]
    ]

accepted-Layout :
    (m : MetaInfo) (info_hash : List ℕ) (t : TorrentFile) (x y : ℤ)
    → m.info.piece_length ≡ x
    → m.info.len ≡ y
    → to_torrent_file m info_hash ≡ ok t
    → Layout m info_hash t
unfolding to_torrent_file
accepted-Layout m info_hash t (pos zero) y p l h = absurd (ground arith)
accepted-Layout m info_hash t (negsuc k) y p l h = absurd (ground arith)
accepted-Layout m info_hash t (pos (suc k)) (negsuc j) p l h = absurd (ground arith)
accepted-Layout m info_hash t (pos (suc k)) (pos n) p l h =
    with_hashes-Layout m info_hash t k n (split_piece_hashes m.info) p l refl
      (rw (ap is_positive p, ap is_negative l) at h)

Layout-accepted :
    (m : MetaInfo) (info_hash : List ℕ) (t : TorrentFile) (size n : ℕ)
    → m.info.piece_length ≡ pos (suc size)
    → m.info.len ≡ pos n
    → Hashes m.info.pieces t.piece_hashes
    → length t.piece_hashes ≤ 2 ^ 32
    → Covers (suc size) n (length t.piece_hashes)
    → t ≡ built m info_hash t.piece_hashes (pos (suc size)) (pos n)
    → to_torrent_file m info_hash ≡ ok t
unfolding to_torrent_file with_hashes
Layout-accepted m info_hash t size n p l hashes count covers fields =
    let few : ltb (2 ^ 32) (length t.piece_hashes) ≡ false = ground arith in
    let right : (length t.piece_hashes == expected_piece_count m.info.len m.info.piece_length)
        ≡ true =
      (==_iff (length t.piece_hashes) (expected_piece_count m.info.len m.info.piece_length)).1 (
        (expected_piece_count-Covers n size (length t.piece_hashes)).1 covers
        ∙ sym (ap₂ expected_piece_count l p)) in
    rw
      (
        ap is_positive p,
        ap is_negative l,
        Hashes-split_piece_hashes m.info t.piece_hashes hashes,
        few,
        right,
      )
      (ap ok (sym (fields ∙ sym (ap₂ (built m info_hash t.piece_hashes) p l))))

accepted_of_Layout :
    (m : MetaInfo) (info_hash : List ℕ) (t : TorrentFile) (size : ℕ) (l : Layout m info_hash t)
    → l.size ≡ size
    → to_torrent_file m info_hash ≡ ok t
accepted_of_Layout m info_hash t zero l e = absurd (omega (arith, l.positive, e))
accepted_of_Layout m info_hash t (suc k) l e =
    Layout-accepted m info_hash t k l.n (l.piece_length_eq ∙ ap pos e) l.len_eq l.hashes l.count
      (subst (λ d. Covers d l.n (length t.piece_hashes)) e l.covers)
      (l.fields ∙ ap (λ d. built m info_hash t.piece_hashes (pos d) (pos l.n)) e)

-- `toTorrentFile` accepts a metainfo exactly when its piece length is positive, its length is not
-- negative, its pieces string is a sequence of hashes of 20 bytes, at most 2 ^ 32, and that many
-- pieces cover the length with the last piece in use (none for an empty file). The torrent file
-- that it returns then has these hashes and the fields of the metainfo.
pub to_torrent_file_iff :
    (m : MetaInfo) (info_hash : List ℕ) (t : TorrentFile)
    → (to_torrent_file m info_hash ≡ ok t) ↔ Layout m info_hash t
to_torrent_file_iff m info_hash t = (
  accepted-Layout m info_hash t m.info.piece_length m.info.len refl refl,
  λ l. accepted_of_Layout m info_hash t l.size l refl,
)
