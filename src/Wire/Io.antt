-- ===== src/Wire/Io.antt =====
-- The connection under the readers of internal/peerwire, and what they use of Go's `io` on it:
-- `io.ReadFull` and `io.CopyN` into `io.Discard`.
use bittorrent_client.Base.{
  Bool-cases, Flow, List, Returns, [], arith, done, drop, drop-append, fail, if◌then◌else◌, inl,
  inr, leb, leb→le, length, length-append, length-take, le→leb, refl, suc, take, take-append,
  take-append-drop, zero, ℕ, ◌++◌, ◌<◌, ◌≡◌, ◌≤◌, ◌⊎◌,
}

-- `fault n` is any error of the connection that is none of `io`'s: a timeout, a reset.
pub data IoError : Type 0 where
  eof unexpected_eof no_progress : IoError
  fault : ℕ → IoError

-- The bytes that still arrive, and the error of a read after the last of them. How they are cut
-- into reads does not show: every reader of the package asks for a fixed number.
pub record Stream : Type 0 where
  pub bytes : List ℕ
  pub ending : IoError

-- The error of `io.ReadFull` when only `got` bytes came.
pub cut_off : ℕ → IoError → IoError
cut_off zero e = e
cut_off (suc n) eof = unexpected_eof
cut_off (suc n) e = e

abbrev pub rest : Stream → List ℕ → Stream
rest s bs = record s { bytes = bs }

-- io.ReadFull(r, buf) with len(buf) = n
unfoldable pub read_full : ℕ → Stream → Flow IoError Stream (List ℕ)
unfolding cut_off
read_full n s =
    if leb n (length s.bytes)
    then done (take n s.bytes) (rest s (drop n s.bytes))
    else fail (cut_off (length s.bytes) s.ending) (rest s [])

-- io.CopyN(io.Discard, r, n)
unfoldable pub discard : ℕ → Stream → Flow IoError Stream (Unit {0})
discard n s =
    if leb n (length s.bytes) then done tt (rest s (drop n s.bytes)) else fail s.ending (rest s [])

-- Bytes at the head of the stream are read as they are.
pub read_full-append :
    (n : ℕ) (xs ys : List ℕ) (e : IoError)
    → length xs ≡ n
    → read_full n (record { bytes = xs ++ ys; ending = e })
      ≡ done xs (record { bytes = ys; ending = e })
unfolding read_full
read_full-append n xs ys e h =
    rw
      (
        le→leb n (length (xs ++ ys)) (omega (arith, length-append xs ys)),
        take-append n xs ys h,
        drop-append n xs ys h,
      )
      refl

pub discard-append :
    (n : ℕ) (xs ys : List ℕ) (e : IoError)
    → length xs ≡ n
    → discard n (record { bytes = xs ++ ys; ending = e })
      ≡ done tt (record { bytes = ys; ending = e })
unfolding discard
discard-append n xs ys e h =
    rw (le→leb n (length (xs ++ ys)) (omega (arith, length-append xs ys)), drop-append n xs ys h)
      refl

-- What a successful read took, and what it left.
pub record Took (n : ℕ) (s : Stream) (xs : List ℕ) (t : Stream) : Type 0 where
  pub size : length xs ≡ n
  pub split : s.bytes ≡ xs ++ t.bytes
  pub same_ending : t.ending ≡ s.ending

pub read_full-Took :
    (n : ℕ) (s t : Stream) (xs : List ℕ) → read_full n s ≡ done xs t → Took n s xs t
unfolding read_full
read_full-Took n s t xs h = record {
  size = ground (arith, length-take n s.bytes);
  split = ground (arith, take-append-drop n s.bytes);
  same_ending = ground arith;
}

-- A read of `n` bytes ends in one of two ways, by whether as many are left.
pub read_full_cases :
    (n : ℕ) (s : Stream)
    → ((n ≤ length s.bytes) × (read_full n s ≡ done (take n s.bytes) (rest s (drop n s.bytes))))
      ⊎ ((length s.bytes < n)
          × (read_full n s ≡ fail (cut_off (length s.bytes) s.ending) (rest s [])))
unfolding read_full
read_full_cases n s = elim (Bool-cases (leb n (length s.bytes))) [
  | inl e ↦ inl (leb→le n (length s.bytes) e, rw e)
  | inr e ↦ inr (ground arith, rw e)
]

pub discard_cases :
    (n : ℕ) (s : Stream)
    → ((n ≤ length s.bytes) × (discard n s ≡ done tt (rest s (drop n s.bytes))))
      ⊎ ((length s.bytes < n) × (discard n s ≡ fail s.ending (rest s [])))
unfolding discard
discard_cases n s = elim (Bool-cases (leb n (length s.bytes))) [
  | inl e ↦ inl (leb→le n (length s.bytes) e, rw e)
  | inr e ↦ inr (ground arith, rw e)
]

pub discard-Took :
    (n : ℕ) (s t : Stream) (u : Unit {0}) → discard n s ≡ done u t → Took n s (take n s.bytes) t
unfolding discard
discard-Took n s t u h = record {
  size = ground (arith, length-take n s.bytes);
  split = ground (arith, take-append-drop n s.bytes);
  same_ending = ground arith;
}

pub read_full-Returns : (n : ℕ) (s : Stream) → Returns (read_full n s)
unfolding read_full
read_full-Returns n s = ground arith
