-- ===== src/Wire/Writer.antt =====
-- internal/peerwire/write.go: `writeFull` over any io.Writer.
pub mod Complete
pub mod Whole
use bittorrent_client.Base.{
  Bool, List, Option, drop, false, if◌then◌else◌, length, ltb, none, some, suc, take, true, zero, ℕ,
  ◌++◌, ◌+◌, ◌==◌, ◌≡◌, ◌≤◌,
}
use bittorrent_client.Wire.Io.{IoError, no_progress}

-- What one call of Write returns, and the writer after it.
pub record Wrote (S : Type 0) : Type 0 where
  pub count : ℕ
  pub error : Option IoError
  pub next : S

-- An io.Writer as the package documents it: it takes a prefix of the bytes, whose length it
-- returns, and an error or none. A short write with no error is allowed. `sent` is what the
-- receiver has got so far.
pub record Writer : Type 1 where
  pub State : Type 0
  pub write : State → List ℕ → Wrote State
  pub sent : State → List ℕ
  pub count_le : (s : State) (p : List ℕ) → (write s p).count ≤ length p
  pub sent-write :
      (s : State) (p : List ℕ) → sent (write s p).next ≡ sent s ++ take (write s p).count p

-- The count, the error if any, and the writer; `stalled` if the fuel of the loop ran out.
pub data Written (S : Type 0) : Type 0 where
  written : ℕ → Option IoError → S → Written S
  stalled : Written S

-- After one Write, with `n` bytes written so far: an error ends the loop, and so does a write of
-- nothing; otherwise the loop goes on.
unfoldable pub settle : {S : Type 0} → ℕ → S → Option IoError → Bool → Written S → Written S
settle n s (some e) idle again = written n (some e) s
settle n s none true again = written n (some no_progress) s
settle n s none false again = again

module _ (w : Writer) where
  open w use {State, write}

  -- The loop of `writeFull` with `n` bytes written.
  pub write_loop : ℕ → List ℕ → ℕ → State → Written State
  unfolding settle
  write_loop zero p n s = stalled
  write_loop (suc fuel) p n s =
      let r = write s (drop n p) in
      let again = write_loop fuel p (n + r.count) r.next in
      if ltb n (length p)
      then settle (n + r.count) r.next r.error (r.count == 0) again
      else written n none s

  unfoldable pub write_full : List ℕ → State → Written State
  unfolding write_loop
  write_full p s = write_loop (suc (length p)) p 0 s
