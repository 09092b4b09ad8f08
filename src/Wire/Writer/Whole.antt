-- ===== src/Wire/Writer/Whole.antt =====
-- Messages on a writer that takes all it is given.
use bittorrent_client.Base.{List, ap, arith, false, length, ltb, none, true, ℕ, ◌+◌, ◌==◌, ◌∷◌, ◌≡◌}
use bittorrent_client.Wire.Writer.{Writer, settle, write_full, write_loop, written}

-- Every Write takes all bytes and gives no error.
pub record TakesAll (w : Writer) : Type 0 where
  pub all : (s : w.State) (p : List ℕ) → (w.write s p).count ≡ length p
  pub no_error : (s : w.State) (p : List ℕ) → (w.write s p).error ≡ none

module _ (w : Writer) (t : TakesAll w) where
  open w use {State, write}

  -- The writer after the one Write of all.
  pub write_full-TakesAll :
      (x : ℕ) (p : List ℕ) (s : State)
      → write_full w (x ∷ p) s ≡ written (length (x ∷ p)) none ((write s (x ∷ p)).next)
  unfolding write_full write_loop settle
  write_full-TakesAll x p s =
      let busy : (length (x ∷ p) == 0) ≡ false = ground arith in
      let starts : ltb 0 (length (x ∷ p)) ≡ true = ground arith in
      let ended : ltb (0 + length (x ∷ p)) (length (x ∷ p)) ≡ false = ground arith in
      rw (t.all s (x ∷ p), t.no_error s (x ∷ p), ended, busy, starts)
        (ap (λ k. written k none ((write s (x ∷ p)).next)) (omega arith))
