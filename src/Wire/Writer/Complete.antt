-- ===== src/Wire/Writer/Complete.antt =====
-- What `writeFull` has sent when it returns, for every writer and every pattern of short writes.
use bittorrent_client.Base.{
  Bool, Bool-cases, List, Option, ap, append-nil, append_assoc, arith, drop, drop-drop, false, inl,
  inr, length, length-drop, ltb, none, refl, some, suc, sym, take, take-append-take-drop, true,
  zero, ℕ, ◌++◌, ◌+◌, ◌-◌, ◌<◌, ◌==◌, ◌∙◌, ◌≡◌, ◌≤◌,
}
use bittorrent_client.Wire.Io.{IoError}
use bittorrent_client.Wire.Writer.{
  Writer, Written, written, stalled, settle, write_loop, write_full,
}

module _ (w : Writer) where
  open w use {State, write, sent, count_le, sent-write}

  -- From `n` bytes on: the count, what the receiver got, and that no error means all of it.
  abbrev pub Progress : List ℕ → ℕ → State → Written State → Type 0
  Progress p n s (written m e t) =
      (n ≤ m)
      × (m ≤ length p)
      × (sent t ≡ sent s ++ take (m - n) (drop n p))
      × (e ≡ none → m ≡ length p)
  Progress p n s stalled = ⊥

  -- One Write and what follows it.
  settle-Progress :
      (p : List ℕ) (n : ℕ) (s : State) (c : ℕ) (t : State) (e : Option IoError) (idle : Bool)
      (again : Written State)
      → n ≤ length p
      → c ≤ length p - n
      → sent t ≡ sent s ++ take c (drop n p)
      → (idle ≡ false → Progress p (n + c) t again)
      → Progress p n s (settle (n + c) t e idle again)
  unfolding settle
  settle-Progress p n s c t (some e) idle again h b g k =
      (omega arith, omega arith, let i : n + c - n ≡ c = omega arith in rw i g, λ q. cc)
  settle-Progress p n s c t none true again h b g k =
      (omega arith, omega arith, let i : n + c - n ≡ c = omega arith in rw i g, λ q. cc)
  settle-Progress p n s c t none false (written m e u) h b g k =
      let q = k refl in
      (
        omega arith,
        q.1,
        q.2
            ∙ ap (λ l. l ++ take (m - (n + c)) (drop (n + c) p)) g
            ∙ append_assoc (sent s) (take c (drop n p)) (take (m - (n + c)) (drop (n + c) p))
            ∙ ap (λ l. sent s ++ (take c (drop n p) ++ take (m - (n + c)) l))
                (sym (drop-drop n c (n + c) p refl))
            ∙ ap (◌++◌ (sent s))
                (take-append-take-drop c (m - (n + c)) (m - n) (drop n p) (omega arith)),
        q.3,
      )
  settle-Progress p n s c t none false stalled h b g k = k refl

  write_loop-Progress :
      (fuel : ℕ) (p : List ℕ) (n : ℕ) (s : State)
      → length p < n + fuel
      → n ≤ length p
      → Progress p n s (write_loop w fuel p n s)
  unfolding write_loop
  write_loop-Progress zero p n s f h = absurd (omega arith)
  write_loop-Progress (suc fuel) p n s f h = elim (Bool-cases (ltb n (length p))) [
    | inl more ↦ rw more (
        settle-Progress p n s (write s (drop n p)).count (write s (drop n p)).next
          (write s (drop n p)).error ((write s (drop n p)).count == 0) _ h
          (omega (arith, count_le s (drop n p), length-drop n p)) (sent-write s (drop n p))
          (λ busy.
            write_loop-Progress fuel p (n + (write s (drop n p)).count) (write s (drop n p)).next
              (ground arith) (omega (arith, count_le s (drop n p), length-drop n p))))
    | inr all ↦ rw all (
      omega arith,
      h,
      let z : n - n ≡ 0 = omega arith in rw z (sym (append-nil (sent s))),
      λ q. ground arith,
    )
  ]

  -- `writeFull` returns for every writer, error or not. Its count is the number of bytes that the
  -- receiver got from it, which are a prefix of the data, and without an error they are all of it.
  pub write_full-Progress : (p : List ℕ) (s : State) → Progress p 0 s (write_full w p s)
  unfolding write_full
  write_full-Progress p s = write_loop-Progress (suc (length p)) p 0 s (omega arith) (omega arith)
