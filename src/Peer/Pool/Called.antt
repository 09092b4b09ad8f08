-- ===== src/Peer/Pool/Called.antt =====
-- A Pool that is cancelled, or that Close was called on, stays so, and Close cancels.
use bittorrent_client.Base.{List, arith, refl, true, ℕ, ◌≡◌}
use bittorrent_client.Peer.Pool.{
  Pool, Step, cancels, closes, feeds, feeds_all, feeds_no_more, worker_cancelled, worker_ends,
  acquires, acquires_no_more, connects, fails, fails_open, reports, hands_over, drops_failure,
  drops_connection, queues, discards, finishes, claims, claims_late, drains, Reach, begins, goes,
}

module _ (A : Type 0) where
  pub Step-cancelled : {s t : Pool A} → Step A s t → s.cancelled ≡ true → t.cancelled ≡ true
  Step-cancelled (cancels _) k = refl
  Step-cancelled (closes _) k = refl
  Step-cancelled (feeds _ _ _ _ _ _ _) k = k
  Step-cancelled (feeds_all _ _) k = k
  Step-cancelled (feeds_no_more _ _) k = k
  Step-cancelled (worker_cancelled _ _ _ _) k = k
  Step-cancelled (worker_ends _ _ _ _) k = k
  Step-cancelled (acquires _ _ _ _ _) k = k
  Step-cancelled (acquires_no_more _ _ _ _ _) k = k
  Step-cancelled (connects _ _ _ _) k = k
  Step-cancelled (fails _ _ _ _ _) k = k
  Step-cancelled (fails_open _ _ _ _ _) k = k
  Step-cancelled (reports _ _ _ _ _ _) k = k
  Step-cancelled (hands_over _ _ _ _ _ _) k = k
  Step-cancelled (drops_failure _ _ _ _ _ _) k = k
  Step-cancelled (drops_connection _ _ _ _ _ _) k = k
  Step-cancelled (queues _ _ _ _) k = k
  Step-cancelled (discards _ _ _ _) k = k
  Step-cancelled (finishes _ _) k = k
  Step-cancelled (claims _ _ _ _ _) k = k
  Step-cancelled (claims_late _ _ _ _ _) k = k
  Step-cancelled (drains _ _ _ _ _ _) k = k

  pub Step-closing : {s t : Pool A} → Step A s t → s.closing ≡ true → t.closing ≡ true
  Step-closing (cancels _) k = k
  Step-closing (closes _) k = refl
  Step-closing (feeds _ _ _ _ _ _ _) k = k
  Step-closing (feeds_all _ _) k = k
  Step-closing (feeds_no_more _ _) k = k
  Step-closing (worker_cancelled _ _ _ _) k = k
  Step-closing (worker_ends _ _ _ _) k = k
  Step-closing (acquires _ _ _ _ _) k = k
  Step-closing (acquires_no_more _ _ _ _ _) k = k
  Step-closing (connects _ _ _ _) k = k
  Step-closing (fails _ _ _ _ _) k = k
  Step-closing (fails_open _ _ _ _ _) k = k
  Step-closing (reports _ _ _ _ _ _) k = k
  Step-closing (hands_over _ _ _ _ _ _) k = k
  Step-closing (drops_failure _ _ _ _ _ _) k = k
  Step-closing (drops_connection _ _ _ _ _ _) k = k
  Step-closing (queues _ _ _ _) k = k
  Step-closing (discards _ _ _ _) k = k
  Step-closing (finishes _ _) k = k
  Step-closing (claims _ _ _ _ _) k = k
  Step-closing (claims_late _ _ _ _ _) k = k
  Step-closing (drains _ _ _ _ _ _) k = k

  Step-called :
      {s t : Pool A}
      → Step A s t
      → (s.closing ≡ true → s.cancelled ≡ true)
      → t.closing ≡ true
      → t.cancelled ≡ true
  Step-called (cancels _) h = λ _. refl
  Step-called (closes _) h = λ _. refl
  Step-called (feeds _ _ _ _ _ _ _) h = h
  Step-called (feeds_all _ _) h = h
  Step-called (feeds_no_more _ _) h = h
  Step-called (worker_cancelled _ _ _ _) h = h
  Step-called (worker_ends _ _ _ _) h = h
  Step-called (acquires _ _ _ _ _) h = h
  Step-called (acquires_no_more _ _ _ _ _) h = h
  Step-called (connects _ _ _ _) h = h
  Step-called (fails _ _ _ _ _) h = h
  Step-called (fails_open _ _ _ _ _) h = h
  Step-called (reports _ _ _ _ _ _) h = h
  Step-called (hands_over _ _ _ _ _ _) h = h
  Step-called (drops_failure _ _ _ _ _ _) h = h
  Step-called (drops_connection _ _ _ _ _ _) h = h
  Step-called (queues _ _ _ _) h = h
  Step-called (discards _ _ _ _) h = h
  Step-called (finishes _ _) h = h
  Step-called (claims _ _ _ _ _) h = h
  Step-called (claims_late _ _ _ _ _) h = h
  Step-called (drains _ _ _ _ _ _) h = h

  -- Close cancels.
  pub Reach-called :
      {max_concurrent : ℕ} {addrs : List A} {s : Pool A}
      → Reach A max_concurrent addrs s
      → s.closing ≡ true
      → s.cancelled ≡ true
  Reach-called begins q = absurd (ground (arith, q))
  Reach-called (goes r step) q = Step-called step (Reach-called r) q
