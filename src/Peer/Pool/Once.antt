-- ===== src/Peer/Pool/Once.antt =====
-- Which endpoints a Pool dials.
use bittorrent_client.Base.{
  Bool-cases, List, [], ap, arith, false, inl, inr, length, min, refl, true, ℕ, ◌+◌, ◌∙◌, ◌∷◌, ◌≡◌,
  ◌≤◌,
}
use bittorrent_client.Peer.Pool.{
  Worker, Pool, Step, Reach, idle, assigned, dialing, failed, connected, stopped, cancels, closes,
  feeds, feeds_all, feeds_no_more, worker_cancelled, worker_ends, acquires, acquires_no_more,
  connects, fails, fails_open, reports, hands_over, drops_failure, drops_connection, queues,
  discards, finishes, claims, claims_late, drains, begins, goes,
}
use bittorrent_client.Peer.Pool.Called.{Step-cancelled}
use bittorrent_client.Peer.Pool.Budget.{total, total_swap, total_idle}

exactly : {x y : ℕ} {P : Type 0} → x ≡ y → (x ≤ y) × (P → x ≡ y)
exactly h = (omega (arith, h), λ _. h)

module _ (A : Type 0) where
  pub still_open : {s t : Pool A} → Step A s t → t.cancelled ≡ false → s.cancelled ≡ false
  still_open {s} {t} step q = elim (Bool-cases s.cancelled) [
    | inr open_pool ↦ open_pool
    | inl closed_pool ↦
        let later : t.cancelled ≡ true = Step-cancelled A step closed_pool in
        absurd (ground (arith, later, q))
  ]

  -- The endpoint that a step starts to dial.
  abbrev dials : {s t : Pool A} → Step A s t → List A → List A
  dials (acquires pre post a room e) xs = a ∷ xs
  dials _ xs = xs

  -- The endpoints that were dialled, the last one first.
  abbrev pub dialled :
      {max_concurrent : ℕ} {addrs : List A} {s : Pool A} → Reach A max_concurrent addrs s → List A
  dialled begins = []
  dialled (goes r step) = dials step (dialled r)

  module _ (weight : A → ℕ) where
    abbrev pub weigh : List A → ℕ
    weigh [] = 0
    weigh (a ∷ xs) = weight a + weigh xs

    -- An endpoint that a worker has and has not dialled.
    abbrev pub waiting : Worker A → ℕ
    waiting (assigned a) = weight a
    waiting _ = 0

    -- The endpoints that are still to be dialled.
    abbrev pub left : Pool A → ℕ
    left s = weigh s.pending + total A waiting s.workers

    -- A step dials what leaves `left`, and only a cancelled one drops something.
    Step-left :
        {s t : Pool A} (step : Step A s t) (xs : List A)
        → (weigh (dials step xs) + left t ≤ weigh xs + left s)
          × (t.cancelled ≡ false → weigh (dials step xs) + left t ≡ weigh xs + left s)
    Step-left (cancels k) xs = exactly refl
    Step-left (closes k) xs = exactly refl
    Step-left (feeds pre post a later f p e) xs =
        exactly (omega (arith, ap weigh p, total_swap A waiting pre post idle (assigned a) e))
    Step-left (feeds_all f p) xs = exactly refl
    Step-left (feeds_no_more f k) xs = exactly refl
    Step-left (worker_cancelled pre post k e) xs =
        exactly (omega (arith, total_swap A waiting pre post idle stopped e))
    Step-left (worker_ends pre post f e) xs =
        exactly (omega (arith, total_swap A waiting pre post idle stopped e))
    Step-left (acquires pre post a room e) xs =
        exactly (omega (arith, total_swap A waiting pre post (assigned a) (dialing a) e))
    Step-left (acquires_no_more pre post a k e) xs = (
      omega (arith, total_swap A waiting pre post (assigned a) stopped e),
      λ q. absurd (ground (arith, k, q)),
    )
    Step-left (connects {s} pre post a e) xs =
        exactly (omega (arith, total_swap A waiting pre post (dialing a) (connected a s.opened) e))
    Step-left (fails pre post a x e) xs =
        exactly (omega (arith, total_swap A waiting pre post (dialing a) (failed a x) e))
    Step-left (fails_open pre post a x e) xs =
        exactly (omega (arith, total_swap A waiting pre post (dialing a) (failed a x) e))
    Step-left (reports pre post a x d e) xs =
        exactly (omega (arith, total_swap A waiting pre post (failed a x) idle e))
    Step-left (hands_over pre post a c d e) xs =
        exactly (omega (arith, total_swap A waiting pre post (connected a c) idle e))
    Step-left (drops_failure pre post a x k e) xs =
        exactly (omega (arith, total_swap A waiting pre post (failed a x) stopped e))
    Step-left (drops_connection pre post a c k e) xs =
        exactly (omega (arith, total_swap A waiting pre post (connected a c) stopped e))
    Step-left (queues a c h room) xs = exactly refl
    Step-left (discards a c h k) xs = exactly refl
    Step-left (finishes d all) xs = exactly refl
    Step-left (claims a c later k e) xs = exactly refl
    Step-left (claims_late a c later k e) xs = exactly refl
    Step-left (drains a c later k f e) xs = exactly refl

    -- No endpoint is lost before the Pool is cancelled.
    pub Reach-left :
        {max_concurrent : ℕ} {addrs : List A} {s : Pool A} (r : Reach A max_concurrent addrs s)
        → (weigh (dialled r) + left s ≤ weigh addrs)
          × (s.cancelled ≡ false → weigh (dialled r) + left s ≡ weigh addrs)
    Reach-left {max_concurrent} {addrs} begins =
        exactly (omega (arith, total_idle A waiting (min max_concurrent (length addrs)) refl))
    Reach-left (goes {s} {t} r step) =
        let now = Step-left step (dialled r) in
        let before = Reach-left r in
        (omega (arith, now.0, before.0), λ q. now.1 q ∙ before.1 (still_open step q))
