-- ===== src/Peer/Pool/Progress.antt =====
-- A Pool comes to its end: every step leaves less to do, and a Pool that Close was called on always
-- has a next step until everything is released.
use bittorrent_client.Base.{
  All, Bool, List, [], ap, arith, false, length, length-append, min, not, refl, suc, true, zero, ℕ,
  ◌*◌, ◌++◌, ◌+◌, ◌<◌, ◌∷◌, ◌≡◌, ◌≤◌,
}
use bittorrent_client.Peer.Pool.{
  Worker, Collector, Pool, Step, idle, assigned, dialing, failed, connected, stopped, draining,
  holding, finished, cancels, closes, feeds, feeds_all, feeds_no_more, worker_cancelled,
  worker_ends, acquires, acquires_no_more, connects, fails, fails_open, reports, hands_over,
  drops_failure, drops_connection, queues, discards, finishes, claims, claims_late, drains, Reach,
  goes, idle_workers, new_pool,
}
use bittorrent_client.Peer.Pool.Budget.{active, total, total_swap}

module _ (A : Type 0) where
  -- The steps that a worker, the collector and a flag can still take, and what they hand on.
  abbrev pub worker_work : Worker A → ℕ
  worker_work idle = 1
  worker_work (assigned a) = 6
  worker_work (dialing a) = 5
  worker_work (failed a e) = 4
  worker_work (connected a c) = 4
  worker_work stopped = 0

  abbrev pub collector_work : Collector A → ℕ
  collector_work draining = 1
  collector_work (holding a c) = 3
  collector_work finished = 0

  abbrev pub flag_work : Bool → ℕ
  flag_work true = 1
  flag_work false = 0

  abbrev pub work : Pool A → ℕ
  work s =
      flag_work (not s.cancelled)
      + flag_work (not s.closing)
      + flag_work s.feeding
      + 6 * length s.pending
      + total A worker_work s.workers
      + collector_work s.collector
      + length s.candidates

  idle_work : (k : ℕ) → total A worker_work (idle_workers A k) ≡ k
  idle_work zero = refl
  idle_work (suc k) = omega (arith, idle_work k)

  Step-work : {s t : Pool A} → Step A s t → work t < work s
  Step-work (cancels k) = omega (arith, ap (λ b. flag_work (not b)) k)
  Step-work (closes k) = omega (arith, ap (λ b. flag_work (not b)) k)
  Step-work (feeds pre post a later f p e) =
      omega (arith, ap length p, total_swap A worker_work pre post idle (assigned a) e)
  Step-work (feeds_all f p) = omega (arith, ap flag_work f)
  Step-work (feeds_no_more f k) = omega (arith, ap flag_work f)
  Step-work (worker_cancelled pre post k e) =
      omega (arith, total_swap A worker_work pre post idle stopped e)
  Step-work (worker_ends pre post f e) =
      omega (arith, total_swap A worker_work pre post idle stopped e)
  Step-work (acquires pre post a room e) =
      omega (arith, total_swap A worker_work pre post (assigned a) (dialing a) e)
  Step-work (acquires_no_more pre post a k e) =
      omega (arith, total_swap A worker_work pre post (assigned a) stopped e)
  Step-work (connects {s} pre post a e) =
      omega (arith, total_swap A worker_work pre post (dialing a) (connected a s.opened) e)
  Step-work (fails pre post a x e) =
      omega (arith, total_swap A worker_work pre post (dialing a) (failed a x) e)
  Step-work (fails_open pre post a x e) =
      omega (arith, total_swap A worker_work pre post (dialing a) (failed a x) e)
  Step-work (reports pre post a x d e) =
      omega (arith, total_swap A worker_work pre post (failed a x) idle e)
  Step-work (hands_over pre post a c d e) =
      omega (arith, ap collector_work d, total_swap A worker_work pre post (connected a c) idle e)
  Step-work (drops_failure pre post a x k e) =
      omega (arith, total_swap A worker_work pre post (failed a x) stopped e)
  Step-work (drops_connection pre post a c k e) =
      omega (arith, total_swap A worker_work pre post (connected a c) stopped e)
  Step-work (queues {s} a c h room) =
      omega (arith, ap collector_work h, length-append s.candidates ((a, c) ∷ []))
  Step-work (discards a c h k) = omega (arith, ap collector_work h)
  Step-work (finishes d all) = omega (arith, ap collector_work d)
  Step-work (claims a c later k e) = omega (arith, ap length e)
  Step-work (claims_late a c later k e) = omega (arith, ap length e)
  Step-work (drains a c later k f e) = omega (arith, ap length e)

  -- The first worker that has not stopped.
  pub data Found (ws : List (Worker A)) : Type 0 where
    all_stopped : All (λ w. w ≡ stopped) ws → Found ws
    found :
        (pre post : List (Worker A)) (w : Worker A)
        → active A w ≡ 1
        → ws ≡ pre ++ (w ∷ post)
        → Found ws

  -- Runs of `n` steps.
  pub data Run : ℕ → Pool A → Pool A → Type 0 where
    stays : {s : Pool A} → Run 0 s s
    then_step : {n : ℕ} {s t u : Pool A} → Step A s t → Run n t u → Run (suc n) s u

  Run-work : {n : ℕ} {s t : Pool A} → Run n s t → n + work t ≤ work s
  Run-work stays = omega arith
  Run-work (then_step step r) = omega (arith, Step-work step, Run-work r)

  -- Every run of a new Pool ends, whatever the order of its goroutines and of the calls of Next
  -- and Close: with n endpoints and k workers it has at most 6 n + k + 4 steps, the end of the context and the call of
  -- Close included.
  pub new_pool-Run :
      (max_concurrent : ℕ) (addrs : List A) {n : ℕ} {t : Pool A}
      → Run n (new_pool A max_concurrent addrs) t
      → n ≤ 6 * length addrs + min max_concurrent (length addrs) + 4
  new_pool-Run max_concurrent addrs r =
      omega (arith, Run-work r, idle_work (min max_concurrent (length addrs)))

  -- The state in which Close returns.
  abbrev pub Released : Pool A → Type 0
  Released s = (s.collector ≡ finished) × (s.candidates ≡ [])

  pub Run-Reach :
      {max_concurrent : ℕ} {addrs : List A} {n : ℕ} {s t : Pool A}
      → Reach A max_concurrent addrs s
      → Run n s t
      → Reach A max_concurrent addrs t
  Run-Reach r stays = r
  Run-Reach r (then_step step run) = Run-Reach (goes r step) run
