-- ===== src/Examples/Pools.antt =====
-- A pool of two endpoints and one worker: the first attempt connects, Next claims the connection,
-- and then Close is called.
use bittorrent_client.Base.{List, [], arith, refl, true, ℕ, ◌∷◌, ◌≤◌}
use bittorrent_client.Peer.Pool.{
  Pool, Reach, begins, goes, feeds, acquires, connects, hands_over, queues, claims, closes, idle,
  draining,
}
use bittorrent_client.Peer.Pool.Budget.{Budget, Reach-Budget}
use bittorrent_client.Peer.Pool.Progress.{new_pool-Run, stays, then_step}

abbrev addrs : List ℕ
addrs = 10 ∷ 20 ∷ []

abbrev closing_pool : Pool ℕ
closing_pool = record {
  cancelled = true;
  closing = true;
  feeding = true;
  pending = 20 ∷ [];
  workers = idle ∷ [];
  collector = draining;
  capacity = 2;
  candidates = [];
  slots = 0;
  failures = [];
  opened = 1;
  claimed = 0 ∷ [];
  closed = [];
}

closing_pool-Reach : Reach ℕ 1 addrs closing_pool
closing_pool-Reach =
    goes
      (goes
        (goes
          (goes
            (goes
              (goes (goes begins (feeds [] [] 10 (20 ∷ []) refl refl refl))
                (acquires [] [] 10 (omega arith) refl))
              (connects [] [] 10 refl))
            (hands_over [] [] 10 0 refl refl))
          (queues 10 0 refl (omega arith)))
        (claims 10 0 [] refl refl))
      (closes refl)

Reach-Budget_example : Budget ℕ closing_pool
Reach-Budget_example = Reach-Budget ℕ closing_pool-Reach

new_pool-Run_example : 2 ≤ 17
new_pool-Run_example = new_pool-Run ℕ 1 addrs (
    then_step (feeds [] [] 10 (20 ∷ []) refl refl refl)
      (then_step (acquires [] [] 10 (omega arith) refl) stays))
