-- ===== src/Examples/Firsts.antt =====
-- DialFirst with one endpoint, whose attempt connects.
use bittorrent_client.Base.{[], arith, bytes_eq, false, none, ok, pos, refl, true, ℕ, ◌+◌, ◌∷◌, ◌≡◌}
use bittorrent_client.Net.{Endpoint, ip4}
use bittorrent_client.Peer.Pool.{
  Pool, begins, goes, feeds, acquires, connects, hands_over, queues, idle, stopped, draining,
  finished, worker_cancelled, finishes, new_pool,
}
use bittorrent_client.Peer.Pool.Budget.{active, count, total, was_opened}
use bittorrent_client.Peer.Pool.Once.{dialled, weigh}
use bittorrent_client.Peer.Pool.Progress.{stays, then_step}
use bittorrent_client.Peer.Start.{
  DialOptions, new_pool_with_dial, seen_in, unique_endpoints, unmap, validate_pool_arguments,
}
use bittorrent_client.Peer.First.{FirstOf, candidate, takes}
use bittorrent_client.Peer.First.Kept.{FirstOf-Kept, Tried, handed}

abbrev peer : Endpoint
peer = record { addr = ip4 (127 ∷ 0 ∷ 0 ∷ 1 ∷ []); port = 6881 }

abbrev options : DialOptions
options = record { max_concurrent = pos 4; attempt_timeout = pos 5 }

-- The connection is in the queue.
abbrev connected_pool : Pool Endpoint
connected_pool = record {
  cancelled = false;
  closing = false;
  feeding = true;
  pending = [];
  workers = idle ∷ [];
  collector = draining;
  capacity = 1;
  candidates = (peer, 0) ∷ [];
  slots = 1;
  failures = [];
  opened = 1;
  claimed = [];
  closed = [];
}

abbrev closed_pool : Pool Endpoint
closed_pool = record {
  cancelled = true;
  closing = true;
  feeding = true;
  pending = [];
  workers = stopped ∷ [];
  collector = finished;
  capacity = 1;
  candidates = [];
  slots = 0;
  failures = [];
  opened = 1;
  claimed = 0 ∷ [];
  closed = [];
}

abbrev first_peer :
    FirstOf Endpoint 4 (unique_endpoints (peer ∷ peer ∷ [])) (candidate peer 0) closed_pool
unfolding unique_endpoints unmap seen_in bytes_eq
first_peer = record {
  before = connected_pool;
  reached =
      goes
        (goes
          (goes
            (goes (goes begins (feeds [] [] peer [] refl refl refl))
              (acquires [] [] peer (omega arith) refl))
            (connects [] [] peer refl))
          (hands_over [] [] peer 0 refl refl))
        (queues peer 0 refl (omega arith));
  unclaimed = refl;
  after_next = record connected_pool { candidates = []; slots = 0; claimed = 0 ∷ [] };
  next = takes peer 0 [] refl refl;
  steps = 2;
  closing =
      then_step (worker_cancelled [] [] refl refl) (then_step (finishes refl (refl, tt)) stays);
  released = (refl, refl);
}

started :
    new_pool_with_dial true none (peer ∷ peer ∷ []) options true
    ≡ ok (new_pool Endpoint 4 (peer ∷ []))
unfolding new_pool_with_dial validate_pool_arguments unique_endpoints unmap seen_in bytes_eq
started = refl

FirstOf-Kept_example :
    (closed_pool.slots ≡ 0)
    × (total Endpoint (active Endpoint) closed_pool.workers ≡ 0)
    × ((x : ℕ)
        → count x (handed Endpoint (candidate peer 0)) + count x closed_pool.closed
          ≡ was_opened x closed_pool.opened)
    × ((weight : Endpoint → ℕ)
        → Tried Endpoint
            (candidate peer 0)
            (weigh Endpoint weight (dialled Endpoint (first_peer.reached)))
            (weigh Endpoint weight (unique_endpoints (peer ∷ peer ∷ []))))
FirstOf-Kept_example =
    FirstOf-Kept true none (peer ∷ peer ∷ []) options (new_pool Endpoint 4 (peer ∷ [])) first_peer
      started
