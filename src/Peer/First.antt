-- ===== src/Peer/First.antt =====
-- internal/peerconn/pool.go and conn.go: what a call of `Next` comes to, and `DialFirst`.
pub mod Kept
use bittorrent_client.Base.{List, [], false, true, ℕ, ◌-◌, ◌∷◌, ◌≡◌}
use bittorrent_client.Peer.Pool.{Pool, Reach, DialError, finished}
use bittorrent_client.Peer.Pool.Progress.{Run, Released}
use bittorrent_client.Peer.Start.{DialOptions, PoolError, new_pool_with_dial, unique_endpoints}
use bittorrent_client.Net.{Endpoint}

module _ (A : Type 0) where
  -- What Next returns: a candidate with the number of its connection, the errors of the attempts
  -- with ErrNoMoreCandidates, or the error of the context.
  pub data NextResult : Type 0 where
    candidate : A → ℕ → NextResult
    no_more_candidates : List (A × DialError) → NextResult
    ended_context : NextResult

  -- A call of Next that returns, by what it finds: the context's error, a candidate in the queue,
  -- or a queue that is empty and closed. The context is looked at again after the wait.
  pub data Next : Pool A → NextResult → Pool A → Type 0 where
    ended_before : {s : Pool A} → s.cancelled ≡ true → Next s ended_context s
    takes :
        {s : Pool A} (a : A) (c : ℕ) (later : List (A × ℕ))
        → s.cancelled ≡ false
        → s.candidates ≡ (a, c) ∷ later
        → Next s
            (candidate a c)
            (record s { candidates = later; slots = s.slots - 1; claimed = c ∷ s.claimed })
    takes_late :
        {s : Pool A} (a : A) (c : ℕ) (later : List (A × ℕ))
        → s.cancelled ≡ true
        → s.candidates ≡ (a, c) ∷ later
        → Next s ended_context
            (record s { candidates = later; slots = s.slots - 1; closed = c ∷ s.closed })
    exhausted :
        {s : Pool A}
        → s.cancelled ≡ false
        → s.collector ≡ finished
        → s.candidates ≡ []
        → Next s (no_more_candidates s.failures) s
    exhausted_late :
        {s : Pool A}
        → s.cancelled ≡ true
        → s.collector ≡ finished
        → s.candidates ≡ []
        → Next s ended_context s

  -- Close is called, up to p.cancel().
  abbrev pub begin_close : Pool A → Pool A
  begin_close s = record s { cancelled = true; closing = true }

  -- DialFirst on a Pool that newPoolWithDial started: its one call of Next returns in some state of the Pool,
  -- and then Close cancels the Pool and waits until everything is released. Only Next claims.
  pub record FirstOf (max_concurrent : ℕ) (addrs : List A) (result : NextResult) (u : Pool A)
      : Type 0 where
    pub before : Pool A
    pub reached : Reach A max_concurrent addrs before
    pub unclaimed : before.claimed ≡ []
    pub after_next : Pool A
    pub next : Next before result after_next
    pub steps : ℕ
    pub closing : Run A steps (begin_close after_next) u
    pub released : Released A u
