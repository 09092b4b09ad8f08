-- ===== src/Peer/Pool.antt =====
-- internal/peerconn/pool.go: the goroutines of a Pool as a step relation. A step is what one
-- goroutine does between two points where others can be noticed; which enabled step comes next is
-- free, as the scheduler and Go's `select` leave it. Connections are numbered as they are opened.
pub mod Budget
pub mod Called
pub mod Progress
pub mod Once
pub mod Exhausted
use bittorrent_client.Base.{
  All, Bool, List, [], false, length, min, suc, true, zero, ℕ, ◌++◌, ◌-◌, ◌<◌, ◌∷◌, ◌≡◌,
}

abbrev pub max_waiting_candidates : ℕ
max_waiting_candidates = 4

-- The error of an attempt; `canceled` is what errors.Is finds for context.Canceled.
pub data DialError : Type 0 where
  canceled : DialError
  dial_failed : ℕ → DialError

module _ (A : Type 0) where
  -- A goroutine of `runWorker`: at its select, with a job and no slot, in `dialPeer`, or with a
  -- result to send.
  pub data Worker : Type 0 where
    idle : Worker
    assigned dialing : A → Worker
    failed : A → DialError → Worker
    connected : A → ℕ → Worker
    stopped : Worker

  -- The goroutine of `collect`: at its range, with a candidate to queue, or returned.
  pub data Collector : Type 0 where
    draining : Collector
    holding : A → ℕ → Collector
    finished : Collector

  -- A Pool and its goroutines. `closing` says that Close was called, `cancelled` that the context of
  -- the Pool has ended, of itself or by Close. `pending` is what `feedJobs` has still to offer, and `feeding` that
  -- it has not closed `jobs`. `opened` counts the connections that were ever opened; `claimed` and
  -- `closed` are those that Next has returned and those that were closed.
  pub record Pool : Type 0 where
    pub cancelled : Bool
    pub closing : Bool
    pub feeding : Bool
    pub pending : List A
    pub workers : List Worker
    pub collector : Collector
    pub capacity : ℕ
    pub candidates : List (A × ℕ)
    pub slots : ℕ
    pub failures : List (A × DialError)
    pub opened : ℕ
    pub claimed : List ℕ
    pub closed : List ℕ

  abbrev pub idle_workers : ℕ → List Worker
  idle_workers zero = []
  idle_workers (suc n) = idle ∷ idle_workers n

  -- The pool of newPoolWithDial, for unique endpoints.
  abbrev pub new_pool : ℕ → List A → Pool
  new_pool max_concurrent addrs = record {
    cancelled = false;
    closing = false;
    feeding = true;
    pending = addrs;
    workers = idle_workers (min max_concurrent (length addrs));
    collector = draining;
    capacity = min max_waiting_candidates (length addrs);
    candidates = [];
    slots = 0;
    failures = [];
    opened = 0;
    claimed = [];
    closed = [];
  }

  -- Cancellations are not recorded.
  abbrev pub recorded : A → DialError → List (A × DialError) → List (A × DialError)
  recorded a canceled fs = fs
  recorded a (dial_failed e) fs = fs ++ ((a, dial_failed e) ∷ [])

  pub data Step : Pool → Pool → Type 0 where
    -- The caller's context ends; only the first time matters.
    cancels : {s : Pool} → s.cancelled ≡ false → Step s (record s { cancelled = true })
    -- Close is called and cancels; its closeOnce makes only the first time matter.
    closes : {s : Pool} → s.closing ≡ false → Step s (record s { cancelled = true; closing = true })
    -- feedJobs
    feeds :
        {s : Pool} (pre post : List Worker) (a : A) (later : List A)
        → s.feeding ≡ true
        → s.pending ≡ a ∷ later
        → s.workers ≡ pre ++ (idle ∷ post)
        → Step s (record s { workers = pre ++ (assigned a ∷ post); pending = later })
    feeds_all :
        {s : Pool} → s.feeding ≡ true → s.pending ≡ [] → Step s (record s { feeding = false })
    feeds_no_more :
        {s : Pool} → s.feeding ≡ true → s.cancelled ≡ true → Step s (record s { feeding = false })
    -- runWorker, between jobs
    worker_cancelled :
        {s : Pool} (pre post : List Worker)
        → s.cancelled ≡ true
        → s.workers ≡ pre ++ (idle ∷ post)
        → Step s (record s { workers = pre ++ (stopped ∷ post) })
    worker_ends :
        {s : Pool} (pre post : List Worker)
        → s.feeding ≡ false
        → s.workers ≡ pre ++ (idle ∷ post)
        → Step s (record s { workers = pre ++ (stopped ∷ post) })
    -- acquireSlot
    acquires :
        {s : Pool} (pre post : List Worker) (a : A)
        → s.slots < max_waiting_candidates
        → s.workers ≡ pre ++ (assigned a ∷ post)
        → Step s (record s { workers = pre ++ (dialing a ∷ post); slots = suc s.slots })
    acquires_no_more :
        {s : Pool} (pre post : List Worker) (a : A)
        → s.cancelled ≡ true
        → s.workers ≡ pre ++ (assigned a ∷ post)
        → Step s (record s { workers = pre ++ (stopped ∷ post) })
    -- dialPeer returns; with an error, a connection that came with it is closed and the slot freed.
    connects :
        {s : Pool} (pre post : List Worker) (a : A)
        → s.workers ≡ pre ++ (dialing a ∷ post)
        → Step s
            (record s { workers = pre ++ (connected a s.opened ∷ post); opened = suc s.opened })
    fails :
        {s : Pool} (pre post : List Worker) (a : A) (e : DialError)
        → s.workers ≡ pre ++ (dialing a ∷ post)
        → Step s (record s { workers = pre ++ (failed a e ∷ post); slots = s.slots - 1 })
    fails_open :
        {s : Pool} (pre post : List Worker) (a : A) (e : DialError)
        → s.workers ≡ pre ++ (dialing a ∷ post)
        → Step s (record s {
          workers = pre ++ (failed a e ∷ post);
          slots = s.slots - 1;
          opened = suc s.opened;
          closed = s.opened ∷ s.closed;
        })
    -- A result goes from a worker to `collect`, or is cleaned up by the worker.
    reports :
        {s : Pool} (pre post : List Worker) (a : A) (e : DialError)
        → s.collector ≡ draining
        → s.workers ≡ pre ++ (failed a e ∷ post)
        → Step s (record s { workers = pre ++ (idle ∷ post); failures = recorded a e s.failures })
    hands_over :
        {s : Pool} (pre post : List Worker) (a : A) (c : ℕ)
        → s.collector ≡ draining
        → s.workers ≡ pre ++ (connected a c ∷ post)
        → Step s (record s { workers = pre ++ (idle ∷ post); collector = holding a c })
    drops_failure :
        {s : Pool} (pre post : List Worker) (a : A) (e : DialError)
        → s.cancelled ≡ true
        → s.workers ≡ pre ++ (failed a e ∷ post)
        → Step s (record s { workers = pre ++ (stopped ∷ post) })
    drops_connection :
        {s : Pool} (pre post : List Worker) (a : A) (c : ℕ)
        → s.cancelled ≡ true
        → s.workers ≡ pre ++ (connected a c ∷ post)
        → Step s (record s {
          workers = pre ++ (stopped ∷ post);
          slots = s.slots - 1;
          closed = c ∷ s.closed;
        })
    -- collect
    queues :
        {s : Pool} (a : A) (c : ℕ)
        → s.collector ≡ holding a c
        → length s.candidates < s.capacity
        → Step s (record s { collector = draining; candidates = s.candidates ++ ((a, c) ∷ []) })
    discards :
        {s : Pool} (a : A) (c : ℕ)
        → s.collector ≡ holding a c
        → s.cancelled ≡ true
        → Step s (record s { collector = draining; slots = s.slots - 1; closed = c ∷ s.closed })
    finishes :
        {s : Pool}
        → s.collector ≡ draining
        → All (λ w. w ≡ stopped) s.workers
        → Step s (record s { collector = finished })
    -- Next takes a candidate; when the context has ended meanwhile, it closes it.
    claims :
        {s : Pool} (a : A) (c : ℕ) (later : List (A × ℕ))
        → s.cancelled ≡ false
        → s.candidates ≡ (a, c) ∷ later
        → Step s (record s { candidates = later; slots = s.slots - 1; claimed = c ∷ s.claimed })
    claims_late :
        {s : Pool} (a : A) (c : ℕ) (later : List (A × ℕ))
        → s.cancelled ≡ true
        → s.candidates ≡ (a, c) ∷ later
        → Step s (record s { candidates = later; slots = s.slots - 1; closed = c ∷ s.closed })
    -- The loop of Close, once it was called and `done` is closed.
    drains :
        {s : Pool} (a : A) (c : ℕ) (later : List (A × ℕ))
        → s.closing ≡ true
        → s.collector ≡ finished
        → s.candidates ≡ (a, c) ∷ later
        → Step s (record s { candidates = later; slots = s.slots - 1; closed = c ∷ s.closed })

  -- What a pool can come to.
  pub data Reach (max_concurrent : ℕ) (addrs : List A) : Pool → Type 0 where
    begins : Reach max_concurrent addrs (new_pool max_concurrent addrs)
    goes : {s t : Pool} → Reach max_concurrent addrs s → Step s t → Reach max_concurrent addrs t
