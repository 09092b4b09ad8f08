-- ===== src/Peer/Pool/Budget.antt =====
-- The slot budget of a Pool and the ownership of its connections, as an invariant of every step.
use bittorrent_client.Base.{
  All, List, [], ap, arith, if◌then◌else◌, length, length-append, ltb, min, refl, suc, sym, zero, ℕ,
  ◌++◌, ◌+◌, ◌-◌, ◌==◌, ◌∙◌, ◌∷◌, ◌≡◌, ◌≤◌,
}
use bittorrent_client.Peer.Pool.{
  Worker, Collector, Pool, Step, Reach, idle_workers, new_pool, idle, assigned, dialing, failed,
  connected, stopped, holding, finished, cancels, closes, feeds, feeds_all, feeds_no_more,
  worker_cancelled, worker_ends, acquires, acquires_no_more, connects, fails, fails_open, reports,
  hands_over, drops_failure, drops_connection, queues, discards, finishes, claims, claims_late,
  drains, begins, goes,
}

-- 1 for the same connection
abbrev pub is : ℕ → ℕ → ℕ
is x c = if x == c then 1 else 0

abbrev pub count : ℕ → List ℕ → ℕ
count x [] = 0
count x (c ∷ cs) = is x c + count x cs

-- 1 for a connection that was opened
abbrev pub was_opened : ℕ → ℕ → ℕ
was_opened x n = if ltb x n then 1 else 0

was_opened-suc : (x n : ℕ) → was_opened x (suc n) ≡ was_opened x n + is x n
was_opened-suc x n = ground arith

was_opened-zero : (x : ℕ) → was_opened x 0 ≡ 0
was_opened-zero x = ground arith

module _ (A : Type 0) where
  -- A slot is held from acquireSlot until the attempt fails or the connection leaves the pool.
  abbrev pub busy : Worker A → ℕ
  busy (dialing a) = 1
  busy (connected a c) = 1
  busy _ = 0

  abbrev pub busy_collector : Collector A → ℕ
  busy_collector (holding a c) = 1
  busy_collector _ = 0

  -- 1 for a worker that owns the connection
  abbrev pub owns : ℕ → Worker A → ℕ
  owns x (connected a c) = is x c
  owns x _ = 0

  abbrev pub collector_owns : ℕ → Collector A → ℕ
  collector_owns x (holding a c) = is x c
  collector_owns x _ = 0

  abbrev pub queued : ℕ → List (A × ℕ) → ℕ
  queued x [] = 0
  queued x ((a, c) ∷ cs) = is x c + queued x cs

  abbrev pub active : Worker A → ℕ
  active stopped = 0
  active _ = 1

  abbrev pub running : Collector A → ℕ
  running finished = 0
  running _ = 1

  abbrev pub total : (Worker A → ℕ) → List (Worker A) → ℕ
  total f [] = 0
  total f (w ∷ ws) = f w + total f ws

  total-append :
      (f : Worker A → ℕ) (xs ys : List (Worker A)) → total f (xs ++ ys) ≡ total f xs + total f ys
  total-append f [] ys = omega arith
  total-append f (w ∷ ws) ys = omega (arith, total-append f ws ys)

  -- One worker goes on, the others stay.
  pub total_swap :
      (f : Worker A → ℕ) (pre post : List (Worker A)) (w u : Worker A) {ws : List (Worker A)}
      → ws ≡ pre ++ (w ∷ post)
      → total f ws + f u ≡ total f (pre ++ (u ∷ post)) + f w
  total_swap f pre post w u e =
      omega (arith, ap (total f) e, total-append f pre (w ∷ post), total-append f pre (u ∷ post))

  queued-append :
      (x : ℕ) (cs : List (A × ℕ)) (a : A) (c : ℕ)
      → queued x (cs ++ ((a, c) ∷ [])) ≡ queued x cs + is x c
  queued-append x [] a c = omega arith
  queued-append x ((b, d) ∷ cs) a c = omega (arith, queued-append x cs a c)

  pub total_idle : (f : Worker A → ℕ) (n : ℕ) → f idle ≡ 0 → total f (idle_workers A n) ≡ 0
  total_idle f zero h = refl
  total_idle f (suc n) h = omega (arith, h, total_idle f n h)

  -- How often the connection is owned: by a worker, by `collect`, in the queue, by a caller of
  -- Next, or by nobody once it is closed.
  abbrev pub owners : ℕ → Pool A → ℕ
  owners x s =
      total (owns x) s.workers
      + collector_owns x s.collector
      + queued x s.candidates
      + count x s.claimed
      + count x s.closed

  pub record Budget (s : Pool A) : Type 0 where
    pub slots_eq : s.slots ≡ total busy s.workers + busy_collector s.collector + length s.candidates
    pub slots_le : s.slots ≤ 4
    pub owned : (x : ℕ) → owners x s ≡ was_opened x s.opened
    pub quiet : running s.collector ≡ 0 → total active s.workers ≡ 0

  busy-le : (w : Worker A) → busy w ≤ active w
  busy-le w = ground arith

  owns-le : (x : ℕ) (w : Worker A) → owns x w ≤ active w
  owns-le x w = ground arith

  active_le : (w : Worker A) → active w ≤ 1
  active_le w = ground arith

  -- The owners of a connection other than the workers.
  abbrev elsewhere : ℕ → Pool A → ℕ
  elsewhere x s =
      collector_owns x s.collector + queued x s.candidates + count x s.claimed + count x s.closed

  -- A step of one worker, in numbers.
  worker-Budget :
      {s t : Pool A} (pre post : List (Worker A)) (w u : Worker A)
      → Budget s
      → s.workers ≡ pre ++ (w ∷ post)
      → t.workers ≡ pre ++ (u ∷ post)
      → active w ≡ 1
      → running t.collector ≡ running s.collector
      → t.slots ≤ 4
      → (t.slots + busy w + busy_collector s.collector + length s.candidates
          ≡ s.slots + busy u + busy_collector t.collector + length t.candidates)
      → ((x : ℕ)
          → elsewhere x t + was_opened x s.opened + owns x u
            ≡ elsewhere x s + was_opened x t.opened + owns x w)
      → Budget t
  worker-Budget {s = s} {t = t} pre post w u i e e' a r fits slots moved = record {
    slots_eq = omega (arith, i.slots_eq, slots, total_swap busy pre post w u e, ap (total busy) e');
    slots_le = fits;
    owned = λ x.
        omega
          (arith, i.owned x, moved x, total_swap (owns x) pre post w u e, ap (total (owns x)) e');
    quiet = λ q. omega (
      arith,
      i.quiet (sym r ∙ q),
      total_swap active pre post w u e,
      ap (total active) e',
      a,
      active_le u,
    );
  }

  held :
      {s : Pool A} (pre post : List (Worker A)) (w : Worker A)
      → Budget s
      → s.workers ≡ pre ++ (w ∷ post)
      → busy w ≤ s.slots
  held pre post w i e =
      omega (arith, i.slots_eq, ap (total busy) e, total-append busy pre (w ∷ post))

  -- A step of no worker, in numbers.
  other-Budget :
      {s t : Pool A}
      → Budget s
      → t.workers ≡ s.workers
      → t.opened ≡ s.opened
      → (running t.collector ≡ 0 → total active s.workers ≡ 0)
      → t.slots ≤ 4
      → (t.slots + busy_collector s.collector + length s.candidates
          ≡ s.slots + busy_collector t.collector + length t.candidates)
      → ((x : ℕ) → elsewhere x t ≡ elsewhere x s)
      → Budget t
  other-Budget {s = s} {t = t} i e o q fits slots moved = record {
    slots_eq = omega (arith, i.slots_eq, slots, ap (total busy) e);
    slots_le = fits;
    owned = λ x. omega (arith, i.owned x, moved x, ap (total (owns x)) e, ap (was_opened x) o);
    quiet = λ r. omega (arith, q r, ap (total active) e);
  }

  total_stopped : (ws : List (Worker A)) → All (λ w. w ≡ stopped) ws → total active ws ≡ 0
  total_stopped [] h = refl
  total_stopped (w ∷ ws) h = omega (arith, ap active h.0, total_stopped ws h.1)

  -- A candidate leaves the queue and its slot is freed.
  taken :
      {s : Pool A} {a : A} {c : ℕ} {later : List (A × ℕ)} {claimed closed : List ℕ}
      → Budget s
      → s.candidates ≡ (a, c) ∷ later
      → ((x : ℕ)
          → queued x later + count x claimed + count x closed
            ≡ queued x s.candidates + count x s.claimed + count x s.closed)
      → Budget
          (record s { candidates = later; slots = s.slots - 1; claimed = claimed; closed = closed })
  taken i e moved =
      other-Budget i refl refl i.quiet (omega (arith, i.slots_le))
        (omega (arith, i.slots_eq, ap length e)) (λ x. omega (arith, moved x))

  Step-Budget : {s t : Pool A} → Step A s t → Budget s → Budget t
  Step-Budget (closes k) i = other-Budget i refl refl i.quiet i.slots_le refl (λ x. refl)
  Step-Budget (cancels k) i = other-Budget i refl refl i.quiet i.slots_le refl (λ x. refl)
  Step-Budget (feeds pre post a later f p e) i =
      worker-Budget pre post idle (assigned a) i e refl refl refl i.slots_le refl (λ x. refl)
  Step-Budget (feeds_all f p) i = other-Budget i refl refl i.quiet i.slots_le refl (λ x. refl)
  Step-Budget (feeds_no_more f k) i = other-Budget i refl refl i.quiet i.slots_le refl (λ x. refl)
  Step-Budget (worker_cancelled pre post k e) i =
      worker-Budget pre post idle stopped i e refl refl refl i.slots_le refl (λ x. refl)
  Step-Budget (worker_ends pre post f e) i =
      worker-Budget pre post idle stopped i e refl refl refl i.slots_le refl (λ x. refl)
  Step-Budget (acquires pre post a room e) i =
      worker-Budget pre post (assigned a) (dialing a) i e refl refl refl (omega arith) (omega arith)
        (λ x. refl)
  Step-Budget (acquires_no_more pre post a k e) i =
      worker-Budget pre post (assigned a) stopped i e refl refl refl i.slots_le refl (λ x. refl)
  Step-Budget (connects {s} pre post a e) i =
      worker-Budget pre post (dialing a) (connected a s.opened) i e refl refl refl i.slots_le refl
        (λ x. omega (arith, was_opened-suc x s.opened))
  Step-Budget (fails pre post a x e) i =
      worker-Budget pre post (dialing a) (failed a x) i e refl refl refl (omega (arith, i.slots_le))
        (omega (arith, held pre post (dialing a) i e)) (λ y. refl)
  Step-Budget (fails_open {s} pre post a x e) i =
      worker-Budget pre post (dialing a) (failed a x) i e refl refl refl (omega (arith, i.slots_le))
        (omega (arith, held pre post (dialing a) i e))
        (λ y. omega (arith, was_opened-suc y s.opened))
  Step-Budget (reports pre post a x d e) i =
      worker-Budget pre post (failed a x) idle i e refl refl refl i.slots_le refl (λ y. refl)
  Step-Budget (hands_over pre post a c d e) i =
      worker-Budget pre post (connected a c) idle i e refl refl (ap running (sym d)) i.slots_le
        (omega (arith, ap busy_collector d)) (λ y. omega (arith, ap (collector_owns y) d))
  Step-Budget (drops_failure pre post a x k e) i =
      worker-Budget pre post (failed a x) stopped i e refl refl refl i.slots_le refl (λ y. refl)
  Step-Budget (drops_connection pre post a c k e) i =
      worker-Budget pre post (connected a c) stopped i e refl refl refl (omega (arith, i.slots_le))
        (omega (arith, held pre post (connected a c) i e)) (λ y. omega arith)
  Step-Budget (queues {s} a c h room) i =
      other-Budget i refl refl (λ q. absurd (omega (arith, q))) i.slots_le
        (omega (arith, ap busy_collector h, length-append s.candidates ((a, c) ∷ [])))
        (λ y. omega (arith, ap (collector_owns y) h, queued-append y s.candidates a c))
  Step-Budget (discards a c h k) i =
      other-Budget i refl refl (λ q. absurd (omega (arith, q))) (omega (arith, i.slots_le))
        (omega (arith, ap busy_collector h, i.slots_eq))
        (λ y. omega (arith, ap (collector_owns y) h))
  Step-Budget (finishes {s} d all) i =
      other-Budget i refl refl (λ q. total_stopped s.workers all) i.slots_le
        (omega (arith, ap busy_collector d)) (λ y. omega (arith, ap (collector_owns y) d))
  Step-Budget (claims a c later k e) i = taken i e (λ y. omega (arith, ap (queued y) e))
  Step-Budget (claims_late a c later k e) i = taken i e (λ y. omega (arith, ap (queued y) e))
  Step-Budget (drains a c later k f e) i = taken i e (λ y. omega (arith, ap (queued y) e))

  begins-Budget : (max_concurrent : ℕ) (addrs : List A) → Budget (new_pool A max_concurrent addrs)
  begins-Budget max_concurrent addrs = record {
    slots_eq = omega (arith, total_idle busy (min max_concurrent (length addrs)) refl);
    slots_le = omega arith;
    owned = λ x.
        omega
          (arith, total_idle (owns x) (min max_concurrent (length addrs)) refl, was_opened-zero x);
    quiet = λ q. absurd (omega (arith, q));
  }

  -- In every state that a Pool can come to, at most four slots are taken, one for each attempt in
  -- progress and each connection that neither Next has returned nor anybody closed; and every
  -- connection that was opened is owned exactly once: by a worker, by the collector, in the queue,
  -- by a caller of Next, or it was closed once. No other connection is owned.
  pub Reach-Budget :
      {max_concurrent : ℕ} {addrs : List A} {s : Pool A} → Reach A max_concurrent addrs s → Budget s
  Reach-Budget {max_concurrent} {addrs} begins = begins-Budget max_concurrent addrs
  Reach-Budget (goes r step) = Step-Budget step (Reach-Budget r)

  none_owned : (x : ℕ) (ws : List (Worker A)) → total active ws ≡ 0 → total (owns x) ws ≡ 0
  none_owned x [] h = refl
  none_owned x (w ∷ ws) h = omega (arith, none_owned x ws (omega arith), owns-le x w)

  none_busy : (ws : List (Worker A)) → total active ws ≡ 0 → total busy ws ≡ 0
  none_busy [] h = refl
  none_busy (w ∷ ws) h = omega (arith, none_busy ws (omega arith), busy-le w)

  -- When the collector has returned and the queue is empty, as Close leaves a Pool, no slot is
  -- taken, every worker has stopped, and every connection that was opened was either returned by
  -- Next and left open, or closed, and that once.
  pub Reach-closed :
      {max_concurrent : ℕ} {addrs : List A} {s : Pool A}
      → Reach A max_concurrent addrs s
      → s.collector ≡ finished
      → s.candidates ≡ []
      → (s.slots ≡ 0)
        × (total active s.workers ≡ 0)
        × ((x : ℕ) → count x s.claimed + count x s.closed ≡ was_opened x s.opened)
  Reach-closed {s = s} r f e =
      let i = Reach-Budget r in
      let still : total active s.workers ≡ 0 = i.quiet (ap running f) in
      (
        omega (arith, i.slots_eq, none_busy s.workers still, ap busy_collector f, ap length e),
        still,
        λ x. omega (
          arith,
          i.owned x,
          none_owned x s.workers still,
          ap (collector_owns x) f,
          ap (queued x) e,
        ),
      )
