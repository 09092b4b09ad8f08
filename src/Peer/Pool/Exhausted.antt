-- ===== src/Peer/Pool/Exhausted.antt =====
-- A Pool that ends without being cancelled has dialled everything.
use bittorrent_client.Base.{
  Bool, List, [], ap, arith, false, length, min, refl, suc, sym, true, zero, ℕ, ◌++◌, ◌<◌, ◌∙◌, ◌∷◌,
  ◌≡◌, ◌≤◌,
}
use bittorrent_client.Peer.Pool.{
  Worker, Pool, Step, Reach, idle_workers, idle, assigned, dialing, failed, connected, stopped,
  finished, cancels, closes, feeds, feeds_all, feeds_no_more, worker_cancelled, worker_ends,
  acquires, acquires_no_more, connects, fails, fails_open, reports, hands_over, drops_failure,
  drops_connection, queues, discards, finishes, claims, claims_late, drains, begins, goes,
}
use bittorrent_client.Peer.Pool.Budget.{active, total, total_swap, Reach-Budget, running}
use bittorrent_client.Peer.Pool.Once.{Reach-left, dialled, waiting, weigh}

module _ (A : Type 0) where
  abbrev each : Worker A → ℕ
  each w = 1

  -- As long as the Pool is not cancelled, its workers stop only once everything was fed.
  record Lively (k : ℕ) (s : Pool A) : Type 0 where
    pub staff : total A each s.workers ≡ k
    pub drained : s.cancelled ≡ false → s.feeding ≡ false → s.pending ≡ []
    pub told : s.cancelled ≡ false → total A (active A) s.workers < k → s.feeding ≡ false

  worker-Lively :
      {k : ℕ} {s t : Pool A} (pre post : List (Worker A)) (w u : Worker A)
      → Lively k s
      → s.workers ≡ pre ++ (w ∷ post)
      → t.workers ≡ pre ++ (u ∷ post)
      → active A w ≡ active A u
      → (t.cancelled ≡ false → s.cancelled ≡ false)
      → t.feeding ≡ s.feeding
      → (s.feeding ≡ false → s.pending ≡ [] → t.pending ≡ [])
      → Lively k t
  worker-Lively {k} {s} {t} pre post w u l e e' a c f p = record {
    staff = omega (arith, l.staff, total_swap A each pre post w u e, ap (total A each) e');
    drained = λ o q. p (sym f ∙ q) (l.drained (c o) (sym f ∙ q));
    told = λ o few.
        f
        ∙ l.told (c o) (
            omega
              (arith, few, a, total_swap A (active A) pre post w u e, ap (total A (active A)) e'));
  }

  -- A worker of a cancelled Pool, or of one that has fed everything, stops.
  stop-Lively :
      {k : ℕ} {s t : Pool A} (pre post : List (Worker A)) (w u : Worker A)
      → Lively k s
      → s.workers ≡ pre ++ (w ∷ post)
      → t.workers ≡ pre ++ (u ∷ post)
      → (t.cancelled ≡ false → (s.cancelled ≡ false) × (t.feeding ≡ false))
      → t.feeding ≡ s.feeding
      → t.pending ≡ s.pending
      → Lively k t
  stop-Lively {k} {s} {t} pre post w u l e e' c f p = record {
    staff = omega (arith, l.staff, total_swap A each pre post w u e, ap (total A each) e');
    drained = λ o q. p ∙ l.drained (c o).0 (sym f ∙ q);
    told = λ o few. (c o).1;
  }

  clash : {P : Type 0} {b : Bool} → b ≡ true → b ≡ false → P
  clash h k = absurd (ground (arith, h, k))

  Step-Lively : {k : ℕ} {s t : Pool A} → Step A s t → Lively k s → Lively k t
  Step-Lively (cancels c) l = record {
    staff = l.staff;
    drained = λ o q. clash refl o;
    told = λ o few. clash refl o;
  }
  Step-Lively (closes c) l = record {
    staff = l.staff;
    drained = λ o q. clash refl o;
    told = λ o few. clash refl o;
  }
  Step-Lively (feeds pre post a later f p e) l =
      worker-Lively pre post idle (assigned a) l e refl refl (λ o. o) refl (λ q. clash f q)
  Step-Lively (feeds_all f p) l = record {
    staff = l.staff;
    drained = λ o q. p;
    told = λ o few. refl;
  }
  Step-Lively (feeds_no_more f c) l = record {
    staff = l.staff;
    drained = λ o q. clash c o;
    told = λ o few. refl;
  }
  Step-Lively (worker_cancelled pre post c e) l =
      stop-Lively pre post idle stopped l e refl (λ o. clash c o) refl refl
  Step-Lively (worker_ends pre post f e) l =
      stop-Lively pre post idle stopped l e refl (λ o. (o, f)) refl refl
  Step-Lively (acquires pre post a room e) l =
      worker-Lively pre post (assigned a) (dialing a) l e refl refl (λ o. o) refl (λ q p. p)
  Step-Lively (acquires_no_more pre post a c e) l =
      stop-Lively pre post (assigned a) stopped l e refl (λ o. clash c o) refl refl
  Step-Lively (connects {s} pre post a e) l =
      worker-Lively pre post (dialing a) (connected a s.opened) l e refl refl (λ o. o) refl
        (λ q p. p)
  Step-Lively (fails pre post a x e) l =
      worker-Lively pre post (dialing a) (failed a x) l e refl refl (λ o. o) refl (λ q p. p)
  Step-Lively (fails_open pre post a x e) l =
      worker-Lively pre post (dialing a) (failed a x) l e refl refl (λ o. o) refl (λ q p. p)
  Step-Lively (reports pre post a x d e) l =
      worker-Lively pre post (failed a x) idle l e refl refl (λ o. o) refl (λ q p. p)
  Step-Lively (hands_over pre post a c d e) l =
      worker-Lively pre post (connected a c) idle l e refl refl (λ o. o) refl (λ q p. p)
  Step-Lively (drops_failure pre post a x c e) l =
      stop-Lively pre post (failed a x) stopped l e refl (λ o. clash c o) refl refl
  Step-Lively (drops_connection pre post a x c e) l =
      stop-Lively pre post (connected a x) stopped l e refl (λ o. clash c o) refl refl
  Step-Lively (queues a c h room) l = record { staff = l.staff; drained = l.drained; told = l.told }
  Step-Lively (discards a c h k) l = record { staff = l.staff; drained = l.drained; told = l.told }
  Step-Lively (finishes d all) l = record { staff = l.staff; drained = l.drained; told = l.told }
  Step-Lively (claims a c later k e) l = record {
    staff = l.staff;
    drained = l.drained;
    told = l.told;
  }
  Step-Lively (claims_late a c later k e) l = record {
    staff = l.staff;
    drained = l.drained;
    told = l.told;
  }
  Step-Lively (drains a c later k f e) l = record {
    staff = l.staff;
    drained = l.drained;
    told = l.told;
  }

  staff_idle : (k : ℕ) → total A each (idle_workers A k) ≡ k
  staff_idle zero = refl
  staff_idle (suc k) = omega (arith, staff_idle k)

  active_idle : (k : ℕ) → total A (active A) (idle_workers A k) ≡ k
  active_idle zero = refl
  active_idle (suc k) = omega (arith, active_idle k)

  Reach-Lively :
      {max_concurrent : ℕ} {addrs : List A} {s : Pool A}
      → Reach A max_concurrent addrs s
      → Lively (min max_concurrent (length addrs)) s
  Reach-Lively {max_concurrent} {addrs} begins = record {
    staff = staff_idle (min max_concurrent (length addrs));
    drained = λ o q. clash refl q;
    told = λ o few. absurd (omega (arith, few, active_idle (min max_concurrent (length addrs))));
  }
  Reach-Lively (goes r step) = Step-Lively step (Reach-Lively r)

  none_waiting :
      (weight : A → ℕ) (ws : List (Worker A))
      → total A (active A) ws ≡ 0
      → total A (waiting A weight) ws ≡ 0
  none_waiting weight [] h = refl
  none_waiting weight (stopped ∷ ws) h = omega (arith, none_waiting weight ws (omega arith))
  none_waiting weight (w ∷ ws) h = absurd (omega arith)

  -- A Pool dials each of its endpoints at most once, and exactly once if it comes to its end without
  -- being cancelled and has a worker: however the endpoints are weighed (such as 1 for a given one
  -- and 0 for the others), those that were dialled weigh at most as much as those that it was
  -- given, and as much when the collector has returned and the Pool was not cancelled.
  pub Reach-dialled :
      {max_concurrent : ℕ} {addrs : List A} {s : Pool A} (r : Reach A max_concurrent addrs s)
      (weight : A → ℕ)
      → (weigh A weight (dialled A r) ≤ weigh A weight addrs)
        × (0 < min max_concurrent (length addrs)
            → s.cancelled ≡ false
            → s.collector ≡ finished
            → weigh A weight (dialled A r) ≡ weigh A weight addrs)
  Reach-dialled {max_concurrent} {addrs} {s} r weight =
      let once = Reach-left A weight r in
      let l = Reach-Lively r in
      (
        omega (arith, once.0),
        λ some_workers o f.
            let still : total A (active A) s.workers ≡ 0 =
              (Reach-Budget A r).quiet (ap (running A) f) in
            let fed : s.pending ≡ [] =
              l.drained o (l.told o (omega (arith, still, some_workers))) in
            omega (arith, once.1 o, ap (weigh A weight) fed, none_waiting weight s.workers still),
      )
