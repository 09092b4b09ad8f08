-- ===== src/Peer/First/Kept.antt =====
-- DialFirst leaks no connection.
use bittorrent_client.Base.{
  Bool, Bool-cases, List, Option, [], ap, ap₂, arith, false, inl, inr, length, magnitude, min, ok,
  refl, subst, true, ℕ, ◌+◌, ◌<◌, ◌∙◌, ◌∷◌, ◌≡◌, ◌≤◌,
}
use bittorrent_client.Peer.Pool.{Pool, Step, Reach, closes, claims, claims_late, goes, finished}
use bittorrent_client.Peer.Pool.Budget.{Reach-closed, active, count, total, was_opened}
use bittorrent_client.Peer.Pool.Called.{Reach-called, Step-cancelled}
use bittorrent_client.Peer.Pool.Progress.{Run, Run-Reach, stays, then_step}
use bittorrent_client.Peer.First.{
  FirstOf, Next, NextResult, candidate, begin_close, ended_context, ended_before, exhausted,
  exhausted_late, no_more_candidates, takes, takes_late,
}
use bittorrent_client.Peer.Pool.Exhausted.{Reach-dialled}
use bittorrent_client.Peer.Pool.Once.{dialled, weigh}
use bittorrent_client.Peer.Start.{DialOptions, new_pool_with_dial, unique_endpoints}
use bittorrent_client.Peer.Start.Checked.{length-unique_endpoints, new_pool_with_dial_iff}
use bittorrent_client.Net.{Endpoint}

module _ (A : Type 0) where
  Step-claimed : {s t : Pool A} → Step A s t → s.cancelled ≡ true → t.claimed ≡ s.claimed
  Step-claimed (claims a c later k e) q = absurd (ground (arith, k, q))
  Step-claimed step q = refl

  Run-claimed : {n : ℕ} {s t : Pool A} → Run A n s t → s.cancelled ≡ true → t.claimed ≡ s.claimed
  Run-claimed stays q = refl
  Run-claimed (then_step step r) q = Run-claimed r (Step-cancelled A step q) ∙ Step-claimed step q

  Next-Reach :
      {max_concurrent : ℕ} {addrs : List A} {s t : Pool A} {r : NextResult A}
      → Reach A max_concurrent addrs s
      → Next A s r t
      → Reach A max_concurrent addrs t
  Next-Reach r (ended_before k) = r
  Next-Reach r (takes a c later k e) = goes r (claims a c later k e)
  Next-Reach r (takes_late a c later k e) = goes r (claims_late a c later k e)
  Next-Reach r (exhausted k f e) = r
  Next-Reach r (exhausted_late k f e) = r

  begin_close-Reach :
      {max_concurrent : ℕ} {addrs : List A} (s : Pool A)
      → Reach A max_concurrent addrs s
      → Reach A max_concurrent addrs (begin_close A s)
  begin_close-Reach {max_concurrent} {addrs} s r = elim (Bool-cases s.closing) [
    | inr open_pool ↦ goes r (closes open_pool)
    | inl called ↦
        subst (Reach A max_concurrent addrs)
          (ap₂ (λ a b. record s { cancelled = a; closing = b }) (Reach-called A r called) called) r
  ]

  -- The connections that Next handed out.
  abbrev pub handed : NextResult A → List ℕ
  handed (candidate a c) = c ∷ []
  handed (no_more_candidates fs) = []
  handed ended_context = []

  Next-claimed :
      {s t : Pool A} {r : NextResult A} → Next A s r t → s.claimed ≡ [] → t.claimed ≡ handed r
  Next-claimed (takes a c later k e) h = ap (λ cs. c ∷ cs) h
  Next-claimed (ended_before k) h = h
  Next-claimed (takes_late a c later k e) h = h
  Next-claimed (exhausted k f e) h = h
  Next-claimed (exhausted_late k f e) h = h

  FirstOf-closed :
      {max_concurrent : ℕ} {addrs : List A} {r : NextResult A} {u : Pool A}
      → FirstOf A max_concurrent addrs r u
      → (u.slots ≡ 0)
        × (total A (active A) u.workers ≡ 0)
        × ((x : ℕ) → count x (handed r) + count x u.closed ≡ was_opened x u.opened)
  FirstOf-closed {r = r} {u = u} f =
      let reached =
        Run-Reach A (begin_close-Reach f.after_next (Next-Reach f.reached f.next)) f.closing in
      let claimed : u.claimed ≡ handed r =
        Run-claimed f.closing refl ∙ Next-claimed f.next f.unclaimed in
      let (none_taken, still, kept) = Reach-closed A reached f.released.0 f.released.1 in
      (none_taken, still, λ x. omega (arith, kept x, ap (count x) claimed))

  -- `n` of `k` were dialled: all of them, when Next has reported that no candidate is left.
  abbrev pub Tried : NextResult A → ℕ → ℕ → Type 0
  Tried (candidate a c) n k = n ≤ k
  Tried (no_more_candidates fs) n k = n ≡ k
  Tried ended_context n k = n ≤ k

  Next-Tried :
      {s t : Pool A} {r : NextResult A} (n k : ℕ)
      → Next A s r t
      → n ≤ k
      → (s.cancelled ≡ false → s.collector ≡ finished → n ≡ k)
      → Tried r n k
  Next-Tried n k (exhausted o f e) h all = all o f
  Next-Tried n k (ended_before o) h all = h
  Next-Tried n k (takes a c later o e) h all = h
  Next-Tried n k (takes_late a c later o e) h all = h
  Next-Tried n k (exhausted_late o f e) h all = h

  FirstOf-dialled :
      {max_concurrent : ℕ} {addrs : List A} {r : NextResult A} {u : Pool A}
      (f : FirstOf A max_concurrent addrs r u) (weight : A → ℕ)
      → 0 < min max_concurrent (length addrs)
      → Tried r (weigh A weight (dialled A f.reached)) (weigh A weight addrs)
  FirstOf-dialled f weight some_workers =
      let once = Reach-dialled A f.reached weight in
      Next-Tried _ _ f.next once.0 (once.1 some_workers)

-- When newPoolWithDial starts its Pool, DialFirst leaves no worker running, no slot taken and no
-- connection open but the one that it returns: every connection that was opened was closed once,
-- except the returned one, which is open. When Next was called, each unique endpoint was dialled at
-- most once, however endpoints are weighed, and when DialFirst reports that no candidate is left,
-- exactly once.
pub FirstOf-Kept :
    (has_context : Bool) (context_error : Option ℕ) (addrs : List Endpoint) (options : DialOptions)
    (p : Pool Endpoint) {r : NextResult Endpoint} {u : Pool Endpoint}
    (f : FirstOf Endpoint (magnitude options.max_concurrent) (unique_endpoints addrs) r u)
    → new_pool_with_dial has_context context_error addrs options true ≡ ok p
    → (u.slots ≡ 0)
      × (total Endpoint (active Endpoint) u.workers ≡ 0)
      × ((x : ℕ) → count x (handed Endpoint r) + count x u.closed ≡ was_opened x u.opened)
      × ((weight : Endpoint → ℕ)
          → Tried Endpoint r
              (weigh Endpoint weight (dialled Endpoint f.reached))
              (weigh Endpoint weight (unique_endpoints addrs)))
FirstOf-Kept has_context context_error addrs options p f started =
    let v = ((new_pool_with_dial_iff has_context context_error addrs options true p).0 started).0 in
    let workers : magnitude options.max_concurrent ≡ v.workers = ap magnitude v.workers_eq in
    let (none_taken, still, kept) = FirstOf-closed Endpoint f in
    (
      none_taken,
      still,
      kept,
      λ weight.
          FirstOf-dialled Endpoint f weight
            (omega (arith, workers, v.workers_positive, length-unique_endpoints addrs v.endpoints)),
    )
