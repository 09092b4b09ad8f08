-- ===== src/Peer/Start/Checked.antt =====
-- What the checks of `newPoolWithDial` leave.
use bittorrent_client.Base.{
  Bool, List, Option, [], ap, arith, false, if◌then◌else◌, is_positive, length, ltb, magnitude, min,
  negsuc, none, not, ok, pos, refl, some, subst, suc, sym, true, zero, ℕ, ℤ, ◌<◌, ◌==◌, ◌↔◌, ◌∙◌,
  ◌∷◌, ◌≡◌, ◌≤◌,
}
use bittorrent_client.Peer.Pool.{idle_workers, Pool, new_pool}
use bittorrent_client.Net.{Endpoint}
use bittorrent_client.Peer.Start.{
  DialOptions, unique_endpoints, validate_pool_arguments, seen_in, refused_context, unique_loop,
  PoolError, new_pool_with_dial, started,
}

length-idle_workers : (A : Type 0) (k : ℕ) → length (idle_workers A k) ≡ k
length-idle_workers A zero = refl
length-idle_workers A (suc k) = ap suc (length-idle_workers A k)

pub length-unique_endpoints :
    (addrs : List Endpoint) → 0 < length addrs → 0 < length (unique_endpoints addrs)
unfolding unique_endpoints unique_loop seen_in
length-unique_endpoints [] h = absurd (omega arith)
length-unique_endpoints (a ∷ addrs) h = omega arith

-- The arguments that pass.
pub record Valid (has_context : Bool) (context_error : Option ℕ) (addrs : List Endpoint)
    (options : DialOptions) (has_dial : Bool) : Type 0 where
  pub context : has_context ≡ true
  pub running : context_error ≡ none
  pub dial : has_dial ≡ true
  pub endpoints : 0 < length addrs
  pub workers : ℕ
  pub workers_eq : options.max_concurrent ≡ pos workers
  pub workers_positive : 0 < workers
  pub workers_le : workers ≤ 4
  pub timeout : is_positive options.attempt_timeout ≡ true

positive_of : (n : ℕ) → 0 < n → is_positive (pos n) ≡ true
positive_of zero h = absurd (omega arith)
positive_of (suc n) h = refl

at_most : (n : ℕ) → n ≤ 4 → ltb 4 n ≡ false
at_most n h = ground arith

accepted_count :
    (x : ℤ)
    → is_positive x ≡ true
    → ltb 4 (magnitude x) ≡ false
    → (n : ℕ) × (x ≡ pos n) × (0 < n) × (n ≤ 4)
accepted_count (pos n) h k = (n, refl, ground arith, ground arith)
accepted_count (negsuc n) h k = absurd (ground arith)

-- A check that passes.
passes :
    (b : Bool) (e : PoolError) (later : Option PoolError)
    → (if b then some e else later) ≡ none
    → (b ≡ false) × (later ≡ none)
passes b e later h = ground arith

no_error : (o : Option ℕ) → refused_context o ≡ none → o ≡ none
unfolding refused_context
no_error none h = refl
no_error (some e) h = absurd (ground arith)

not-false : (b : Bool) → not b ≡ false → b ≡ true
not-false b h = ground arith

accepted-Valid :
    (has_context : Bool) (context_error : Option ℕ) (addrs : List Endpoint) (options : DialOptions)
    (has_dial : Bool)
    → validate_pool_arguments has_context context_error addrs options has_dial ≡ none
    → Valid has_context context_error addrs options has_dial
unfolding validate_pool_arguments
accepted-Valid has_context context_error addrs options has_dial e0 =
    let (context, e1) = passes _ _ _ e0 in
    let (endpoints, e2) = passes _ _ _ e1 in
    let (positive, e3) = passes _ _ _ e2 in
    let (small, e4) = passes _ _ _ e3 in
    let (timeout, e5) = passes _ _ _ e4 in
    let (dial, e6) = passes _ _ _ e5 in
    let (n, eq, some_worker, few) =
      accepted_count options.max_concurrent (not-false _ positive) small in
    record {
      context = not-false _ context;
      running = no_error context_error e6;
      dial = not-false _ dial;
      endpoints = ground arith;
      workers = n;
      workers_eq = eq;
      workers_positive = some_worker;
      workers_le = few;
      timeout = not-false _ timeout;
    }

Valid-accepted :
    (has_context : Bool) (context_error : Option ℕ) (addrs : List Endpoint) (options : DialOptions)
    (has_dial : Bool)
    → Valid has_context context_error addrs options has_dial
    → validate_pool_arguments has_context context_error addrs options has_dial ≡ none
unfolding validate_pool_arguments refused_context
Valid-accepted has_context context_error addrs options has_dial v =
    let some_endpoints : (length addrs == 0) ≡ false = ground (arith, v.endpoints) in
    let positive : is_positive options.max_concurrent ≡ true =
      ap is_positive v.workers_eq ∙ positive_of v.workers v.workers_positive in
    let few : ltb 4 (magnitude options.max_concurrent) ≡ false =
      ap (λ x. ltb 4 (magnitude x)) v.workers_eq ∙ at_most v.workers v.workers_le in
    rw (v.context, some_endpoints, positive, few, v.timeout, v.dial, v.running) refl

started-Started :
    (o : Option PoolError) (addrs : List Endpoint) (options : DialOptions) (p : Pool Endpoint)
    → started o addrs options ≡ ok p
    → (o ≡ none)
      × (new_pool Endpoint (magnitude options.max_concurrent) (unique_endpoints addrs) ≡ p)
unfolding started
started-Started none addrs options p e = (refl, ground arith)
started-Started (some x) addrs options p e = absurd (ground arith)

-- A Pool that can work: a worker at least, no more than four or than there are endpoints, and room
-- in the queue.
pub record Staffed (p : Pool Endpoint) : Type 0 where
  pub some_worker : 0 < length p.workers
  pub few_workers : length p.workers ≤ 4
  pub no_spare_workers : length p.workers ≤ length p.pending
  pub room : 0 < p.capacity

new_pool-Staffed :
    (n : ℕ) (addrs : List Endpoint)
    → 0 < n
    → n ≤ 4
    → 0 < length addrs
    → Staffed (new_pool Endpoint n addrs)
new_pool-Staffed n addrs positive few endpoints = record {
  some_worker = omega (arith, length-idle_workers Endpoint (min n (length addrs)));
  few_workers = omega (arith, length-idle_workers Endpoint (min n (length addrs)));
  no_spare_workers = omega (arith, length-idle_workers Endpoint (min n (length addrs)));
  room = omega arith;
}

-- newPoolWithDial starts a Pool exactly when the context and the dial function exist, the context
-- has not ended, there is an endpoint, the timeout is positive, and one to four workers are asked
-- for. The Pool is then the new one of the unique endpoints, with a worker at least, no more than
-- four or than there are endpoints, and room in its queue.
pub new_pool_with_dial_iff :
    (has_context : Bool) (context_error : Option ℕ) (addrs : List Endpoint) (options : DialOptions)
    (has_dial : Bool) (p : Pool Endpoint)
    → (new_pool_with_dial has_context context_error addrs options has_dial ≡ ok p) ↔ (
        Valid has_context context_error addrs options has_dial
        × (new_pool Endpoint (magnitude options.max_concurrent) (unique_endpoints addrs) ≡ p)
        × Staffed p)
unfolding new_pool_with_dial started
new_pool_with_dial_iff has_context context_error addrs options has_dial p = (
  λ e.
      let (valid, made) = started-Started _ addrs options p e in
      let v = accepted-Valid has_context context_error addrs options has_dial valid in
      (
        v,
        made,
        subst Staffed made (
            subst (λ x. Staffed (new_pool Endpoint (magnitude x) (unique_endpoints addrs)))
              (sym v.workers_eq)
              (new_pool-Staffed v.workers (unique_endpoints addrs) v.workers_positive v.workers_le
                (length-unique_endpoints addrs v.endpoints))),
      ),
  λ (v, made, staffed).
      rw (Valid-accepted has_context context_error addrs options has_dial v) (ap ok made),
)
