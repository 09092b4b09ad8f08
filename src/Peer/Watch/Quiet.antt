-- ===== src/Peer/Watch/Quiet.antt =====
-- What watchContext leaves behind.
use bittorrent_client.Base.{
  Bool, Option, Result, ap, arith, err, none, ok, refl, some, sym, ℕ, ◌∙◌, ◌≡◌,
}
use bittorrent_client.Peer.Watch.{
  Deadline, Outside, Comes, Stopping, Watch, Work, cancel, clear, clear_fails, close_stop,
  end_watcher, ended, here, interrupt, interrupt_fails, meanwhile, notice_stop, own, returned,
  start_watching, uncalled, watching, works,
}

-- When the function has returned, the goroutine has ended.
IsQuiet : Watch → Type 0
IsQuiet s = s.stopping ≡ returned → s.watcher ≡ ended

Work-IsQuiet : (s t : Watch) → Work s t → IsQuiet s → IsQuiet t
unfolding IsQuiet
Work-IsQuiet s t (interrupt _ w c) q = λ r. absurd (ground (arith, w, q r))
Work-IsQuiet s t (interrupt_fails _ w c) q = λ r. absurd (ground (arith, w, q r))
Work-IsQuiet s t (notice_stop _ w n) q = λ r. absurd (ground (arith, w, q r))
Work-IsQuiet s t (end_watcher _ w) q = λ r. refl
Work-IsQuiet s t (close_stop _ n) q = λ r. absurd (ground (arith, r))
Work-IsQuiet s t (clear _ a e) q = λ r. e
Work-IsQuiet s t (clear_fails _ a e) q = λ r. e

Outside-IsQuiet : (s t : Watch) → Outside s t → IsQuiet s → IsQuiet t
unfolding IsQuiet
Outside-IsQuiet s t (cancel _) q = q
Outside-IsQuiet s t (own d _ r) q = q

Comes-IsQuiet : (s t : Watch) → Comes s t → IsQuiet s → IsQuiet t
Comes-IsQuiet s t here q = q
Comes-IsQuiet s t (works r w) q = Work-IsQuiet _ t w (Comes-IsQuiet s _ r q)
Comes-IsQuiet s t (meanwhile r o) q = Outside-IsQuiet _ t o (Comes-IsQuiet s _ r q)

-- A watch that has not been started is not stopped.
stopping_of : Result ℕ Watch → Stopping
stopping_of (err e) = uncalled
stopping_of (ok s) = s.stopping

start-uncalled :
    (t e : Option ℕ) (c : Bool) (d : Deadline) → stopping_of (start_watching t e c d) ≡ uncalled
unfolding start_watching watching stopping_of
start-uncalled none e c d = refl
start-uncalled (some t) none c d = refl
start-uncalled (some t) (some e) c d = refl

start-IsQuiet :
    (t e : Option ℕ) (c : Bool) (d : Deadline) (s : Watch)
    → start_watching t e c d ≡ ok s
    → IsQuiet s
unfolding IsQuiet stopping_of
start-IsQuiet t e c d s h = λ r.
    let first : s.stopping ≡ uncalled = sym (ap stopping_of h) ∙ start-uncalled t e c d in
    absurd (ground (arith, first, r))

no_Work : (s t : Watch) → s.watcher ≡ ended → s.stopping ≡ returned → ¬ (Work s t)
no_Work s t e r (interrupt _ w c) = ground (arith, e, w)
no_Work s t e r (interrupt_fails _ w c) = ground (arith, e, w)
no_Work s t e r (notice_stop _ w n) = ground (arith, e, w)
no_Work s t e r (end_watcher _ w) = ground (arith, e, w)
no_Work s t e r (close_stop _ n) = ground (arith, r, n)
no_Work s t e r (clear _ a w) = ground (arith, r, a)
no_Work s t e r (clear_fails _ a w) = ground (arith, r, a)

-- However the steps of watchContext and of its goroutine are ordered, and whenever the context ends:
-- once the function that watchContext returned has itself returned, the goroutine has ended, and
-- neither has a step left that could touch the deadline of the connection's next owner.
pub returned-Quiet :
    (t e : Option ℕ) (c : Bool) (d : Deadline) (s u v : Watch)
    → start_watching t e c d ≡ ok s
    → Comes s u
    → u.stopping ≡ returned
    → (u.watcher ≡ ended) × (¬ (Work u v))
unfolding IsQuiet
returned-Quiet t e c d s u v h r k =
    let over : u.watcher ≡ ended = Comes-IsQuiet s u r (start-IsQuiet t e c d s h) k in
    (over, no_Work u v over k)
