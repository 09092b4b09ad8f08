-- ===== src/Peer/Watch/Finished.antt =====
-- The function that watchContext returns comes to its end.
use bittorrent_client.Base.{arith, refl, ◌∙◌, ◌≡◌}
use bittorrent_client.Peer.Watch.{
  Outside, Watch, Watcher, Work, cancel, clear, clear_fails, close_stop, end_watcher, ended,
  interrupt, interrupt_fails, leaving, notice_stop, own, returned, selecting, waiting,
}

-- Steps outside of the code.
pub data Meanwhile (s : Watch) : Watch → Type 0 where
  still : Meanwhile s s
  goes_on : {t u : Watch} → Meanwhile s t → Outside t u → Meanwhile s u

-- In any order of the steps, with cancellations in between, the function returns: it has, or there
-- always is a step that can be taken, and each that can leads on to that.
pub data Eventually : Watch → Type 0 where
  now : (s : Watch) → s.stopping ≡ returned → Eventually s
  later :
      (s : Watch)
      → ((t : Watch) → Meanwhile s t → (u : Watch) × Work t u)
      → ((t u : Watch) → Meanwhile s t → Work t u → Eventually u)
      → Eventually s

-- What the steps outside leave as it is while the function waits.
Outside-kept :
    (s t : Watch)
    → Outside s t
    → s.stopping ≡ waiting
    → (t.watcher ≡ s.watcher) × (t.stopping ≡ waiting)
Outside-kept s t (cancel _) w = (refl, w)
Outside-kept s t (own d _ r) w = absurd (ground (arith, r, w))

Meanwhile-kept :
    (s t : Watch)
    → Meanwhile s t
    → s.stopping ≡ waiting
    → (t.watcher ≡ s.watcher) × (t.stopping ≡ waiting)
Meanwhile-kept s t still w = (refl, w)
Meanwhile-kept s t (goes_on m o) w =
    let (a, b) = Meanwhile-kept s _ m w in let (x, y) = Outside-kept _ t o b in (x ∙ a, y)

cleared : (s t : Watch) → s.watcher ≡ ended → s.stopping ≡ waiting → Work s t → Eventually t
cleared s t e a (interrupt _ w c) = absurd (ground (arith, e, w))
cleared s t e a (interrupt_fails _ w c) = absurd (ground (arith, e, w))
cleared s t e a (notice_stop _ w n) = absurd (ground (arith, e, w))
cleared s t e a (end_watcher _ w) = absurd (ground (arith, e, w))
cleared s t e a (close_stop _ n) = absurd (ground (arith, a, n))
cleared s t e a (clear _ b w) = now _ refl
cleared s t e a (clear_fails _ b w) = now _ refl

after_end : (s : Watch) → s.watcher ≡ ended → s.stopping ≡ waiting → Eventually s
after_end s e a =
    later s (λ t m. let (x, y) = Meanwhile-kept s t m a in (_, clear t y (x ∙ e)))
      (λ t u m. let (x, y) = Meanwhile-kept s t m a in cleared t u (x ∙ e) y)

ends : (s t : Watch) → s.watcher ≡ leaving → s.stopping ≡ waiting → Work s t → Eventually t
ends s t l a (interrupt _ w c) = absurd (ground (arith, l, w))
ends s t l a (interrupt_fails _ w c) = absurd (ground (arith, l, w))
ends s t l a (notice_stop _ w n) = absurd (ground (arith, l, w))
ends s t l a (end_watcher _ w) = after_end _ refl a
ends s t l a (close_stop _ n) = absurd (ground (arith, a, n))
ends s t l a (clear _ b w) = absurd (ground (arith, l, w))
ends s t l a (clear_fails _ b w) = absurd (ground (arith, l, w))

at_end : (s : Watch) → s.watcher ≡ leaving → s.stopping ≡ waiting → Eventually s
at_end s l a =
    later s (λ t m. let (x, y) = Meanwhile-kept s t m a in (_, end_watcher t (x ∙ l)))
      (λ t u m. let (x, y) = Meanwhile-kept s t m a in ends t u (x ∙ l) y)

leaves : (s t : Watch) → s.watcher ≡ selecting → s.stopping ≡ waiting → Work s t → Eventually t
leaves s t l a (interrupt _ w c) = at_end _ refl a
leaves s t l a (interrupt_fails _ w c) = at_end _ refl a
leaves s t l a (notice_stop _ w n) = at_end _ refl a
leaves s t l a (end_watcher _ w) = absurd (ground (arith, l, w))
leaves s t l a (close_stop _ n) = absurd (ground (arith, a, n))
leaves s t l a (clear _ b w) = absurd (ground (arith, l, w))
leaves s t l a (clear_fails _ b w) = absurd (ground (arith, l, w))

at_select : (s : Watch) → s.watcher ≡ selecting → s.stopping ≡ waiting → Eventually s
at_select s e a =
    later s
      (λ t m.
        let (x, y) = Meanwhile-kept s t m a in
        (_, notice_stop t (x ∙ e) (λ q. absurd (ground (arith, y, q)))))
      (λ t u m. let (x, y) = Meanwhile-kept s t m a in leaves t u (x ∙ e) y)

-- Once the function that watchContext returned is called, it returns, in any order of its steps and
-- those of the goroutine, with cancellations in between: until it has returned, one of the two can
-- always take a step, and after finitely many of them it has, whichever they are.
pub waiting-Eventually : (s : Watch) → s.stopping ≡ waiting → Eventually s
waiting-Eventually s a = by_watcher s.watcher refl
  where
    by_watcher : (w : Watcher) → s.watcher ≡ w → Eventually s
    by_watcher selecting e = at_select s e a
    by_watcher leaving e = at_end s e a
    by_watcher ended e = after_end s e a
