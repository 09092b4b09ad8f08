-- ===== src/Peer/Watch.antt =====
-- internal/peerconn/conn.go: the goroutine of watchContext and the function that watchContext
-- returns, as steps, with what can happen outside of them in between.
pub mod Quiet
pub mod Finished
use bittorrent_client.Base.{Bool, Option, Result, err, none, ok, some, true, ℕ, ◌≡◌, ◌≢◌}

-- The deadline of a connection: none, a time, or the time of a cancellation, which ends every pending
-- and later call.
pub data Deadline : Type 0 where
  unset immediate : Deadline
  at : ℕ → Deadline

-- The goroutine: in its select, behind it, or ended; it closes `stopped` when it ends.
pub data Watcher : Type 0 where
  selecting leaving ended : Watcher

-- The returned function: not called, with `stop` closed and waiting for `stopped`, or returned.
pub data Stopping : Type 0 where
  uncalled waiting returned : Stopping

pub record Watch : Type 0 where
  pub deadline : Deadline
  pub watcher : Watcher
  pub stopping : Stopping
  pub cancelled : Bool

watching : Bool → Deadline → Watch
watching cancelled d = record {
  deadline = d;
  watcher = selecting;
  stopping = uncalled;
  cancelled = cancelled;
}

-- Up to the start of the goroutine: the deadline of the context, the error of setting it, whether
-- the context has ended, and the deadline that the connection has.
unfoldable pub start_watching : Option ℕ → Option ℕ → Bool → Deadline → Result ℕ Watch
unfolding watching
start_watching none e cancelled d = ok (watching cancelled d)
start_watching (some t) none cancelled d = ok (watching cancelled (at t))
start_watching (some t) (some e) cancelled d = err e

-- Errors of the later calls of SetDeadline are ignored; then the deadline is as it was.
pub data Work : Watch → Watch → Type 0 where
  interrupt :
      (s : Watch)
      → s.watcher ≡ selecting
      → s.cancelled ≡ true
      → Work s (record s { deadline = immediate; watcher = leaving })
  interrupt_fails :
      (s : Watch)
      → s.watcher ≡ selecting
      → s.cancelled ≡ true
      → Work s (record s { watcher = leaving })
  notice_stop :
      (s : Watch)
      → s.watcher ≡ selecting
      → s.stopping ≢ uncalled
      → Work s (record s { watcher = leaving })
  end_watcher : (s : Watch) → s.watcher ≡ leaving → Work s (record s { watcher = ended })
  close_stop : (s : Watch) → s.stopping ≡ uncalled → Work s (record s { stopping = waiting })
  clear :
      (s : Watch)
      → s.stopping ≡ waiting
      → s.watcher ≡ ended
      → Work s (record s { stopping = returned; deadline = unset })
  clear_fails :
      (s : Watch)
      → s.stopping ≡ waiting
      → s.watcher ≡ ended
      → Work s (record s { stopping = returned })

-- The context ends, or the next owner sets a deadline of its own.
pub data Outside : Watch → Watch → Type 0 where
  cancel : (s : Watch) → Outside s (record s { cancelled = true })
  own : (d : Deadline) (s : Watch) → s.stopping ≡ returned → Outside s (record s { deadline = d })

pub data Comes (s : Watch) : Watch → Type 0 where
  here : Comes s s
  works : {t u : Watch} → Comes s t → Work t u → Comes s u
  meanwhile : {t u : Watch} → Comes s t → Outside t u → Comes s u
