-- ===== src/Examples/Watches.antt =====
-- A watch of a context that has ended: the returned function is called while the goroutine is about
-- to set the deadline.
use bittorrent_client.Base.{none, refl, true, ◌≡◌}
use bittorrent_client.Peer.Watch.{
  Comes, Watch, Work, clear, close_stop, end_watcher, ended, here, immediate, interrupt, leaving,
  returned, selecting, start_watching, uncalled, unset, waiting, works,
}
use bittorrent_client.Peer.Watch.Quiet.{returned-Quiet}
use bittorrent_client.Peer.Watch.Finished.{Eventually, waiting-Eventually}

abbrev begun : Watch
begun = record { deadline = unset; watcher = selecting; stopping = uncalled; cancelled = true }

abbrev called : Watch
called = record { deadline = unset; watcher = selecting; stopping = waiting; cancelled = true }

abbrev interrupted : Watch
interrupted = record {
  deadline = immediate;
  watcher = leaving;
  stopping = waiting;
  cancelled = true;
}

abbrev over : Watch
over = record { deadline = unset; watcher = ended; stopping = returned; cancelled = true }

run : Comes begun over
run =
    works
      (works (works (works here (close_stop begun refl)) (interrupt called refl refl))
        (end_watcher interrupted refl))
      (clear (record interrupted { watcher = ended }) refl refl)

returned-Quiet_example : (over.watcher ≡ ended) × (¬ (Work over called))
unfolding start_watching
returned-Quiet_example = returned-Quiet none none true unset begun over called refl run refl

waiting-Eventually_example : Eventually called
waiting-Eventually_example = waiting-Eventually called refl
