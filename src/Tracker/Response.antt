-- ===== src/Tracker/Response.antt =====
-- The responses that `decodeAnnounceResponse` accepts.
use bittorrent_client.Base.{
  List, Option, Result, arith, err, ok, refl, some, subst, ℕ, ◌*◌, ◌<◌, ◌^◌, ◌↔◌, ◌≡◌, ◌≢◌,
}
use bittorrent_client.Net.{IpAddr}
use bittorrent_client.Tracker.{
  Value, Entries, Peer, AnnounceResponse, TrackerError, lookup, failure_key, interval_key,
  peers_key, parse_interval, decode_announce_response, text, items, dictionary, Values, decoded,
  parse_peers, unless_failure, with_interval, with_peers,
}
use bittorrent_client.Tracker.Interval.{Counts, parse_interval_iff}
use bittorrent_client.Tracker.Compact.{Packed, parse_compact_peers_iff}
use bittorrent_client.Tracker.Listed.{Listed, parse_dict_peers_iff}

module _ (parse_addr : List ℕ → Option IpAddr) where
  -- Either form of the peer list.
  pub data Lists : Option Value → List Peer → Type 0 where
    packed : {raw : List ℕ} {ps : List Peer} → Packed raw ps → Lists (some (text raw)) ps
    listed : {vs : Values} {ps : List Peer} → Listed parse_addr vs ps → Lists (some (items vs)) ps

  -- The dictionary announces the response.
  pub record Announces (d : Entries) (r : AnnounceResponse) : Type 0 where
    pub no_failure : (reason : List ℕ) → lookup failure_key d ≢ some (text reason)
    pub seconds : ℕ
    pub counts : Counts (lookup interval_key d) seconds
    pub positive : 0 < seconds
    pub interval_eq : r.interval ≡ seconds * 10 ^ 9
    pub interval_fits : r.interval < 2 ^ 63
    pub peers : Lists (lookup peers_key d) r.peers

  parsed-Lists : (o : Option Value) (ps : List Peer) → parse_peers parse_addr o ≡ ok ps → Lists o ps
  unfolding parse_peers
  parsed-Lists (some (text raw)) ps e = packed ((parse_compact_peers_iff raw ps).0 e)
  parsed-Lists (some (items vs)) ps e = listed ((parse_dict_peers_iff parse_addr vs ps).0 e)
  parsed-Lists _ ps e = absurd (ground arith)

  Lists-parsed : {o : Option Value} {ps : List Peer} → Lists o ps → parse_peers parse_addr o ≡ ok ps
  unfolding parse_peers
  Lists-parsed (packed {raw = raw} {ps = ps} h) = (parse_compact_peers_iff raw ps).1 h
  Lists-parsed (listed {vs = vs} {ps = ps} h) = (parse_dict_peers_iff parse_addr vs ps).1 h

  with_interval-Announces :
      (d : Entries) (i : Result TrackerError ℕ) (q : Result TrackerError (List Peer))
      (r : AnnounceResponse)
      → ((reason : List ℕ) → lookup failure_key d ≢ some (text reason))
      → parse_interval (lookup interval_key d) ≡ i
      → parse_peers parse_addr (lookup peers_key d) ≡ q
      → with_interval parse_addr i (lookup peers_key d) ≡ ok r
      → Announces d r
  unfolding with_interval with_peers
  with_interval-Announces d (err x) q r quiet f g e = absurd (ground arith)
  with_interval-Announces d (ok interval) (err x) r quiet f g e = absurd (ground arith)
  with_interval-Announces d (ok interval) (ok ps) r quiet f g e =
      let same : record { interval = interval; peers = ps } ≡ r = ground arith in
      let (s, counts, positive, eq, fits) =
        (parse_interval_iff (lookup interval_key d) interval).0 f in
      subst (Announces d) same (record {
        no_failure = quiet;
        seconds = s;
        counts = counts;
        positive = positive;
        interval_eq = eq;
        interval_fits = fits;
        peers = parsed-Lists (lookup peers_key d) ps g;
      })

  unless_failure-Announces :
      (d : Entries) (o : Option Value) (r : AnnounceResponse)
      → lookup failure_key d ≡ o
      → unless_failure parse_addr o d ≡ ok r
      → Announces d r
  unfolding unless_failure
  unless_failure-Announces d (some (text reason)) r f e = absurd (ground arith)
  unless_failure-Announces d o r f e =
      with_interval-Announces d (parse_interval (lookup interval_key d))
        (parse_peers parse_addr (lookup peers_key d)) r (λ reason q. cc) refl refl e

  Announces-with_interval :
      (d : Entries) (r : AnnounceResponse)
      → Announces d r
      → with_interval parse_addr (parse_interval (lookup interval_key d)) (lookup peers_key d)
        ≡ ok r
  unfolding with_interval with_peers
  Announces-with_interval d r h =
      rw
        (
          (parse_interval_iff (lookup interval_key d) r.interval).1
              (h.seconds, h.counts, h.positive, h.interval_eq, h.interval_fits),
          Lists-parsed h.peers,
        )
        refl

  Announces-unless_failure :
      (d : Entries) (o : Option Value) (r : AnnounceResponse)
      → lookup failure_key d ≡ o
      → Announces d r
      → unless_failure parse_addr o d ≡ ok r
  unfolding unless_failure
  Announces-unless_failure d (some (text reason)) r f h = absurd (h.no_failure reason f)
  Announces-unless_failure d o r f h = Announces-with_interval d r h

  decoded-Announces :
      (v : Result ℕ Value) (r : AnnounceResponse)
      → decoded parse_addr v ≡ ok r
      → (d : Entries) × (v ≡ ok (dictionary d)) × Announces d r
  unfolding decoded
  decoded-Announces (err x) r e = absurd (ground arith)
  decoded-Announces (ok (dictionary d)) r e =
      (d, refl, unless_failure-Announces d (lookup failure_key d) r refl e)
  decoded-Announces (ok _) r e = absurd (ground arith)

  -- `decodeAnnounceResponse` accepts a body exactly when it decodes to a dictionary that has no
  -- failure reason, a positive interval of seconds that fits a time.Duration in nanoseconds, and
  -- peers in the compact or in the dictionary form; it returns this interval and these peers in
  -- order.
  pub decode_announce_response_iff :
      {Body : Type 0} (decode : Body → Result ℕ Value) (body : Body) (r : AnnounceResponse)
      → (decode_announce_response parse_addr decode body ≡ ok r)
        ↔ ((d : Entries) × (decode body ≡ ok (dictionary d)) × Announces d r)
  unfolding decode_announce_response decoded
  decode_announce_response_iff decode body r = (
    decoded-Announces (decode body) r,
    λ (d, e, h). rw e (Announces-unless_failure d (lookup failure_key d) r refl h),
  )
