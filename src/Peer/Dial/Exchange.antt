-- ===== src/Peer/Dial/Exchange.antt =====
-- What an exchange of handshakes means, and what dial leaves of the connection.
use bittorrent_client.Base.{
  Bool-cases, Flow, List, Option, Returns, ap, arith, bytes_eq, bytes_eq_self, bytes_eq→eq, done,
  fail, inl, inr, length, none, refl, some, spent, take, take_all, true, ℕ, ◌++◌, ◌-◌, ◌∙◌, ◌≡◌,
  ◌≢◌,
}
use bittorrent_client.Wire.Io.{Stream}
use bittorrent_client.Wire.Error.{WireError}
use bittorrent_client.Wire.Writer.{Writer, Written, stalled, written}
use bittorrent_client.Wire.Handshake.{
  Handshake, IsHandshake, handshake_bytes, read_handshake, write_handshake,
}
use bittorrent_client.Wire.Handshake.Trip.{read_handshake-done, read_handshake-Returns}
use bittorrent_client.Wire.Writer.Complete.{Progress, write_full-Progress}
use bittorrent_client.Peer.Dial.{
  ExchangeError, Conn, local_handshake, write_failed, read_failed, different_hash, compared,
  DialFault, answered, dial_connected, ended, exchange_handshake, watched,
}

module _ (w : Writer) where
  open w use {State, sent}

  -- What each outcome says of the two directions.
  abbrev pub Exchanged : List ℕ → List ℕ → Conn w → Flow ExchangeError (Conn w) Handshake → Type 0
  Exchanged info_hash peer_id r (done h q) =
      (sent q.out ≡ sent r.out ++ handshake_bytes (local_handshake info_hash peer_id))
      × (r.input.bytes ≡ handshake_bytes h ++ q.input.bytes)
      × IsHandshake h
      × (h.info_hash ≡ info_hash)
      × (q.closed ≡ r.closed)
  Exchanged info_hash peer_id r (fail (write_failed e) q) =
      (q.input ≡ r.input) × (q.closed ≡ r.closed)
  Exchanged info_hash peer_id r (fail (read_failed e) q) =
      (sent q.out ≡ sent r.out ++ handshake_bytes (local_handshake info_hash peer_id))
      × (read_handshake r.input ≡ fail e q.input)
      × (q.closed ≡ r.closed)
  Exchanged info_hash peer_id r (fail different_hash q) =
      (sent q.out ≡ sent r.out ++ handshake_bytes (local_handshake info_hash peer_id))
      × ((h : Handshake) × (r.input.bytes ≡ handshake_bytes h ++ q.input.bytes)
          × (h.info_hash ≢ info_hash))
      × (q.closed ≡ r.closed)
  Exchanged info_hash peer_id r spent = ⊥

  compared-Exchanged :
      (info_hash peer_id : List ℕ) (r : Conn w) (o : State) (x : Flow WireError Stream Handshake)
      → sent o ≡ sent r.out ++ handshake_bytes (local_handshake info_hash peer_id)
      → read_handshake r.input ≡ x
      → Returns x
      → Exchanged info_hash peer_id r (compared w info_hash o r.closed x)
  unfolding compared
  compared-Exchanged info_hash peer_id r o (done h t) out e f =
      let (valid, split, same) = read_handshake-done r.input t h e in
      elim (Bool-cases (bytes_eq h.info_hash info_hash)) [
        | inl match ↦ rw match (out, split, valid, bytes_eq→eq h.info_hash info_hash match, refl)
        | inr differ ↦ rw differ (
          out,
          (
            h,
            split,
            λ q. absurd (ground (arith, ap (bytes_eq h.info_hash) q, bytes_eq_self h.info_hash)),
          ),
          refl,
        )
      ]
  compared-Exchanged info_hash peer_id r o (fail x t) out e f = (out, e, refl)
  compared-Exchanged info_hash peer_id r o spent out e f = f

  answered-Exchanged :
      (info_hash peer_id : List ℕ) (r : Conn w) (x : Written State)
      → Progress w (handshake_bytes (local_handshake info_hash peer_id)) 0 r.out x
      → Exchanged info_hash peer_id r (answered w info_hash r x)
  unfolding answered
  answered-Exchanged info_hash peer_id r (written n none o) h =
      let all : n ≡ length (handshake_bytes (local_handshake info_hash peer_id)) = h.3 refl in
      let whole : n - 0 ≡ n = omega arith in
      compared-Exchanged info_hash peer_id r o (read_handshake r.input)
        (h.2
          ∙ ap (λ k. sent r.out ++ take k (handshake_bytes (local_handshake info_hash peer_id)))
              whole
          ∙ ap (◌++◌ (sent r.out))
              (take_all n (handshake_bytes (local_handshake info_hash peer_id)) (omega arith)))
        refl (read_handshake-Returns r.input)
  answered-Exchanged info_hash peer_id r (written n (some e) o) h = (refl, refl)
  answered-Exchanged info_hash peer_id r stalled h = h

  -- `exchangeHandshake` returns for every writer and every peer. When it succeeds, the receiver got
  -- this client's handshake, and the peer's stood at the head of the stream and names the same info
  -- hash. It fails only when the write fails, before anything is read, when no handshake can be
  -- read, or when the peer's handshake names another info hash. It never closes the connection.
  pub exchange_handshake-Exchanged :
      (info_hash peer_id : List ℕ) (r : Conn w)
      → Exchanged info_hash peer_id r (exchange_handshake w info_hash peer_id r)
  unfolding exchange_handshake write_handshake handshake_bytes
  exchange_handshake-Exchanged info_hash peer_id r =
      answered-Exchanged info_hash peer_id r _
        (write_full-Progress w (handshake_bytes (local_handshake info_hash peer_id)) r.out)

  -- What dial leaves, for each outcome.
  abbrev pub Dialled :
      List ℕ → List ℕ → Option ℕ → Option ℕ → Conn w → Flow DialFault (Conn w) Handshake → Type 0
  Dialled info_hash peer_id watch context r (done h q) =
      (watch ≡ none)
      × (context ≡ none)
      × (exchange_handshake w info_hash peer_id r ≡ done h q)
      × (q.closed ≡ r.closed)
  Dialled info_hash peer_id watch context r (fail x q) = q.closed ≡ true
  Dialled info_hash peer_id watch context r spent = ⊥

  ended-Dialled :
      (info_hash peer_id : List ℕ) (context : Option ℕ) (r : Conn w)
      (x : Flow ExchangeError (Conn w) Handshake)
      → exchange_handshake w info_hash peer_id r ≡ x
      → Exchanged info_hash peer_id r x
      → Dialled info_hash peer_id none context r (ended w context x)
  unfolding ended
  ended-Dialled info_hash peer_id none r (done h q) e x = (refl, refl, e, x.4)
  ended-Dialled info_hash peer_id (some k) r (done h q) e x = refl
  ended-Dialled info_hash peer_id none r (fail k q) e x = refl
  ended-Dialled info_hash peer_id (some j) r (fail k q) e x = refl
  ended-Dialled info_hash peer_id context r spent e x = absurd x

  -- dial returns on every connection, and leaves it open exactly when it succeeds: then its
  -- deadline was set, the exchange succeeded and the context had not ended. On each error, of
  -- setting the deadline, of the exchange or of the context, the connection is closed.
  pub dial_connected-Dialled :
      (info_hash peer_id : List ℕ) (watch context : Option ℕ) (r : Conn w)
      → Dialled info_hash peer_id watch context r
          (dial_connected w info_hash peer_id watch context r)
  unfolding dial_connected watched
  dial_connected-Dialled info_hash peer_id none context r =
      ended-Dialled info_hash peer_id context r (exchange_handshake w info_hash peer_id r) refl
        (exchange_handshake-Exchanged info_hash peer_id r)
  dial_connected-Dialled info_hash peer_id (some e) context r = refl
