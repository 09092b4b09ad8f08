-- ===== src/Tracker/Client/Answered.antt =====
-- When Announce returns a response.
use bittorrent_client.Base.{
  Bool-cases, List, Option, Result, ap, arith, drop, err, false, inl, inr, leb, length,
  length-append, length-take, ltb, none, ok, refl, some, sym, take, take-append, take-append-drop,
  true, ℕ, ◌++◌, ◌<◌, ◌||◌, ◌↔◌, ◌∙◌, ◌≡◌, ◌≤◌,
}
use bittorrent_client.Tracker.Client.{
  Client, AnnounceRequest, ClientError, Http, HttpResponse, announce, asked, body_limit,
  build_tracker_url, limited, received, requested, decoded_response, timeout_of,
}
use bittorrent_client.Tracker.Response.{Announces, decode_announce_response_iff}
use bittorrent_client.Wire.Io.{Stream, eof}
use bittorrent_client.Tracker.{
  dictionary, Entries, AnnounceResponse, TrackerError, decode_announce_response,
}

-- The time, in nanoseconds, that a client allows for a request: its own, or five seconds.
pub data Allows : Option ℕ → ℕ → Type 0 where
  own : (t : ℕ) → Allows (some t) t
  usual : Allows none 5000000000

-- What is read of a stream up to a limit: all of it below the limit, and else the first `n` bytes,
-- after which it ends well.
pub data Head (n : ℕ) (s : Stream) : Stream → Type 0 where
  short : length s.bytes < n → Head n s s
  cut :
      (front back : List ℕ)
      → s.bytes ≡ front ++ back
      → length front ≡ n
      → Head n s (record { bytes = front; ending = eof })

limited-Head : (n : ℕ) (s : Stream) → Head n s (limited n s)
unfolding limited
limited-Head n s = elim (Bool-cases (leb n (length s.bytes))) [
  | inl long ↦ rw long (
      cut (take n s.bytes) (drop n s.bytes) (sym (take-append-drop n s.bytes))
        (ground (arith, length-take n s.bytes)))
  | inr fits ↦ rw fits (short (ground arith))
]

Head-limited : (n : ℕ) (s t : Stream) → Head n s t → limited n s ≡ t
unfolding limited
Head-limited n s t (short h) =
    let fits : leb n (length s.bytes) ≡ false = ground arith in rw fits refl
Head-limited n s t (cut front back split size) =
    let long : leb n (length s.bytes) ≡ true =
      ground (arith, ap length split, length-append front back) in
    let same : take n s.bytes ≡ front = ap (take n) split ∙ take-append n front back size in
    rw (long, same) refl

module _ (http : Http) where
  open http use {make_request, send, decode_body, parse_addr}

  timeout_of-Allows : (o : Option ℕ) → Allows o (timeout_of http o)
  unfolding timeout_of
  timeout_of-Allows none = usual
  timeout_of-Allows (some t) = own t

  Allows-timeout_of : (o : Option ℕ) (t : ℕ) → Allows o t → timeout_of http o ≡ t
  unfolding timeout_of
  Allows-timeout_of o t (own _) = refl
  Allows-timeout_of o t usual = refl

  -- The exchange that ends with the response `a`.
  pub record Answered (c : Client) (url : List ℕ) (r : AnnounceRequest) (a : AnnounceResponse)
      : Type 0 where
    pub target : List ℕ
    pub res : HttpResponse
    pub built : build_tracker_url http url r ≡ ok target
    pub made : make_request target ≡ none
    pub timeout : ℕ
    pub allowed : Allows c.http_client timeout
    pub sent : send timeout target ≡ ok res
    pub low : 200 ≤ res.status_code
    pub high : res.status_code < 300
    pub body : Stream
    pub head : Head 2097152 res.body body
    pub entries : Entries
    pub decoded : decode_body body ≡ ok (dictionary entries)
    pub announced : Announces parse_addr entries a

  decoded-ok :
      (x : Result TrackerError AnnounceResponse) (a : AnnounceResponse)
      → decoded_response http x ≡ ok a
      → x ≡ ok a
  unfolding decoded_response
  decoded-ok (err e) a h = absurd (ground arith)
  decoded-ok (ok b) a h = ground arith

  sent-Answered :
      (c : Client) (url : List ℕ) (r : AnnounceRequest) (a : AnnounceResponse) (target : List ℕ)
      (x : Result ℕ HttpResponse)
      → build_tracker_url http url r ≡ ok target
      → make_request target ≡ none
      → send (timeout_of http c.http_client) target ≡ x
      → received http x ≡ ok a
      → Answered c url r a
  unfolding received
  sent-Answered c url r a target (err e) b m s h = absurd (ground arith)
  sent-Answered c url r a target (ok res) b m s h =
      elim (Bool-cases (ltb res.status_code 200 || leb 300 res.status_code)) [
        | inl refused ↦ absurd (ground arith)
        | inr fine ↦
            let body : Stream = limited body_limit res.body in
            let (d, parsed, announced) =
              (decode_announce_response_iff parse_addr decode_body body a).0 (
                decoded-ok (decode_announce_response parse_addr decode_body body) a
                  (rw fine at h)) in
            record {
              target = target;
              res = res;
              built = b;
              made = m;
              timeout = timeout_of http c.http_client;
              allowed = timeout_of-Allows c.http_client;
              sent = s;
              low = ground arith;
              high = ground arith;
              body = body;
              head = limited-Head body_limit res.body;
              entries = d;
              decoded = parsed;
              announced = announced;
            }
      ]

  made-Answered :
      (c : Client) (url : List ℕ) (r : AnnounceRequest) (a : AnnounceResponse) (target : List ℕ)
      (x : Option ℕ)
      → build_tracker_url http url r ≡ ok target
      → make_request target ≡ x
      → requested http c target x ≡ ok a
      → Answered c url r a
  unfolding requested
  made-Answered c url r a target (some e) b m h = absurd (ground arith)
  made-Answered c url r a target none b m h =
      sent-Answered c url r a target (send (timeout_of http c.http_client) target) b m refl h

  asked-Answered :
      (c : Client) (url : List ℕ) (r : AnnounceRequest) (a : AnnounceResponse)
      (x : Result ClientError (List ℕ))
      → build_tracker_url http url r ≡ x
      → asked http c x ≡ ok a
      → Answered c url r a
  unfolding asked
  asked-Answered c url r a (err e) b h = absurd (ground arith)
  asked-Answered c url r a (ok target) b h =
      made-Answered c url r a target (make_request target) b refl h

  -- Announce returns a response exactly when the announce URL can be built and a request made of
  -- it, the HTTP client gets an answer with a status from 200 to 299 in the time that the given
  -- client allows, or in five seconds without one, and the first 2 MiB of its body decode to a
  -- dictionary that announces the response: without a failure reason, and with its interval and its
  -- peers. In every other case it returns an error.
  pub announce_iff :
      (c : Client) (url : List ℕ) (r : AnnounceRequest) (a : AnnounceResponse)
      → (announce http c url r ≡ ok a) ↔ Answered c url r a
  unfolding announce asked requested received decoded_response
  announce_iff c url r a = (
    asked-Answered c url r a (build_tracker_url http url r) refl,
    λ w.
        let fine : (ltb w.res.status_code 200 || leb 300 w.res.status_code) ≡ false =
          ground (arith, w.low, w.high) in
        let decodes : decode_announce_response parse_addr decode_body w.body ≡ ok a =
          (decode_announce_response_iff parse_addr decode_body w.body a).1
            (w.entries, w.decoded, w.announced) in
        rw
          (
            w.built,
            w.made,
            Allows-timeout_of c.http_client w.timeout w.allowed,
            w.sent,
            fine,
            Head-limited body_limit w.res.body w.body w.head,
            decodes,
          )
          refl,
  )
