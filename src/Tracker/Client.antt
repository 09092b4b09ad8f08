-- ===== src/Tracker/Client.antt =====
-- internal/tracker/client.go and types.go: the request of an announce, and what becomes of the
-- answer. Go's net/http, and all but the query of a URL, are a record of operations.
pub mod Query
pub mod Answered
use bittorrent_client.Base.{
  Bool, List, Option, Result, [], err, if◌then◌else◌, leb, length, ltb, none, ok, some, suc, take,
  zero, ℕ, ◌%◌, ◌*◌, ◌++◌, ◌+◌, ◌/◌, ◌^◌, ◌||◌, ◌∷◌,
}
use bittorrent_client.Wire.Io.{Stream, eof, rest}
use bittorrent_client.Tracker.{
  Value, AnnounceResponse, TrackerError, decode_announce_response, second, identified,
}
use bittorrent_client.Tracker.Url.{Values, encode_values, url_query, values_set}
use bittorrent_client.Net.{IpAddr}

-- strconv.FormatUint(n, 10), for a number below 10 ^ fuel.
pub digits : ℕ → ℕ → List ℕ
digits zero n = []
digits (suc fuel) n =
    let higher = digits fuel (n / 10) in
    if ltb n 10 then (48 + n) ∷ [] else higher ++ ((48 + n % 10) ∷ [])

-- A uint64 has 20 digits at most.
unfoldable pub format_uint : ℕ → List ℕ
unfolding digits
format_uint n = digits 20 n

-- An HTTP response; its body ends with an error of the connection or io.EOF.
pub record HttpResponse : Type 0 where
  pub status_code : ℕ
  pub body : Stream

-- `raw_query` is the field RawQuery, which `with_raw_query` sets, `make_request` the error of making
-- a request, and `send` client.Do under a timeout in nanoseconds.
pub record Http : Type 1 where
  pub Url : Type 0
  pub parse_url : List ℕ → Result ℕ Url
  pub raw_query : Url → List ℕ
  pub with_raw_query : Url → List ℕ → Url
  pub print_url : Url → List ℕ
  pub make_request : List ℕ → Option ℕ
  pub send : ℕ → List ℕ → Result ℕ HttpResponse
  pub decode_body : Stream → Result ℕ Value
  pub parse_addr : List ℕ → Option IpAddr

pub record AnnounceRequest : Type 0 where
  pub info_hash : List ℕ
  pub peer_id : List ℕ
  pub port : ℕ
  pub uploaded : ℕ
  pub downloaded : ℕ
  pub left : ℕ
  pub compact : Bool
  pub event : List ℕ

abbrev pub event_started : List ℕ
event_started = b's' ∷ b't' ∷ b'a' ∷ b'r' ∷ b't' ∷ b'e' ∷ b'd' ∷ []

abbrev pub event_completed : List ℕ
event_completed = b'c' ∷ b'o' ∷ b'm' ∷ b'p' ∷ b'l' ∷ b'e' ∷ b't' ∷ b'e' ∷ b'd' ∷ []

abbrev pub event_stopped : List ℕ
event_stopped = b's' ∷ b't' ∷ b'o' ∷ b'p' ∷ b'p' ∷ b'e' ∷ b'd' ∷ []

abbrev pub info_hash_key : List ℕ
info_hash_key = b'i' ∷ b'n' ∷ b'f' ∷ b'o' ∷ b'_' ∷ b'h' ∷ b'a' ∷ b's' ∷ b'h' ∷ []

abbrev pub peer_id_param : List ℕ
peer_id_param = b'p' ∷ b'e' ∷ b'e' ∷ b'r' ∷ b'_' ∷ b'i' ∷ b'd' ∷ []

abbrev pub port_param : List ℕ
port_param = b'p' ∷ b'o' ∷ b'r' ∷ b't' ∷ []

abbrev pub uploaded_key : List ℕ
uploaded_key = b'u' ∷ b'p' ∷ b'l' ∷ b'o' ∷ b'a' ∷ b'd' ∷ b'e' ∷ b'd' ∷ []

abbrev pub downloaded_key : List ℕ
downloaded_key = b'd' ∷ b'o' ∷ b'w' ∷ b'n' ∷ b'l' ∷ b'o' ∷ b'a' ∷ b'd' ∷ b'e' ∷ b'd' ∷ []

abbrev pub left_key : List ℕ
left_key = b'l' ∷ b'e' ∷ b'f' ∷ b't' ∷ []

abbrev pub event_key : List ℕ
event_key = b'e' ∷ b'v' ∷ b'e' ∷ b'n' ∷ b't' ∷ []

abbrev pub compact_key : List ℕ
compact_key = b'c' ∷ b'o' ∷ b'm' ∷ b'p' ∷ b'a' ∷ b'c' ∷ b't' ∷ []

set_event : List ℕ → Values → Values
set_event [] keys = keys
set_event (e ∷ es) keys = values_set event_key (e ∷ es) keys

-- The calls of Set, from the tracker's own query on.
unfoldable pub announce_values : AnnounceRequest → Values → Values
unfolding set_event
announce_values r keys =
    let identified =
      values_set peer_id_param r.peer_id (values_set info_hash_key r.info_hash keys) in
    let reachable = values_set port_param (format_uint r.port) identified in
    let sent = values_set uploaded_key (format_uint r.uploaded) reachable in
    let received = values_set downloaded_key (format_uint r.downloaded) sent in
    let remaining = values_set left_key (format_uint r.left) received in
    values_set compact_key (if r.compact then b'1' ∷ [] else b'0' ∷ [])
      (set_event r.event remaining)

pub data ClientError : Type 0 where
  bad_url bad_request not_sent : ℕ → ClientError
  bad_status : ℕ → ClientError
  bad_response : TrackerError → ClientError

-- Client; `http_client` is the timeout of its HTTP client, or nil.
pub record Client : Type 0 where
  pub http_client : Option ℕ

abbrev pub default_timeout : ℕ
default_timeout = 5 * second

-- 2<<20
abbrev pub body_limit : ℕ
body_limit = 2 * 2 ^ 20

-- io.LimitReader
unfoldable pub limited : ℕ → Stream → Stream
limited n s = if leb n (length s.bytes) then record { bytes = take n s.bytes; ending = eof } else s

module _ (http : Http) where
  open http use {
    Url, parse_url, raw_query, with_raw_query, print_url, make_request, send, decode_body,
    parse_addr,
  }

  merged : AnnounceRequest → Result ℕ Url → Result ClientError (List ℕ)
  merged r (err e) = err (bad_url e)
  merged r (ok base) =
      let keys = announce_values r (url_query (raw_query base)) in
      ok (print_url (with_raw_query base (encode_values keys)))

  unfoldable pub build_tracker_url : List ℕ → AnnounceRequest → Result ClientError (List ℕ)
  unfolding merged
  build_tracker_url url r = merged r (parse_url url)

  decoded_response : Result TrackerError AnnounceResponse → Result ClientError AnnounceResponse
  decoded_response (err e) = err (bad_response e)
  decoded_response (ok a) = ok a

  received : Result ℕ HttpResponse → Result ClientError AnnounceResponse
  unfolding decoded_response
  received (err e) = err (not_sent e)
  received (ok res) =
      if ltb res.status_code 200 || leb 300 res.status_code
      then err (bad_status res.status_code)
      else decoded_response
          (decode_announce_response parse_addr decode_body (limited body_limit res.body))

  unfoldable pub timeout_of : Option ℕ → ℕ
  timeout_of none = default_timeout
  timeout_of (some timeout) = timeout

  requested : Client → List ℕ → Option ℕ → Result ClientError AnnounceResponse
  unfolding received timeout_of
  requested c url (some e) = err (bad_request e)
  requested c url none = received (send (timeout_of c.http_client) url)

  asked : Client → Result ClientError (List ℕ) → Result ClientError AnnounceResponse
  unfolding requested
  asked c (err e) = err e
  asked c (ok url) = requested c url (make_request url)

  -- Client.Announce; the context shows as an error of `send`.
  unfoldable pub announce : Client → List ℕ → AnnounceRequest → Result ClientError AnnounceResponse
  unfolding asked
  announce c url r = asked c (build_tracker_url url r)
