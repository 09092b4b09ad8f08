-- ===== src/Tracker/Client/Query.antt =====
-- The query of an announce.
use bittorrent_client.Base.{
  All, Bool, List, [], bytes_eq, false, if◌then◌else◌, some, true, ℕ, ◌*◌, ◌+◌, ◌-◌, ◌<◌, ◌^◌, ◌∷◌,
  ◌≡◌, ◌≢◌,
}
use bittorrent_client.Wire.Endian.{IsBytes}
use bittorrent_client.Tracker.Url.{Values, values_get}
use bittorrent_client.Tracker.Client.{
  Values, AnnounceRequest, compact_key, digits, downloaded_key, event_key, info_hash_key, left_key,
  peer_id_param, port_param, uploaded_key,
}

-- A number that is written out in decimal digits.
abbrev pub read_decimal : ℕ → List ℕ → ℕ
read_decimal n [] = n
read_decimal n (d ∷ ds) = read_decimal (n * 10 + (d - 48)) ds

-- The one value of a parameter.
abbrev pub Asks : Values → List ℕ → List ℕ → Type 0
Asks vs key value = values_get key vs ≡ some (value ∷ [])

-- A parameter whose value is a number in decimal.
abbrev pub Counts : Values → List ℕ → ℕ → Type 0
Counts vs key n = (digits : List ℕ) × Asks vs key digits × (read_decimal 0 digits ≡ n)

-- What a query tells the tracker, besides what was in its URL already.
pub record Announces (r : AnnounceRequest) (before vs : Values) : Type 0 where
  pub info_hash : Asks vs info_hash_key r.info_hash
  pub peer_id : Asks vs peer_id_param r.peer_id
  pub port : Counts vs port_param r.port
  pub uploaded : Counts vs uploaded_key r.uploaded
  pub downloaded : Counts vs downloaded_key r.downloaded
  pub left : Counts vs left_key r.left
  pub compact : Asks vs compact_key (if r.compact then b'1' ∷ [] else b'0' ∷ [])
  pub event_given : r.event ≢ [] → Asks vs event_key r.event
  pub event_none : r.event ≡ [] → values_get event_key vs ≡ values_get event_key before
  pub others :
      (key : List ℕ)
      → All
          (λ k. bytes_eq key k ≡ false)
          (info_hash_key ∷ peer_id_param ∷ port_param ∷ uploaded_key ∷ downloaded_key ∷ left_key
            ∷ compact_key ∷ event_key ∷ [])
      → values_get key vs ≡ values_get key before

abbrev is_given : List ℕ → Bool
is_given [] = false
is_given (e ∷ es) = true

-- The strings are bytes, the port is a uint16 and the counts are uint64.
pub record IsRequest (r : AnnounceRequest) : Type 0 where
  pub info_hash : IsBytes r.info_hash
  pub peer_id : IsBytes r.peer_id
  pub event : IsBytes r.event
  pub port : r.port < 2 ^ 16
  pub uploaded : r.uploaded < 2 ^ 64
  pub downloaded : r.downloaded < 2 ^ 64
  pub left : r.left < 2 ^ 64
