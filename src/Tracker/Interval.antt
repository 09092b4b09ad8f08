-- ===== src/Tracker/Interval.antt =====
-- The interval and the port of a response, as numbers.
use bittorrent_client.Base.{
  Option, arith, ok, pos, some, subst, suc, sym, zero, ℕ, ◌*◌, ◌<◌, ◌^◌, ◌↔◌, ◌≡◌,
}
use bittorrent_client.Tracker.{Value, int64, uint64, parse_interval, parse_port}

-- The value is the number `n`, as either of Go's integer types.
pub data Counts : Option Value → ℕ → Type 0 where
  signed : (n : ℕ) → Counts (some (int64 (pos n))) n
  unsigned : (n : ℕ) → Counts (some (uint64 n)) n

interval-Counts :
    (v : Option Value) (d : ℕ)
    → parse_interval v ≡ ok d
    → (s : ℕ) × Counts v s × (0 < s) × (d ≡ s * 10 ^ 9) × (d < 2 ^ 63)
unfolding parse_interval
interval-Counts (some (int64 (pos zero))) d e = absurd (ground arith)
interval-Counts (some (int64 (pos (suc n)))) d e =
    (suc n, signed (suc n), omega arith, ground arith, ground arith)
interval-Counts (some (uint64 zero)) d e = absurd (ground arith)
interval-Counts (some (uint64 (suc n))) d e =
    (suc n, unsigned (suc n), omega arith, ground arith, ground arith)
interval-Counts _ d e = absurd (ground arith)

Counts-interval :
    (v : Option Value) (d : ℕ)
    → (s : ℕ) × Counts v s × (0 < s) × (d ≡ s * 10 ^ 9) × (d < 2 ^ 63)
    → parse_interval v ≡ ok d
unfolding parse_interval
Counts-interval _ d (zero, c, positive, e, fits) = absurd (omega arith)
Counts-interval _ d (suc s, signed _, positive, e, fits) = ground arith
Counts-interval _ d (suc s, unsigned _, positive, e, fits) = ground arith

-- `parseInterval` accepts exactly the positive integers of seconds whose nanoseconds fit a
-- time.Duration, and returns those nanoseconds.
pub parse_interval_iff :
    (v : Option Value) (d : ℕ)
    → (parse_interval v ≡ ok d) ↔ ((s : ℕ) × Counts v s × (0 < s) × (d ≡ s * 10 ^ 9) × (d < 2 ^ 63))
parse_interval_iff v d = (interval-Counts v d, Counts-interval v d)

port-Counts : (v : Option Value) (p : ℕ) → parse_port v ≡ ok p → Counts v p × (0 < p) × (p < 2 ^ 16)
unfolding parse_port
port-Counts (some (int64 (pos zero))) p e = absurd (ground arith)
port-Counts (some (int64 (pos (suc n)))) p e =
    let same : p ≡ suc n = ground arith in
    (
      subst (Counts (some (int64 (pos (suc n))))) (sym same) (signed (suc n)),
      omega arith,
      ground arith,
    )
port-Counts (some (uint64 n)) p e =
    let same : p ≡ n = ground arith in
    (subst (Counts (some (uint64 n))) (sym same) (unsigned n), ground arith, ground arith)
port-Counts _ p e = absurd (ground arith)

Counts-port : (v : Option Value) (p : ℕ) → Counts v p × (0 < p) × (p < 2 ^ 16) → parse_port v ≡ ok p
unfolding parse_port
Counts-port _ zero (c, positive, fits) = absurd (omega arith)
Counts-port _ (suc p) (signed _, positive, fits) = ground arith
Counts-port _ (suc p) (unsigned _, positive, fits) = ground arith

-- `parsePort` accepts exactly the integers from 1 to 65535.
pub parse_port_iff :
    (v : Option Value) (p : ℕ) → (parse_port v ≡ ok p) ↔ (Counts v p × (0 < p) × (p < 2 ^ 16))
parse_port_iff v p = (port-Counts v p, Counts-port v p)
