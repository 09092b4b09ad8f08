-- ===== src/Base/Table.antt =====
-- Facts about all bytes, checked by evaluation.
use Prim.Native.Nat.{ℕ, zero, suc, ◌<◌}
use mathlib.Core.Path.{◌≡◌, refl}
use mathlib.Core.Bool.{Bool, true, ◌&&◌}
use native.Mathlib.Omega.{arith}

-- The test passes at every number under the bound.
unfoldable pub every : ℕ → (ℕ → Bool) → Bool
every zero test = true
every (suc k) test = every k test && test k

pub every-at : (k : ℕ) (test : ℕ → Bool) (a : ℕ) → every k test ≡ true → a < k → test a ≡ true
unfolding every
every-at zero test a all h = elim h [ ]
every-at (suc k) test a all h = ground (arith, every-at k test a)

pub every_intro :
    (k : ℕ) (test : ℕ → Bool) → ((a : ℕ) → a < k → test a ≡ true) → every k test ≡ true
unfolding every
every_intro zero test h = refl
every_intro (suc k) test h = ground (arith, h k, every_intro k test (λ a q. h a (omega arith)))
