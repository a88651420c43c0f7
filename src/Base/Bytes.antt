-- ===== src/Base/Bytes.antt =====
-- The bytes of an unsigned integer in memory, least significant first.
use Prim.Native.Nat.{ℕ, zero, suc, ◌+◌, ◌*◌, ◌/◌, ◌%◌, ◌^◌, ◌<◌}
use mathlib.Core.Path.{◌≡◌, refl, ap}
use mathlib.Core.List.{List, [], ◌∷◌}
use native.Mathlib.Nat.{pow-suc}
use native.Mathlib.Omega.{arith}
use cracen.Base.Lists.{length}

unfoldable pub to_bytes : ℕ → ℕ → List ℕ
to_bytes zero n = []
to_bytes (suc k) n = n % 256 ∷ to_bytes k (n / 256)

unfoldable pub of_bytes : List ℕ → ℕ
of_bytes [] = 0
of_bytes (b ∷ bs) = b + 256 * of_bytes bs

pub length-to_bytes : (k n : ℕ) → length (to_bytes k n) ≡ k
unfolding to_bytes
length-to_bytes zero n = refl
length-to_bytes (suc k) n = ap suc (length-to_bytes k (n / 256))

pub of_bytes-to_bytes : (k n : ℕ) → n < 256 ^ k → of_bytes (to_bytes k n) ≡ n
unfolding to_bytes of_bytes
of_bytes-to_bytes zero n h = omega arith
of_bytes-to_bytes (suc k) n h =
    omega (arith, of_bytes-to_bytes k (n / 256) (omega (arith, pow-suc 256 k)))
