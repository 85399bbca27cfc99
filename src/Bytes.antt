-- ===== src/Bytes.antt =====
-- Integers in memory: the unsigned integers of ServerCore/Types.h as `sizeof(T)` bytes, low byte
-- first, as on the x86 targets of the Visual Studio projects.
use native.Mathlib.Nat.{pow-suc}
use cplus_server_core_model.Prelude.{
  ℕ, zero, suc, ◌+◌, ◌*◌, ◌/◌, ◌%◌, ◌^◌, ◌<◌, ◌≡◌, refl, ap, List, [], ◌∷◌, arith, length,
}

-- The `w` bytes of the integer `v`.
unfoldable pub encode : ℕ → ℕ → List ℕ
encode zero v = []
encode (suc w) v = (v % 256) ∷ encode w (v / 256)

-- The integer that stands in these bytes.
unfoldable pub decode : List ℕ → ℕ
decode [] = 0
decode (b ∷ bs) = b + 256 * decode bs

pub length-encode : (w v : ℕ) → length (encode w v) ≡ w
unfolding encode
length-encode zero v = refl
length-encode (suc w) v = ap suc (length-encode w (v / 256))

pub decode-encode : (w v : ℕ) → v < 256 ^ w → decode (encode w v) ≡ v
unfolding encode decode
decode-encode zero v h = omega arith
decode-encode (suc w) v h = omega (arith, decode-encode w (v / 256) (omega (arith, pow-suc 256 w)))
