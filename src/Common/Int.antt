-- ===== src/Common/Int.antt =====
-- The C type `int` as an integer over the native numbers, read by its sign.
use Prim.Native.Nat.{ℕ, zero, suc}
use mathlib.Core.Path.{◌≡◌, refl}

-- `negsuc n` is -(n + 1).
pub data ℤ : Type 0 where
  pos : ℕ → ℤ
  negsuc : ℕ → ℤ

abbrev pub pos_part : ℤ → ℕ
pos_part (pos n) = n
pos_part (negsuc n) = 0

abbrev pub neg_part : ℤ → ℕ
neg_part (pos n) = 0
neg_part (negsuc n) = suc n

-- How an `int` compares with 0.
pub data Sign : Type 0 where
  negative zero_sign positive : Sign

abbrev pub sign : ℤ → Sign
sign (pos zero) = Sign.zero_sign
sign (pos (suc n)) = Sign.positive
sign (negsuc n) = Sign.negative

-- The cases of `switch (balance)`: -1, 0, 1, and any other value, at which the switch does nothing.
pub data Tilt : Type 0 where
  left_high even right_high other : Tilt

abbrev pub tilt : ℤ → Tilt
tilt (negsuc zero) = Tilt.left_high
tilt (pos zero) = Tilt.even
tilt (pos (suc zero)) = Tilt.right_high
tilt _ = Tilt.other

-- To split on a comparison and keep the equation.
pub data SignCase (s : Sign) : Type 0 where
  greater : s ≡ Sign.positive → SignCase s
  less : s ≡ Sign.negative → SignCase s
  equal : s ≡ Sign.zero_sign → SignCase s

pub Sign-cases : (s : Sign) → SignCase s
Sign-cases Sign.positive = SignCase.greater refl
Sign-cases Sign.negative = SignCase.less refl
Sign-cases Sign.zero_sign = SignCase.equal refl
