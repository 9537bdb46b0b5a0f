-- ===== src/Prelude/Decimal.antt =====
-- The verb %d, for numbers that are not negative.
use Prim.Native.Nat.{ℕ, zero, suc, ◌+◌, ◌-◌, ◌*◌, ◌/◌, ◌%◌, ◌≤◌}
use mathlib.Core.List.{[], ◌∷◌, ◌++◌}
use mathlib.Core.Path.{◌≡◌, refl}
use mathlib.Core.Logic.{inl, inr}
use mathlib.Core.Bool.{false}
use native.Mathlib.Omega.{arith}
use promptnet.Prelude.Tests.{Str, ltb, if◌then◌else◌, Bool-cases}

-- one round for each digit; the number itself counts more rounds than it has digits
unfoldable pub decimal_from : ℕ → ℕ → Str
decimal_from zero n = []
decimal_from (suc fuel) n =
    let rest = decimal_from fuel (n / 10) in
    if ltb n 10 then (n + b'0') ∷ [] else rest ++ (n % 10 + b'0') ∷ []

unfoldable pub decimal : ℕ → Str
unfolding decimal_from
decimal n = decimal_from (suc n) n

-- the number that digits stand for, behind those read so far
unfoldable pub value_from : ℕ → Str → ℕ
value_from n [] = n
value_from n (c ∷ s) = value_from (10 * n + (c - b'0')) s

value_from-append :
    (n c : ℕ) (s : Str) → value_from n (s ++ c ∷ []) ≡ 10 * value_from n s + (c - b'0')
unfolding value_from
value_from-append n c [] = refl
value_from-append n c (d ∷ s) = value_from-append (10 * n + (d - b'0')) c s

big_step :
    (fuel n : ℕ)
    → ltb n 10 ≡ false
    → value_from 0 (decimal_from fuel (n / 10)) ≡ n / 10
    → value_from 0 (decimal_from (suc fuel) n) ≡ n
unfolding decimal_from
big_step fuel n big e =
    ground (arith, big, e, value_from-append 0 (n % 10 + b'0') (decimal_from fuel (n / 10)))

value_from-decimal_from : (fuel n : ℕ) → n ≤ fuel → value_from 0 (decimal_from (suc fuel) n) ≡ n
unfolding decimal_from value_from
value_from-decimal_from zero n h = ground (arith, h)
value_from-decimal_from (suc fuel) n h = elim (Bool-cases (ltb n 10)) [
  | inl small ↦ ground (arith, small)
  | inr big ↦
      big_step (suc fuel) n big (value_from-decimal_from fuel (n / 10) (ground (arith, h, big)))
]

-- `decimal` writes the number that its digits stand for.
pub value_from-decimal : (n : ℕ) → value_from 0 (decimal n) ≡ n
unfolding decimal
value_from-decimal n = value_from-decimal_from n n (omega arith)
