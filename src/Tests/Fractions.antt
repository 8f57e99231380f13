-- ===== src/Tests/Fractions.antt =====
-- Exact fractions in the place of Python's floats, so that the tests can run. A fraction is a
-- numerator over a denominator that is not zero.
use Prim.Native.Nat.{ℕ, ◌+◌, ◌*◌, ◌/◌, ◌%◌, compare, Ordering}
use badgerdoc.Base.{ℤ, pos, negsuc, ◌+ℤ◌, ◌*ℤ◌, pos_part, neg_part, sub_ℕ, ◌==◌}
use badgerdoc.Distribution.Load.{FloatOps}

abbrev Fraction : Type 0
Fraction = ℤ × ℕ

abbrev magnitude : ℤ → ℕ
magnitude a = pos_part a + neg_part a

-- To the nearest number, half to even, as Python's `round`.
abbrev round_ℕ : ℕ → ℕ → ℕ
round_ℕ n d =
    let q = n / d in
    let twice = 2 * (n % d) in
    elim (compare twice d) [ Ordering.lt ↦ q | Ordering.gt ↦ q + 1 | Ordering.eq ↦ q + q % 2 ]

abbrev round_fraction : Fraction → ℤ
round_fraction (pos n, d) = pos (round_ℕ n d)
round_fraction (negsuc n, d) = sub_ℕ 0 (round_ℕ (n + 1) d)

abbrev add_fraction : Fraction → Fraction → Fraction
add_fraction (a, b) (c, d) = (a *ℤ pos d +ℤ c *ℤ pos b, b * d)

abbrev mul_fraction : Fraction → Fraction → Fraction
mul_fraction (a, b) (c, d) = (a *ℤ c, b * d)

abbrev div_fraction : Fraction → Fraction → Fraction
div_fraction (a, b) (pos c, d) = (a *ℤ pos d, b * c)
div_fraction (a, b) (negsuc c, d) = (sub_ℕ (neg_part a) (pos_part a) *ℤ pos d, b * (c + 1))

abbrev pub fractions : FloatOps
fractions = record {
  Float = Fraction;
  of_int = λ a. (a, 1);
  add = add_fraction;
  mul = mul_fraction;
  div = div_fraction;
  is_zero = λ f. magnitude f.0 == 0;
  round = round_fraction;
}
