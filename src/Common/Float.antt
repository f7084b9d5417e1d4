-- ===== src/Common/Float.antt =====
-- What the program uses of `f32` and `f64`: an interface, since the kernel has no floats.
use Prim.Native.Nat.{ℕ, zero, suc, ◌+◌, ◌*◌, ◌/◌, ◌^◌, min}
use mathlib.Core.Bool.{Bool, not, ◌&&◌}
use bw_exp.Common.Int.{ℤ, pos, leb_ℤ, ◌-ℤ◌, ◌*ℤ◌}
use bw_exp.Common.Tests.{leb, if◌then◌else◌}

-- `decimal m k` is the literal m / 10^k; `of_usize` is `as f32`.
pub record Float (F : Type 0) : Type 0 where
  pub decimal : ℕ → ℕ → F
  pub of_usize : ℕ → F
  pub sqrt : F → F
  pub mul : F → F → F
  pub smaller : F → F → F

isqrt : ℕ → ℕ
isqrt zero = 0
isqrt (suc n) = let r = isqrt n in if leb ((r + 1) * (r + 1)) (suc n) then r + 1 else r

-- Hundredths: a value of the interface, on which tests run.
instance abbrev pub hundredths : Float ℕ
unfolding isqrt
hundredths = record {
  decimal = λ m k. m * 100 / 10 ^ k;
  of_usize = λ n. n * 100;
  sqrt = λ x. isqrt (x * 100);
  mul = λ x y. x * y / 100;
  smaller = λ x y. min x y;
}

-- What conditions, times and scores use of `f64`. `less` is `<`, and `a > b` is `less b a`.
pub record F64 (F : Type 0) : Type 0 where
  pub zero : F
  pub one : F
  pub less : F → F → Bool
  pub le : F → F → Bool
  pub eq : F → F → Bool
  pub minus : F → F → F
  pub times : F → F → F
  pub clamp : F → F → F → F
  pub of_i64 : ℤ → F
  pub to_i64 : F → ℤ

abbrev clamp_ℤ : ℤ → ℤ → ℤ → ℤ
clamp_ℤ x lo hi = if not (leb_ℤ lo x) then lo else if not (leb_ℤ x hi) then hi else x

-- Integers: a value of the interface, on which tests run.
instance abbrev pub integers : F64 ℤ
integers = record {
  zero = pos 0;
  one = pos 1;
  less = λ a b. not (leb_ℤ b a);
  le = leb_ℤ;
  eq = λ a b. leb_ℤ a b && leb_ℤ b a;
  minus = λ a b. a -ℤ b;
  times = λ a b. a *ℤ b;
  clamp = clamp_ℤ;
  of_i64 = λ a. a;
  to_i64 = λ a. a;
}
