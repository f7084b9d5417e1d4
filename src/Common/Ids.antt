-- ===== src/Common/Ids.antt =====
-- Lists of identifiers (`Vec<Uuid>`). A `Uuid` is a number.
use bw_exp.Common.Tests.{◌==◌, if◌then◌else◌}
use bw_exp.Common.Lists.{length, push}
use Prim.Native.Nat.{ℕ, ◌≤◌}
use mathlib.Core.Path.{◌≡◌, refl}
use mathlib.Core.Bool.{Bool, true, false}
use mathlib.Core.List.{List, [], ◌∷◌, ◌++◌}
use native.Mathlib.Omega.{arith}

-- `Vec::contains`.
unfoldable pub contains : List ℕ → ℕ → Bool
contains [] y = false
contains (x ∷ xs) y = if x == y then true else contains xs y

-- `retain(|&id| id != x)`.
unfoldable pub without : ℕ → List ℕ → List ℕ
without x [] = []
without x (y ∷ ys) = if y == x then without x ys else y ∷ without x ys

pub contains-append :
    (xs ys : List ℕ) (z : ℕ)
    → contains (xs ++ ys) z ≡ (if contains xs z then true else contains ys z)
unfolding contains
contains-append [] ys z = refl
contains-append (x ∷ xs) ys z = ground (arith, contains-append xs ys z)

pub contains-push :
    (xs : List ℕ) (x z : ℕ) → contains (push xs x) z ≡ (if x == z then true else contains xs z)
unfolding contains
contains-push [] x z = refl
contains-push (y ∷ xs) x z = ground (arith, contains-push xs x z)

pub contains-without :
    (x : ℕ) (ys : List ℕ) (z : ℕ)
    → contains (without x ys) z ≡ (if x == z then false else contains ys z)
unfolding contains without
contains-without x [] z = ground arith
contains-without x (y ∷ ys) z = ground (arith, contains-without x ys z)

pub length-without : (x : ℕ) (ys : List ℕ) → length (without x ys) ≤ length ys
unfolding without
length-without x [] = omega arith
length-without x (y ∷ ys) = ground (arith, length-without x ys)

-- No identifier stands twice.
abbrev pub IsDistinct : List ℕ → Type 0
IsDistinct [] = Unit {0}
IsDistinct (x ∷ xs) = (contains xs x ≡ false) × IsDistinct xs

pub push-IsDistinct :
    (xs : List ℕ) (x : ℕ) → contains xs x ≡ false → IsDistinct xs → IsDistinct (push xs x)
unfolding contains
push-IsDistinct [] x h d = (refl, tt)
push-IsDistinct (y ∷ xs) x h d =
    (ground (arith, contains-push xs x y), push-IsDistinct xs x (ground arith) d.1)

pub without-IsDistinct : (x : ℕ) (ys : List ℕ) → IsDistinct ys → IsDistinct (without x ys)
unfolding without
without-IsDistinct x [] d = tt
without-IsDistinct x (y ∷ ys) d =
    ground (arith, without-IsDistinct x ys d.1, contains-without x ys y)
