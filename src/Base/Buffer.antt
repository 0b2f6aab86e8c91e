-- ===== src/Base/Buffer.antt =====
-- Memory as a function from byte addresses, and arrays as lists indexed by native numbers.
use Prim.Native.Nat.{ℕ, zero, suc, ◌+◌}
use mathlib.Core.Path.{◌≡◌, refl, ap}
use mathlib.Core.Logic.{◌≢◌}
use mathlib.Core.Option.{Option, none, some}
use mathlib.Core.List.{List, [], ◌∷◌, ◌++◌}
use native.Mathlib.Omega.{arith}
use solarflare_capio_kernel.Base.Tests.{◌==◌, if◌then◌else◌, length}

-- A block of memory: the value at each index. A write at any index is seen, also past the end of
-- the block, so that a bound is a theorem about what stays unchanged.
abbrev pub Buffer : Type 0
Buffer = ℕ → ℕ

abbrev pub update : Buffer → ℕ → ℕ → Buffer
update m i v j = if i == j then v else m j

pub update_self : (m : Buffer) (i v : ℕ) → update m i v i ≡ v
update_self m i v = ground arith

pub update_ne : (m : Buffer) (i v j : ℕ) → i ≢ j → update m i v j ≡ m j
update_ne m i v j h = ground arith

module _ {ℓ} {A : Type ℓ} where
  abbrev pub get_elem? : List A → ℕ → Option A
  get_elem? [] _ = none
  get_elem? (x ∷ _) zero = some x
  get_elem? (_ ∷ xs) (suc i) = get_elem? xs i

  -- A write out of bounds changes nothing.
  abbrev pub set : List A → ℕ → A → List A
  set [] _ _ = []
  set (_ ∷ xs) zero v = v ∷ xs
  set (x ∷ xs) (suc i) v = x ∷ set xs i v

  pub get_elem?-length :
      (xs : List A) (a : A) (ys : List A) → get_elem? (xs ++ a ∷ ys) (length xs) ≡ some a
  get_elem?-length [] a ys = refl
  get_elem?-length (x ∷ xs) a ys = get_elem?-length xs a ys

  pub set-length :
      (xs : List A) (a b : A) (ys : List A) → set (xs ++ a ∷ ys) (length xs) b ≡ xs ++ b ∷ ys
  set-length [] a b ys = refl
  set-length (x ∷ xs) a b ys = ap (λ l. x ∷ l) (set-length xs a b ys)

  pub length-append : (xs ys : List A) → length (xs ++ ys) ≡ length xs + length ys
  length-append [] ys = omega arith
  length-append (x ∷ xs) ys = omega (arith, length-append xs ys)
