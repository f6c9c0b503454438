-- ===== src/Prelude/Floats.antt =====
-- What the program does with Go's `float64` and the package `math`, as an interface: the language
-- defines no equations of it here, and the laws that a theorem needs are its named hypotheses.
use Prim.Native.Nat.{ℕ}
use mathlib.Core.Bool.{Bool}
use flybeeper_com_map_fanet.Prelude.Int.{ℤ}

pub record Float (F : Type 0) : Type 0 where
  pub of_int : ℤ → F
  -- `decimal m k` is the literal with digits `m` and `k` of them behind the point.
  pub decimal : ℕ → ℕ → F
  pub add : F → F → F
  pub sub : F → F → F
  pub mul : F → F → F
  pub div : F → F → F
  pub le : F → F → Bool
  pub lt : F → F → Bool
  pub pi : F
  pub sin : F → F
  pub cos : F → F
  pub sqrt : F → F
  pub atan2 : F → F → F
