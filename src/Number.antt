-- ===== src/Number.antt =====
-- The numbers of JavaScript, as far as the program compares and adds measured values. Floating point
-- itself is not under the repository: the type and its operations are parameters, with no laws.
use monitc.Prelude.{ℕ, ltb, ◌==◌, ◌+◌, Bool, true}

pub record Number : Type 1 where
  pub Num : Type 0
  pub zero : Num
  pub one : Num
  pub add : Num → Num → Num
  -- `a > b` and `a === b`.
  pub greater : Num → Num → Bool
  pub equal : Num → Num → Bool
  -- `Number.isFinite`.
  pub is_finite : Num → Bool

-- Natural numbers are an instance, for the examples.
abbrev pub naturals : Number
naturals = record {
  Num = ℕ;
  zero = 0;
  one = 1;
  add = λ a b. a + b;
  greater = λ a b. ltb b a;
  equal = λ a b. a == b;
  is_finite = λ _. true;
}
