-- ===== src/External/Amounts.antt =====
-- `common.Integer` of github.com/MixinNetwork/mixin: a non-negative amount with eight decimals.
use trusted_group.Base.{ℕ, ◌+◌, ◌-◌, ◌*◌, ◌≤◌, ◌<◌, compare, Ordering, Bytes, Bool, false, ◌≡◌}

-- `units` counts the smallest unit that an amount stands for. `Add` and `Sub` may panic: they are
-- only known to work on a positive second operand and, for `Sub`, on one that is not larger.
pub record Integers : Type 1 where
  pub Integer : Type 0
  pub units : Integer → ℕ
  pub zero_integer : Integer
  pub new_integer : ℕ → Integer
  pub add : Integer → Integer → Integer
  pub sub : Integer → Integer → Integer
  pub add_panics : Integer → Integer → Bool
  pub sub_panics : Integer → Integer → Bool
  pub mul : Integer → ℕ → Integer
  pub cmp : Integer → Integer → Ordering
  pub sign : Integer → Ordering
  pub to_string : Integer → Bytes
  pub of_string : Bytes → Integer
  pub units-zero_integer : units zero_integer ≡ 0
  pub units-add : (a b : Integer) → 0 < units b → units (add a b) ≡ units a + units b
  pub units-sub :
      (a b : Integer) → 0 < units b → units b ≤ units a → units (sub a b) ≡ units a - units b
  pub add_works : (a b : Integer) → 0 < units b → add_panics a b ≡ false
  pub sub_works : (a b : Integer) → 0 < units b → units b ≤ units a → sub_panics a b ≡ false
  pub units-mul : (a : Integer) (n : ℕ) → units (mul a n) ≡ units a * n
  pub cmp-units : (a b : Integer) → cmp a b ≡ compare (units a) (units b)
  pub sign-units : (a : Integer) → sign a ≡ compare (units a) 0
  pub of_string-to_string : (a : Integer) → of_string (to_string a) ≡ a
