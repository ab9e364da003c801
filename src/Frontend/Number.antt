-- ===== src/Frontend/Number.antt =====
-- The numbers of frontend/main.js. The checker has no floating point, so they are a parameter: a type
-- with the operations of the language that the script uses on it. Nothing is assumed of them but by
-- the hypotheses that a theorem names.
use go_hauk.Prelude.{
  ltb, ◌==◌, if◌then◌else◌, Text, codes, ℕ, ◌+◌, ◌-◌, ◌*◌, ◌/◌, ◌%◌, Bool, ◌||◌, Option, none, some,
  [], ◌∷◌,
}

pub record Float : Type 1 where
  pub Num : Type 0
  pub of_ℕ : ℕ → Num
  pub max_value : Num
  pub pi : Num
  pub add : Num → Num → Num
  pub sub : Num → Num → Num
  pub mul : Num → Num → Num
  pub div : Num → Num → Num
  pub rem : Num → Num → Num
  -- `<` and `==`
  pub lt : Num → Num → Bool
  pub eq : Num → Num → Bool
  pub sin : Num → Num
  pub cos : Num → Num
  pub asin : Num → Num
  pub sqrt : Num → Num
  pub atan2 : Num → Num → Num
  -- `Math.round`, where the result is a whole number that is not negative
  pub round : Num → ℕ
  -- `x.toFixed(1)`
  pub fixed1 : Num → Text
  -- `x` joined to a string
  pub text : Num → Text

-- `a <= b`, which is `a < b || a == b` for all floating-point numbers.
abbrev pub le : (F : Float) → F.Num → F.Num → Bool
le F a b = F.lt a b || F.eq a b

-- What a fetched cell is as a number: `null` counts as 0.
abbrev pub number : (F : Float) → Option F.Num → F.Num
number F none = F.of_ℕ 0
number F (some x) = x

-- The natural numbers in the place of floating-point numbers, for tests: the functions of angles are
-- stand-ins.
abbrev pub whole : Float
whole = record {
  Num = ℕ;
  of_ℕ = λ n. n;
  max_value = 1000000000000;
  pi = 180;
  add = ◌+◌;
  sub = ◌-◌;
  mul = ◌*◌;
  div = ◌/◌;
  rem = ◌%◌;
  lt = ltb;
  eq = ◌==◌;
  sin = λ x. x;
  cos = λ x. 1;
  asin = λ x. x;
  sqrt = λ x. x;
  atan2 = λ y x. y;
  round = λ x. x;
  fixed1 = λ x. if x == 0 then codes "0.0" else codes "1.0";
  text = λ x. (48 + x) ∷ [];
}
