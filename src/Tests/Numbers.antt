-- ===== src/Tests/Numbers.antt =====
-- Whole numbers in place of `float`: they show that the interface can be met.
use degoonification.Common.{◌+◌, ◌-◌, ◌*◌, ◌/◌, ℕ, ltb, leb, ltb→lt, lt→ltb, ge→ltb, arith}
use degoonification.Common.Int.{pos, to_ℕ}
use degoonification.Float.{Float, IsStrict}

instance abbrev pub whole_float : Float ℕ
whole_float = record {
  zero = 0;
  one = 100;
  half = 1;
  decimal = λ n places. n;
  of_nat = λ n. n;
  of_int = λ z. to_ℕ z;
  to_uint = λ n. n;
  to_int = λ n. pos n;
  round = λ n. n;
  abs = λ n. n;
  add = λ a b. a + b;
  sub = λ a b. a - b;
  mul = λ a b. a * b;
  div = λ a b. a / b;
  lt = ltb;
  le = leb;
}

pub whole-IsStrict : IsStrict ℕ
whole-IsStrict = record {
  irrefl = λ a. ge→ltb a a (omega arith);
  asym = λ a b h. let k = ltb→lt a b h in ge→ltb b a (omega arith);
  trans = λ a b c h k. let m = ltb→lt a b h in let n = ltb→lt b c k in lt→ltb a c (omega arith);
}
