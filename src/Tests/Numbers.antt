-- ===== src/Tests/Numbers.antt =====
-- Instances of the `f64` interface to run the definitions with: whole numbers, and thousandths.
use rs_lxmf.Prelude.{ℕ, ◌+◌, ◌-◌, ◌*◌, ◌/◌, true, ltb, leb, nat_beq, Float}

abbrev pub whole : Float
whole = record {
  F64 = ℕ;
  of_nat = λ n. n;
  add = λ m n. m + n;
  sub = λ m n. m - n;
  mul = λ m n. m * n;
  div = λ m n. m / n;
  lt = ltb;
  le = leb;
  eq = nat_beq;
  is_finite = λ n. true;
}

abbrev pub thousandths : Float
thousandths = record {
  F64 = ℕ;
  of_nat = λ n. 1000 * n;
  add = λ m n. m + n;
  sub = λ m n. m - n;
  mul = λ m n. m * n / 1000;
  div = λ m n. 1000 * m / n;
  lt = ltb;
  le = leb;
  eq = nat_beq;
  is_finite = λ n. true;
}
