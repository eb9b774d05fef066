-- ===== src/Double.antt =====
-- C++'s `double`, which the programs compute rates and times with, as a parameter: any type with the
-- conversions, operations and comparison that the code uses. `decimal m k` is the literal m / 10^k.
-- A theorem that needs a law of these takes it as a hypothesis of its own.
use moon_gen_dpdk_v.Prelude.{ℕ, ◌*◌, ◌/◌, ◌^◌, Bool}
use moon_gen_dpdk_v.Prelude.Int.{ℤ, pos, ltb_ℤ, ◌+ℤ◌, ◌-ℤ◌, ◌*ℤ◌, ◌/ℤ◌, to_word}

pub record Double (W : Type 0) : Type 0 where
  pub of_u64 : ℕ → W
  pub of_i64 : ℤ → W
  pub to_u64 : W → ℕ
  pub to_i64 : W → ℤ
  pub decimal : ℕ → ℕ → W
  pub add : W → W → W
  pub sub : W → W → W
  pub mul : W → W → W
  pub div : W → W → W
  pub lt : W → W → Bool

-- A carrier to run the models on: integers in millionths, rounded towards zero.
abbrev pub micros : ℤ
micros = pos 1_000_000

instance abbrev pub fixed_point : Double ℤ
fixed_point = record {
  of_u64 = λ n. pos (n * 1_000_000);
  of_i64 = λ z. z *ℤ micros;
  to_u64 = λ x. to_word (x /ℤ micros);
  to_i64 = λ x. x /ℤ micros;
  decimal = λ m k. pos (m * 1_000_000 / 10 ^ k);
  add = ◌+ℤ◌;
  sub = ◌-ℤ◌;
  mul = λ x y. (x *ℤ y) /ℤ micros;
  div = λ x y. (x *ℤ micros) /ℤ y;
  lt = ltb_ℤ;
}
