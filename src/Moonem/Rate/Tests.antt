-- ===== src/Moonem/Rate/Tests.antt =====
-- The rate receivers of src/moonem_sw.cpp on a concrete burst.
use moon_gen_dpdk_v.Prelude.{
  ℕ, ◌+◌, ◌-◌, ◌*◌, ◌/◌, ◌≤◌, ◌≡◌, refl, true, false, if◌then◌else◌, List, [], ◌∷◌, arith,
}
use moon_gen_dpdk_v.Prelude.Int.{ℤ, pos, negsuc, pos_part, neg_part, ltb_ℤ, ◌+ℤ◌, ◌-ℤ◌, ◌*ℤ◌, ◌/ℤ◌}
use moon_gen_dpdk_v.Double.{fixed_point, micros}
use moon_gen_dpdk_v.Dpdk.{Mbuf}
use moon_gen_dpdk_v.Crc.Tests.{packet}
use moon_gen_dpdk_v.Moonem.Loss.{no_loss, MoonemConfig}
use moon_gen_dpdk_v.Moonem.Ring.{small_ring}
use moon_gen_dpdk_v.Moonem.Rate.{RateReceiver, token_loop, leaky_round}
use moon_gen_dpdk_v.Moonem.Rate.Tokens.{TokenLaws}
use moon_gen_dpdk_v.Moonem.Rate.Order.{OrderLaws, Paced, leaky_round-Paced}
use moon_gen_dpdk_v.Moonem.Rate.Refill.{RefillLaws}

-- 1000 bytes of capacity.
abbrev pub config : MoonemConfig
config = record {
  delay = 0;
  rate = 8;
  capacity = 1000;
  loss_seed = 0;
  loss_type = no_loss;
  loss = 0;
  loss_model_parameters = record { p0 = 0; p1 = 0; p2 = 0; p3 = 0; p4 = 0 };
}

abbrev pub burst : List Mbuf
burst = packet 1 500 0 ∷ packet 2 1000 0 ∷ packet 3 400 0 ∷ []

abbrev tokens_of : ℕ → ℤ
tokens_of n = pos (n * 1_000_000)

-- The packet of 1000 bytes does not fit, and the two others do.
token_loop_test :
    ((token_loop config (tokens_of 1000) 0 burst).accepted ≡ packet 1 500 0 ∷ packet 3 400 0 ∷ [])
    × ((token_loop config (tokens_of 1000) 0 burst).level ≡ tokens_of 52)
unfolding token_loop
token_loop_test = (refl, refl)

floor_spend :
    (a : ℤ) (n : ℕ)
    → fixed_point.lt a (fixed_point.of_u64 n) ≡ false
    → pos_part (fixed_point.sub a (fixed_point.of_u64 n)) / 1_000_000 + n ≡ pos_part a / 1_000_000
floor_spend (pos x) n h = ground arith
floor_spend (negsuc x) n h = ground arith

floor_capped :
    (a : ℤ) (c : ℕ)
    → pos_part (if fixed_point.lt a (fixed_point.of_u64 c) then a else fixed_point.of_u64 c)
        / 1_000_000
      ≤ c
floor_capped (pos x) c = ground arith
floor_capped (negsuc x) c = ground arith

abbrev micro_laws : TokenLaws ℤ
micro_laws = record {
  floor = λ x. pos_part x / 1_000_000;
  spend = λ a n _ _ h. floor_spend a n h;
  capped = λ a c _. floor_capped a c;
}

abbrev pub receiver : RateReceiver ℤ (List Mbuf)
receiver = record {
  receiver = record {
    loss_state = record { random = 0; state = 0 };
    ring = [];
    freed = [];
    leaked = [];
  };
  previous_timestamp = pos 0;
  level = pos 0;
}

pub lt-ge_ℤ : (a b : ℤ) → ltb_ℤ a b ≡ true → ltb_ℤ b a ≡ false
lt-ge_ℤ a b h = ground arith

ge-trans_ℤ : (a b c : ℤ) → ltb_ℤ b a ≡ false → ltb_ℤ c b ≡ false → ltb_ℤ c a ≡ false
ge-trans_ℤ (pos a) (pos b) (pos c) h k = ground arith
ge-trans_ℤ (pos a) (pos b) (negsuc c) h k = ground arith
ge-trans_ℤ (pos a) (negsuc b) (pos c) h k = ground arith
ge-trans_ℤ (pos a) (negsuc b) (negsuc c) h k = ground arith
ge-trans_ℤ (negsuc a) (pos b) (pos c) h k = ground arith
ge-trans_ℤ (negsuc a) (pos b) (negsuc c) h k = ground arith
ge-trans_ℤ (negsuc a) (negsuc b) (pos c) h k = ground arith
ge-trans_ℤ (negsuc a) (negsuc b) (negsuc c) h k = ground arith

later_ℤ : (a z : ℤ) → neg_part z ≡ 0 → ltb_ℤ (a +ℤ z) a ≡ false
later_ℤ (pos a) z h = ground arith
later_ℤ (negsuc a) z h = ground arith

mul_nonneg : (a b : ℤ) → neg_part a ≡ 0 → neg_part b ≡ 0 → neg_part (a *ℤ b) ≡ 0
mul_nonneg (pos a) (pos b) h k = ground arith
mul_nonneg (pos a) (negsuc b) h k = cc
mul_nonneg (negsuc a) b h k = cc

div_nonneg : (a b : ℤ) → neg_part a ≡ 0 → neg_part b ≡ 0 → neg_part (a /ℤ b) ≡ 0
div_nonneg (pos a) (pos b) h k = ground arith
div_nonneg (pos a) (negsuc b) h k = cc
div_nonneg (negsuc a) b h k = cc

ge-refl_ℤ : (a : ℤ) → ltb_ℤ a a ≡ false
ge-refl_ℤ a = ground arith

abbrev bits_of : ℕ → ℤ
bits_of size = fixed_point.mul (fixed_point.of_u64 size) (pos 8_000_000)

abbrev time_of : ℕ → ℤ
time_of size = fixed_point.div (bits_of size) (pos 8_000_000)

time_of_nonneg : (size : ℕ) → neg_part (time_of size) ≡ 0
time_of_nonneg size =
    let all : ℤ = pos (size * 1_000_000) *ℤ pos 8_000_000 in
    let bits =
      div_nonneg all micros (mul_nonneg (pos (size * 1_000_000)) (pos 8_000_000) refl refl) refl in
    div_nonneg (bits_of size *ℤ micros) (pos 8_000_000) (mul_nonneg (bits_of size) micros bits refl)
      refl

-- Eight bits leave in a cycle.
abbrev micro_order : OrderLaws ℤ (pos 8_000_000)
micro_order = record {
  lt-ge = lt-ge_ℤ;
  ge-refl = ge-refl_ℤ;
  ge-trans = ge-trans_ℤ;
  later = λ a size. later_ℤ a (time_of size) (time_of_nonneg size);
}

leaky_round-Paced_example :
    let next = leaky_round small_ring config 50 (pos 8_000_000) burst 5000 receiver in
    Paced (pos 8_000_000) (pos 0) next.receiver.ring next.level
leaky_round-Paced_example =
    leaky_round-Paced micro_order small_ring config 50 (pos 0) burst 5000 receiver refl

pub spend_ℤ :
    (a : ℤ) (n : ℕ)
    → fixed_point.lt a (fixed_point.of_u64 n) ≡ false
    → pos_part (fixed_point.sub a (fixed_point.of_u64 n)) + n * 1_000_000 ≤ pos_part a
spend_ℤ (pos x) n h = ground arith
spend_ℤ (negsuc x) n h = ground arith

pub add_units : (a : ℤ) (more : ℕ) → pos_part (a +ℤ pos more) ≤ pos_part a + more
add_units (pos x) more = ground arith
add_units (negsuc x) more = ground arith

scaled : (n : ℕ) → pos (n * 1_000_000) *ℤ pos 100_000 /ℤ micros ≡ pos (n * 100_000)
scaled n = ground arith

least_units :
    (a : ℤ) (c : ℕ)
    → pos_part (if fixed_point.lt a (fixed_point.of_u64 c) then a else fixed_point.of_u64 c)
      ≤ pos_part a
least_units (pos x) c = ground arith
least_units (negsuc x) c = ground arith

pub capped_ℤ :
    (a : ℤ) (c : ℕ)
    → pos_part (if fixed_point.lt a (fixed_point.of_u64 c) then a else fixed_point.of_u64 c)
      ≤ c * 1_000_000
capped_ℤ (pos x) c = ground arith
capped_ℤ (negsuc x) c = ground arith

pub limited_units :
    (a more : ℤ) (c n : ℕ)
    → pos_part more ≤ pos_part a + n
    → pos_part (if fixed_point.lt more (fixed_point.of_u64 c) then more else fixed_point.of_u64 c)
      ≤ pos_part a + n + 0
limited_units a more c n h = omega (arith, h, least_units more c)

abbrev pub sum_of : ℤ → ℤ → ℕ → ℕ → ℤ
sum_of rate a previous now =
    fixed_point.add a (
      fixed_point.mul (fixed_point.sub (fixed_point.of_u64 now) (fixed_point.of_u64 previous)) rate)

-- A tenth of a byte for each cycle.
pub refill_ℤ :
    (a : ℤ) (previous now : ℕ)
    → previous ≤ now
    → pos_part (
        fixed_point.add a (
          fixed_point.mul
            (fixed_point.sub (fixed_point.of_u64 now) (fixed_point.of_u64 previous))
            (pos 100_000)))
      ≤ pos_part a + (now - previous) * 100_000
refill_ℤ a previous now le =
    let elapsed : pos (now * 1_000_000) -ℤ pos (previous * 1_000_000)
        ≡ pos ((now - previous) * 1_000_000) =
      ground arith in
    rw (elapsed, scaled (now - previous)) (add_units a ((now - previous) * 100_000))

abbrev pub tenth_laws : RefillLaws ℤ (pos 100_000)
tenth_laws = record {
  units = pos_part;
  per_byte = 1_000_000;
  per_cycle = 100_000;
  slack = 0;
  positive = omega arith;
  slack_le = omega arith;
  of_rate = omega arith;
  whole = λ n le. refl;
  spend = λ a n _ _ h. spend_ℤ a n h;
  refill = λ a previous now c le _ _ _.
      limited_units a (sum_of (pos 100_000) a previous now) c ((now - previous) * 100_000)
        (refill_ℤ a previous now le);
  capped = λ a c _. capped_ℤ a c;
}
