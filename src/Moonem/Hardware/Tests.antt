-- ===== src/Moonem/Hardware/Tests.antt =====
-- The receivers of src/moonem.cpp on a concrete burst.
use moon_gen_dpdk_v.Prelude.{ℕ, ◌+◌, ◌-◌, ◌*◌, ◌≤◌, ◌≡◌, arith, refl, List, [], ◌∷◌, length}
use moon_gen_dpdk_v.Prelude.Int.{ℤ, pos, pos_part, ◌-ℤ◌, ◌*ℤ◌, ◌/ℤ◌}
use moon_gen_dpdk_v.Double.{fixed_point, micros}
use moon_gen_dpdk_v.Dpdk.{Mbuf, copies, wire_bytes}
use moon_gen_dpdk_v.Crc.Tests.{packet}
use moon_gen_dpdk_v.Moonem.Loss.{no_loss, MoonemConfig}
use moon_gen_dpdk_v.Moonem.Ring.{small_ring}
use moon_gen_dpdk_v.Moonem.Delay.{Receiver}
use moon_gen_dpdk_v.Moonem.Rate.{RateReceiver}
use moon_gen_dpdk_v.Moonem.Hardware.{hardware_leaky_round, token_pass, token_rate_ns, delayed}
use moon_gen_dpdk_v.Moonem.Rate.Refill.{RefillLaws}
use moon_gen_dpdk_v.Moonem.Rate.Tests.{sum_of, limited_units, spend_ℤ, capped_ℤ, add_units, lt-ge_ℤ}
use moon_gen_dpdk_v.Moonem.Hardware.Conformance.{token_pass-Conforms}
use moon_gen_dpdk_v.Moonem.Delay.Whereabouts.{holding}
use moon_gen_dpdk_v.Moonem.Hardware.Whereabouts.{hardware_leaky_round-holding}

-- 8 Mbit/s, which is a byte in 1000 ns.
abbrev config : MoonemConfig
config = record {
  delay = 1000;
  rate = 8;
  capacity = 1000;
  loss_seed = 0;
  loss_type = no_loss;
  loss = 0;
  loss_model_parameters = record { p0 = 0; p1 = 0; p2 = 0; p3 = 0; p4 = 0 };
}

abbrev burst : List Mbuf
burst = packet 1 64 5000 ∷ packet 2 64 90_000 ∷ []

abbrev empty_receiver : Receiver (List Mbuf)
empty_receiver = record {
  loss_state = record { random = 0; state = 0 };
  ring = [];
  freed = [];
  leaked = [];
}

-- The first packet finds 5 tokens, the second 90, of which it takes 88.
token_pass_test :
    ((token_pass (λ p. p) config (pos 0) (pos 0) burst).accepted ≡ packet 2 64 90_000 ∷ [])
    × ((token_pass (λ p. p) config (pos 0) (pos 0) burst).level ≡ pos 2_000_000)
unfolding token_pass
token_pass_test = (refl, refl)

abbrev filled_receiver : Receiver (List Mbuf)
filled_receiver = record empty_receiver { ring = packet 1 64 6000 ∷ packet 2 64 91_000 ∷ [] }

abbrev bucket_receiver : RateReceiver ℤ (List Mbuf)
bucket_receiver = record { receiver = empty_receiver; previous_timestamp = pos 0; level = pos 0 }

abbrev after_tokens : RateReceiver ℤ (List Mbuf)
after_tokens = record {
  receiver = record empty_receiver {
    ring = packet 2 64 91_000 ∷ [];
    freed = packet 1 64 5000 ∷ [];
  };
  previous_timestamp = pos 90_000_000_000;
  level = pos 2_000_000;
}

-- The first packet takes the link from 6000 to 94000 ns, where the second one follows.
abbrev after_leaky : RateReceiver ℤ (List Mbuf)
after_leaky = record {
  receiver = record empty_receiver { ring = packet 1 64 6000 ∷ packet 2 64 94_000 ∷ [] };
  previous_timestamp = pos 0;
  level = pos 182_000_000_000;
}

hardware_leaky_round-holding_example :
    holding small_ring 2 after_leaky.receiver ≡ holding small_ring 2 empty_receiver + copies 2 burst
unfolding hardware_leaky_round
hardware_leaky_round-holding_example =
    hardware_leaky_round-holding 2 config small_ring burst bucket_receiver after_leaky refl

scaled : (n : ℕ) → pos (n * 1_000_000) *ℤ pos 1000 /ℤ micros ≡ pos (n * 1000)
scaled n = ground arith

rate_ns_value : token_rate_ns config ≡ pos 1000
unfolding token_rate_ns
rate_ns_value = refl

refill_ns :
    (a : ℤ) (previous now : ℕ)
    → previous ≤ now
    → pos_part (
        fixed_point.add a (
          fixed_point.mul
            (fixed_point.sub (fixed_point.of_u64 now) (fixed_point.of_u64 previous))
            (token_rate_ns config)))
      ≤ pos_part a + (now - previous) * 1000
refill_ns a previous now le =
    let elapsed : pos (now * 1_000_000) -ℤ pos (previous * 1_000_000)
        ≡ pos ((now - previous) * 1_000_000) =
      ground arith in
    rw (rate_ns_value, elapsed, scaled (now - previous)) (add_units a ((now - previous) * 1000))

abbrev ns_laws : RefillLaws ℤ (token_rate_ns config)
ns_laws = record {
  units = pos_part;
  per_byte = 1_000_000;
  per_cycle = 1000;
  slack = 0;
  positive = omega arith;
  slack_le = omega arith;
  of_rate = rw rate_ns_value (omega arith);
  whole = λ n le. refl;
  spend = λ a n _ _ h. spend_ℤ a n h;
  refill = λ a previous now c le _ _ _.
      limited_units a (sum_of (token_rate_ns config) a previous now) c ((now - previous) * 1000)
        (refill_ns a previous now le);
  capped = λ a c _. capped_ℤ a c;
}

token_pass-Conforms_example :
    let s = token_pass (delayed config) config (pos 0) (pos 0) burst in
    (wire_bytes 24 s.accepted * 1_000_000 + pos_part s.level
      ≤ 0 + (90_000 - 0) * 1000 + length s.accepted * 0)
    × (pos_part s.level ≤ 1000 * 1_000_000)
token_pass-Conforms_example =
    token_pass-Conforms config ns_laws lt-ge_ℤ (delayed config) (λ p. refl) burst 0 0 (pos 0)
      (pos 0) refl (omega arith) (omega arith, (omega arith, tt)) (omega arith) (omega arith)
      (omega arith, (omega arith, tt)) (omega arith)
