-- ===== src/Moonem/Loss/Tests.antt =====
-- The loss models of src/moonem_common.h on concrete states and packets.
use moon_gen_dpdk_v.Prelude.{
  ℕ, ◌^◌, ◌≤◌, ◌≡◌, refl, ◌⊎◌, ◌↔◌, false, none, some, List, [], ◌∷◌, arith, ltb, if◌then◌else◌,
}
use moon_gen_dpdk_v.Dpdk.{Mbuf}
use moon_gen_dpdk_v.Crc.Tests.{packet}
use moon_gen_dpdk_v.Moonem.Loss.{
  uniform, ge, netem, Applied, LossType, Parameters, MoonemConfig, LossState, wyhash64, wyhash_next,
  ge_drop, netem_drop, apply_loss,
}
use moon_gen_dpdk_v.Moonem.Loss.Hash.{after}
use moon_gen_dpdk_v.Moonem.Loss.Markov.{
  first_draw, second_draw, state_after_two, ge_good, bit, ge_drop-chain, netem_drop-none,
}
use moon_gen_dpdk_v.Moonem.Loss.Split.{IsSplit, survivors, casualties, apply_loss-uniform}
use moon_gen_dpdk_v.Moonem.Loss.Complete.{apply_loss-IsSplit_or_netem}

abbrev parameters : Parameters
parameters = record { p0 = 2 ^ 62; p1 = 2 ^ 60; p2 = 2 ^ 61; p3 = 2 ^ 63; p4 = 2 ^ 63 }

abbrev config : LossType → MoonemConfig
config t = record {
  delay = 0;
  rate = 0;
  capacity = 0;
  loss_seed = 42;
  loss_type = t;
  loss = 2 ^ 63;
  loss_model_parameters = parameters;
}

abbrev first : ℕ → LossState
first state = record { random = 42; state = state }

abbrev packets : List Mbuf
packets = packet 1 64 0 ∷ packet 2 64 0 ∷ packet 3 64 0 ∷ []

-- From the seed 0, the first state is the increment.
wyhash64_test : (wyhash64 0).0 ≡ 0x60bee2bee120fc15
unfolding wyhash64 wyhash_next
wyhash64_test = refl

ge_drop-chain_example :
    let good = ge_good false (2 ^ 62) (2 ^ 60) (first_draw (first 0)) in
    ge_drop (first 0) parameters
    ≡ some (
      ltb (second_draw (first 0)) (if good then 2 ^ 63 else 2 ^ 61),
      record { random = state_after_two (first 0); state = bit good },
    )
ge_drop-chain_example = ge_drop-chain (first 0) parameters

netem_drop-none_example :
    (netem_drop (first 3) parameters ≡ none)
    ↔ (((first 3).state ≡ 3) ⊎ (((first 3).state ≡ 2) × (parameters.p4 ≤ first_draw (first 3))))
netem_drop-none_example = netem_drop-none (first 3) parameters (omega arith)

apply_loss-uniform_example :
    apply_loss (config uniform) packets (first 0)
    ≡ some (record {
      accepted = survivors 42 (2 ^ 63) 0 packets;
      freed = casualties 42 (2 ^ 63) 0 packets;
      loss_state = record { random = after 3 42; state = 0 };
    })
apply_loss-uniform_example = apply_loss-uniform (config uniform) packets (first 0) refl

apply_loss-IsSplit_or_netem_example :
    ((a : Applied) × (apply_loss (config ge) packets (first 0) ≡ some a)
      × IsSplit packets a.accepted a.freed)
    ⊎ (((config ge).loss_type ≡ netem) × (apply_loss (config ge) packets (first 0) ≡ none))
apply_loss-IsSplit_or_netem_example =
    apply_loss-IsSplit_or_netem (config ge) packets (first 0) (λ e. cc)
