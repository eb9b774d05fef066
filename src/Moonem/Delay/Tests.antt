-- ===== src/Moonem/Delay/Tests.antt =====
-- A delay line of src/moonem_sw.cpp with a ring of eight places.
use moon_gen_dpdk_v.Prelude.{ℕ, ◌+◌, ◌≡◌, refl, none, List, [], ◌∷◌, arith}
use moon_gen_dpdk_v.Dpdk.{Mbuf}
use moon_gen_dpdk_v.Crc.Tests.{packet}
use moon_gen_dpdk_v.Moonem.Loss.{no_loss, MoonemConfig}
use moon_gen_dpdk_v.Moonem.Ring.{small_ring}
use moon_gen_dpdk_v.Moonem.Delay.{stamp, receive_round, release_all, transmit_round}
use moon_gen_dpdk_v.Moonem.Delay.Liveness.{AllReleased, transmit_round-AllReleased}
use moon_gen_dpdk_v.Moonem.Delay.Fifo.{Moves, as_queue, arrived_bursts}
use moon_gen_dpdk_v.Moonem.Delay.Whereabouts.{in_sight, came_in, Reach-in_sight}
use moon_gen_dpdk_v.Moonem.Delay.Fifo.Refines.{Reach-Moves}
use moon_gen_dpdk_v.Moonem.Delay.Line.{
  Line, receive, transmit, Reach, here, next, IsSafe, Reach-IsSafe,
}

abbrev config : MoonemConfig
config = record {
  delay = 0;
  rate = 0;
  capacity = 0;
  loss_seed = 0;
  loss_type = no_loss;
  loss = 0;
  loss_model_parameters = record { p0 = 0; p1 = 0; p2 = 0; p3 = 0; p4 = 0 };
}

abbrev burst : List Mbuf
burst = packet 1 64 0 ∷ packet 2 64 0 ∷ packet 3 64 0 ∷ []

abbrev tagged : ℕ → ℕ → ℕ → Mbuf
tagged id time left = record (packet id 64 time) { burst_size = left }

abbrev stamped : List Mbuf
stamped = tagged 1 150 3 ∷ tagged 2 150 2 ∷ tagged 3 150 1 ∷ []

stamp_test : stamp 150 burst ≡ stamped
unfolding stamp
stamp_test = refl

-- Received at 100 with a delay of 50, the burst leaves as one at the first reading from 150 on.
release_all_test :
    release_all 3 stamped (120 ∷ 160 ∷ 170 ∷ []) []
    ≡ (record { at = 160; pkts = stamped } ∷ [], (none, 170 ∷ []))
unfolding release_all
release_all_test = refl

transmit_round-AllReleased_example : AllReleased stamped (
  (transmit_round small_ring stamped (120 ∷ 160 ∷ 170 ∷ 180 ∷ [])).0,
  (transmit_round small_ring stamped (120 ∷ 160 ∷ 170 ∷ 180 ∷ [])).1.0,
)
transmit_round-AllReleased_example =
    transmit_round-AllReleased small_ring stamped 150 (120 ∷ 160 ∷ 170 ∷ 180 ∷ [])
      (
        omega arith,
        omega arith,
        (refl, (refl, tt)),
        (omega arith, omega arith, (refl, tt), (omega arith, omega arith, tt, tt)),
      )
      (omega arith, (omega arith, (omega arith, tt))) (omega arith)

abbrev empty_line : Line (List Mbuf)
empty_line = record {
  receiver = record {
    loss_state = record { random = 0; state = 0 };
    ring = [];
    freed = [];
    leaked = [];
  };
  sent = [];
}

abbrev fed_line : Line (List Mbuf)
fed_line = record empty_line { receiver = record empty_line.receiver { ring = stamped } }

abbrev sent_line : Line (List Mbuf)
sent_line = record empty_line { sent = record { at = 160; pkts = stamped } ∷ [] }

one_burst : Reach small_ring config 50 empty_line sent_line
unfolding receive_round transmit_round release_all
one_burst =
    next (next here (receive burst 100 fed_line.receiver (omega arith) refl))
      (transmit (120 ∷ 160 ∷ 170 ∷ []) refl)

empty_line-IsSafe : IsSafe small_ring config 50 empty_line
empty_line-IsSafe = record { tagged = tt; on_time = tt }

Reach-IsSafe_example : IsSafe small_ring config 50 sent_line
Reach-IsSafe_example = Reach-IsSafe small_ring config 50 one_burst empty_line-IsSafe

-- The queue after the burst: its packets left in order, all of them at 160.
as_queue_test :
    (as_queue small_ring config 50 sent_line).delivered
    ≡ record { id = 1; time = 160 }
      ∷ record { id = 2; time = 160 }
      ∷ record { id = 3; time = 160 }
      ∷ []
as_queue_test = refl

one_burst_test : arrived_bursts small_ring config 50 one_burst ≡ (burst, 100) ∷ []
unfolding one_burst
one_burst_test = refl

Reach-Moves_example :
    Moves 50
      (as_queue small_ring config 50 empty_line)
      (arrived_bursts small_ring config 50 one_burst)
      (as_queue small_ring config 50 sent_line)
Reach-Moves_example = Reach-Moves small_ring config 50 one_burst empty_line-IsSafe

Reach-in_sight_example :
    in_sight small_ring 2 sent_line
    ≡ in_sight small_ring 2 empty_line + came_in 2 (arrived_bursts small_ring config 50 one_burst)
Reach-in_sight_example = Reach-in_sight small_ring config 50 2 one_burst empty_line-IsSafe
