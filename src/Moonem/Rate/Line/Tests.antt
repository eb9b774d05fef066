-- ===== src/Moonem/Rate/Line/Tests.antt =====
-- The token bucket of src/moonem_sw.cpp with the transmitter behind a ring of eight places.
use moon_gen_dpdk_v.Prelude.{◌≡◌, ◌≤◌, ◌+◌, ◌*◌, ◌-◌, All, refl, List, [], ◌∷◌, ℕ, arith}
use moon_gen_dpdk_v.Prelude.Int.{ℤ, pos, pos_part}
use moon_gen_dpdk_v.Double.{fixed_point}
use moon_gen_dpdk_v.Dpdk.{Mbuf}
use moon_gen_dpdk_v.Crc.Tests.{packet}
use moon_gen_dpdk_v.Moonem.Ring.{small_ring}
use moon_gen_dpdk_v.Moonem.Delay.{transmit_round, release_all}
use moon_gen_dpdk_v.Moonem.Delay.Line.{IsSafe}
use moon_gen_dpdk_v.Moonem.Delay.Fifo.{Moves, as_queue}
use moon_gen_dpdk_v.Moonem.Rate.{token_round}
use moon_gen_dpdk_v.Moonem.Rate.Tests.{tenth_laws, config, burst, receiver}
use moon_gen_dpdk_v.Moonem.Rate.Tokens.{IsFrame}
use moon_gen_dpdk_v.Moonem.Rate.Line.Conformance.{passed_bytes, Reach-Conforms}
use moon_gen_dpdk_v.Moonem.Rate.Line.{
  TokenLine, as_line, receive, transmit, Reach, here, next, arrived_bursts, Reach-Queued,
}

abbrev empty_line : TokenLine ℤ (List Mbuf)
empty_line = record { bucket = receiver; sent = [] }

abbrev tagged : ℕ → ℕ → ℕ → Mbuf
tagged id size left = record (packet id size 20_050) { burst_size = left }

abbrev passed : List Mbuf
passed = tagged 1 500 2 ∷ tagged 3 400 1 ∷ []

-- The packet of 1000 bytes does not fit the bucket, and the two others leave together.
abbrev sent_line : TokenLine ℤ (List Mbuf)
sent_line = record {
  bucket = record {
    receiver = record receiver.receiver { freed = packet 2 1000 0 ∷ [] };
    previous_timestamp = pos 20_000_000_000;
    level = pos 52_000_000;
  };
  sent = record { at = 20_060; pkts = passed } ∷ [];
}

one_burst : Reach small_ring config 50 (pos 100_000) empty_line sent_line
unfolding token_round transmit_round release_all
one_burst =
    next (next here (receive burst 20_000 (omega arith))) (transmit (20_040 ∷ 20_060 ∷ []) refl)

empty_line-IsSafe : IsSafe small_ring config 50 (as_line empty_line)
empty_line-IsSafe = record { tagged = tt; on_time = tt }

Reach-Queued_example :
    Moves 50
      (as_queue small_ring config 50 (as_line empty_line))
      (arrived_bursts small_ring config 50 (pos 100_000) one_burst)
      (as_queue small_ring config 50 (as_line sent_line))
Reach-Queued_example = Reach-Queued small_ring config 50 (pos 100_000) one_burst empty_line-IsSafe

-- The second burst finds the bucket empty but for what came in since the first.
abbrev twice_line : TokenLine ℤ (List Mbuf)
twice_line = record sent_line {
  bucket = token_round small_ring config 50 (pos 100_000) burst 25_000 sent_line.bucket;
}

two_bursts : Reach small_ring config 50 (pos 100_000) empty_line twice_line
two_bursts = next one_burst (receive burst 25_000 (omega arith))

-- 948 bytes were sent and 524 wait, of 1000 tokens at the first burst and 500 until the second.
passed_bytes_test : passed_bytes tenth_laws small_ring config 50 twice_line ≡ 1472
unfolding token_round
passed_bytes_test = refl

burst-IsFrame : All IsFrame burst
burst-IsFrame = (omega arith, (omega arith, (omega arith, tt)))

Reach-Conforms_example :
    (passed_bytes tenth_laws small_ring config 50 twice_line * 1_000_000
        + pos_part twice_line.bucket.level
      ≤ passed_bytes tenth_laws small_ring config 50 empty_line * 1_000_000
        + pos_part empty_line.bucket.level
        + (25_000 - 0) * 100_000
        + 2 * 0)
    × (pos_part twice_line.bucket.level ≤ 1000 * 1_000_000)
unfolding one_burst two_bursts
Reach-Conforms_example =
    Reach-Conforms tenth_laws small_ring config 50 two_bursts 0 0 empty_line-IsSafe refl
      (omega arith) (omega arith) (omega arith) (omega arith, (omega arith, tt)) (omega arith)
      (burst-IsFrame, (burst-IsFrame, tt))
