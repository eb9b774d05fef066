-- ===== src/Launch/Drop.antt =====
-- A batch of src/launch-timestamp.cpp whose last packet is dropped, seen through the limiter.
use moon_gen_dpdk_v.Prelude.{
  ℕ, ◌+◌, ◌^◌, ◌<◌, ◌≡◌, refl, ap, ◌∙◌, Option, none, some, List, [], ◌∷◌, ◌++◌, map, arith, length,
  All, u64,
}
use mathlib.Core.List.{append-nil}
use moon_gen_dpdk_v.Double.{Double}
use moon_gen_dpdk_v.Dpdk.{Mbuf, wire_bytes}
use moon_gen_dpdk_v.Crc.{RateLimiterCrc, done, send_packets, add_at, transmit_buffer_size}
use moon_gen_dpdk_v.Crc.Frames.{min_gap, IsSane}
use moon_gen_dpdk_v.Crc.Load.{kept}
use moon_gen_dpdk_v.Crc.Pace.{asked_bytes, starting}
use moon_gen_dpdk_v.Crc.Lost.{send_load_lost, with_buffer}
use moon_gen_dpdk_v.Launch.{Transmitter, emulate_all, send_batch}
use moon_gen_dpdk_v.Launch.Clock.{Agree, emulate_all-offset}

asked_bytes-undelayed :
    (l : RateLimiterCrc) (ps : List Mbuf)
    → All (λ p. p.timestamp ≡ 0) ps
    → asked_bytes l (kept (map some ps ++ (none ∷ []))) ≡ wire_bytes l.packet_overhead ps
asked_bytes-undelayed l [] h = refl
asked_bytes-undelayed l (p ∷ ps) (h, hs) = omega (arith, asked_bytes-undelayed l ps hs)

module _ {W P : Type 0} ⦃d : Double W⦄ (alloc : P → Option (Mbuf × P))
    (alloc_mbufs : P → ℕ → ℕ → List Mbuf × P) where
  -- For sane sizes, less than a minimal gap missing, equal overheads and a byte offset below 2 ^
  -- 64: if the emulator drops the last packet of a batch and sends the fewer than 64 packets
  -- before it without delay, none of them reaches DPDK, and yet the byte offset grows by their
  -- bytes.
  pub send_batch_lost :
      (t : Transmitter W P) (pkts ps : List Mbuf)
      → Agree t.emulator t.ratelimiter
      → t.emulator.current_byte_offset < 2 ^ 64
      → IsSane t.ratelimiter
      → t.ratelimiter.previous_missing_delay < min_gap t.ratelimiter
      → (emulate_all t.emulator pkts).1 ≡ map some ps ++ (none ∷ [])
      → All (λ p. p.timestamp ≡ 0) ps
      → length ps < transmit_buffer_size
      → (t' : Transmitter W P) × (send_batch alloc alloc_mbufs t pkts ≡ done t')
        × (t'.bursts ≡ t.bursts)
        × (t'.emulator.current_byte_offset
            ≡ u64 (t.emulator.current_byte_offset + wire_bytes t.ratelimiter.packet_overhead ps))
  unfolding send_batch send_packets
  send_batch_lost t pkts ps agree small sane missing load undelayed few =
      let l = t.ratelimiter in
      let s = with_buffer alloc l sane (starting t.pool) ps in
      (
        record {
          emulator = (emulate_all t.emulator pkts).0;
          ratelimiter = l;
          pool = t.pool;
          bad = record {
            pkts = add_at t.bad.pkts l.port_id 0;
            bytes = add_at t.bad.bytes l.port_id 0;
          };
          bursts = t.bursts ++ [];
        },
        rw (load, send_load_lost alloc l sane ps t.pool undelayed missing few) refl,
        append-nil t.bursts,
        (emulate_all-offset l t.emulator pkts agree small).0
            ∙ ap (λ os. u64 (t.emulator.current_byte_offset + asked_bytes l (kept os))) load
            ∙ ap (λ n. u64 (t.emulator.current_byte_offset + n))
                (asked_bytes-undelayed l ps undelayed),
      )
