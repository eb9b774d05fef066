-- ===== src/Launch/Sync.antt =====
-- The byte clock of src/launch-timestamp.cpp stays in step with the bytes on the wire, through
-- `send_batch` and the idle rounds of `transmit_loop`.
use moon_gen_dpdk_v.Prelude.{
  ℕ, ◌+◌, ◌^◌, ◌≤◌, ◌<◌, ◌≡◌, sym, ap, ◌∙◌, true, Option, List, ◌++◌, arith, u64, concat,
  concat-append,
}
use moon_gen_dpdk_v.Double.{Double}
use moon_gen_dpdk_v.Dpdk.{Mbuf, wire_bytes, wire_bytes-append}
use moon_gen_dpdk_v.Crc.{
  RateLimiterCrc, Sending, BadSent, send_load, send_packets, set_invalid_packet_size,
}
use moon_gen_dpdk_v.Crc.Frames.{min_gap, IsSane, Ends, Ends-bind}
use moon_gen_dpdk_v.Crc.Fill.{Exhausted}
use moon_gen_dpdk_v.Crc.Load.{last_kept}
use moon_gen_dpdk_v.Crc.Load.{kept}
use moon_gen_dpdk_v.Crc.Pace.{IsReady, asked_bytes, Paces, send_load-Paces, Paces-bytes}
use moon_gen_dpdk_v.Launch.{Transmitter, emulate_all, send_batch, with_size}
use moon_gen_dpdk_v.Launch.Clock.{Agree, emulate_all-offset}

-- The clock in bytes: the offset is the bytes on the wire with those still missing, up to what
-- was on the wire when it was 0, the constant `c`. The size of an invalid packet fits into the 16
-- bits that `alloc_mbufs` takes.
pub record IsSynced {W P : Type 0} (c : ℕ) (t : Transmitter W P) : Type 0 where
  pub agree : Agree t.emulator t.ratelimiter
  pub offset_lt : t.emulator.current_byte_offset < 2 ^ 64
  pub gap_ge : 20 ≤ min_gap t.ratelimiter
  pub gap_le : min_gap t.ratelimiter ≤ 750
  pub missing_lt : t.ratelimiter.previous_missing_delay < min_gap t.ratelimiter
  pub size_lt : t.ratelimiter.invalid_packet_size < 2 ^ 16
  pub synced :
      u64 (c + t.emulator.current_byte_offset)
      ≡ u64 (
          wire_bytes t.ratelimiter.packet_overhead (concat t.bursts)
          + t.ratelimiter.previous_missing_delay)

pub with_size-IsSane :
    {W P : Type 0} (c : ℕ) (t : Transmitter W P)
    → IsSynced c t
    → IsSane (with_size 1500 t).ratelimiter × IsSane (with_size 9000 t).ratelimiter
unfolding set_invalid_packet_size
with_size-IsSane c t h = (
  record {
    gap_ge = h.gap_ge;
    invalid_ge = omega (arith, h.gap_le);
    invalid_ge_fifty = omega arith;
    invalid_lt = omega arith;
  },
  record {
    gap_ge = h.gap_ge;
    invalid_ge = omega (arith, h.gap_le);
    invalid_ge_fifty = omega arith;
    invalid_lt = omega arith;
  },
)

module _ {W P : Type 0} ⦃d : Double W⦄ where
  IsSynced-sent :
      (c : ℕ) (t : Transmitter W P) (pkts : List Mbuf) (bad : BadSent)
      (r : RateLimiterCrc × Sending P)
      → IsSynced c t
      → last_kept (emulate_all t.emulator pkts).1 ≡ true
      → Paces t.ratelimiter (emulate_all t.emulator pkts).1 r
      → IsSynced c (record {
        emulator = (emulate_all t.emulator pkts).0;
        ratelimiter = r.0;
        pool = r.1.pool;
        bad = bad;
        bursts = t.bursts ++ r.1.sent;
      })
  IsSynced-sent c t pkts bad r h last paces =
      let overhead = ap (λ (x : RateLimiterCrc). x.packet_overhead) paces.limiter in
      let min_size = ap (λ (x : RateLimiterCrc). x.min_packet_size) paces.limiter in
      let size = ap (λ (x : RateLimiterCrc). x.invalid_packet_size) paces.limiter in
      let (offset, agree) = emulate_all-offset t.ratelimiter t.emulator pkts h.agree h.offset_lt in
      let all_sent : wire_bytes t.ratelimiter.packet_overhead (concat r.1.sent)
            + r.0.previous_missing_delay
          ≡ t.ratelimiter.previous_missing_delay
            + asked_bytes t.ratelimiter (kept (emulate_all t.emulator pkts).1) =
        Paces-bytes t.ratelimiter (emulate_all t.emulator pkts).1 r last paces in
      record {
        agree = agree ∙ sym overhead;
        offset_lt = omega (arith, offset);
        gap_ge = omega (arith, h.gap_ge, overhead, min_size);
        gap_le = omega (arith, h.gap_le, overhead, min_size);
        missing_lt = omega (arith, paces.missing_lt, overhead, min_size);
        size_lt = omega (arith, h.size_lt, size);
        synced =
            rw (overhead, concat-append t.bursts r.1.sent)
              (omega (
                arith,
                offset,
                all_sent,
                h.synced,
                wire_bytes-append t.ratelimiter.packet_overhead (concat t.bursts) (concat r.1.sent),
              ));
      }

  abbrev pub after_send :
      Transmitter W P → List Mbuf → RateLimiterCrc × Sending P × BadSent → Transmitter W P
  after_send t pkts x = record {
    emulator = (emulate_all t.emulator pkts).0;
    ratelimiter = x.0;
    pool = x.1.pool;
    bad = x.2;
    bursts = t.bursts ++ x.1.sent;
  }

  module _ (alloc : P → Option (Mbuf × P)) (alloc_mbufs : P → ℕ → ℕ → List Mbuf × P) where
    -- While the byte clock is in step with the wire, a batch with sane sizes and delays whose last
    -- packet is not dropped keeps it in step, unless the pool runs empty: the bytes that the
    -- limiter hands to DPDK, with the change of the missing bytes, are those by which `send_batch`
    -- advances `current_byte_offset`.
    pub send_batch-IsSynced :
        (c : ℕ) (t : Transmitter W P) (pkts : List Mbuf)
        → IsSynced c t
        → IsReady t.ratelimiter (emulate_all t.emulator pkts).1
        → last_kept (emulate_all t.emulator pkts).1 ≡ true
        → Ends (Exhausted alloc) (IsSynced c) (send_batch alloc alloc_mbufs t pkts)
    unfolding send_batch send_packets
    send_batch-IsSynced c t pkts h ready last =
        Ends-bind (Exhausted alloc) (λ x. IsSynced c (after_send t pkts x)) (IsSynced c)
          (send_packets alloc t.ratelimiter (emulate_all t.emulator pkts).1 t.pool t.bad) _
          (Ends-bind (Exhausted alloc) (Paces t.ratelimiter (emulate_all t.emulator pkts).1)
            (λ x. IsSynced c (after_send t pkts x))
            (send_load alloc t.ratelimiter (emulate_all t.emulator pkts).1 t.pool) _
            (send_load-Paces alloc t.ratelimiter (emulate_all t.emulator pkts).1 t.pool ready)
            (λ r paces. IsSynced-sent c t pkts _ r h last paces))
          (λ x s. s)
