-- ===== src/Launch.antt =====
-- src/launch-timestamp.cpp and src/launch-timestamp.hpp: the transmit side of the emulator. It turns
-- the time at which a packet shall leave into a delay in bytes on the wire, which the rate limiter
-- of src/crc-ratecontrol.cpp then fills.
pub mod Clock
pub mod Sync
pub mod Run
pub mod Start
pub mod Drop
pub mod Tests
use moon_gen_dpdk_v.Prelude.{
  ℕ, zero, suc, ◌+◌, ◌*◌, Bool, Option, none, some, List, [], ◌∷◌, ◌++◌, if◌then◌else◌, u64,
  sub_u64, is_nil,
}
use moon_gen_dpdk_v.Prelude.Int.{ℤ, pos, negsuc, ltb_ℤ, signed64}
use moon_gen_dpdk_v.Double.{Double}
use moon_gen_dpdk_v.Dpdk.{Mbuf}
use moon_gen_dpdk_v.Crc.{
  Outcome, done, ◌>>=◌, RateLimiterCrc, Sending, BadSent, set_invalid_packet_size, send_packets,
  empty_delay, send_timestamp_packet,
}

pub record DelayEmulator (W : Type 0) : Type 0 where
  pub first_timestamp : ℕ
  pub current_byte_offset : ℕ
  pub nanoseconds_per_byte : W
  pub packet_overhead : ℕ

module _ {W : Type 0} ⦃d : Double W⦄ where
  -- The constructor; it leaves the first two fields unset, which `transmit_loop` sets.
  unfoldable pub create : ℕ → ℕ → DelayEmulator W
  create line_rate overhead = record {
    first_timestamp = 0;
    current_byte_offset = 0;
    nanoseconds_per_byte = d.mul (d.decimal 8 2) (d.div (d.decimal 100_000 0) (d.of_u64 line_rate));
    packet_overhead = overhead;
  }

  unfoldable pub current_sending_time : DelayEmulator W → ℕ
  current_sending_time e = d.to_u64 (
      d.add (d.of_u64 e.first_timestamp)
        (d.mul (d.of_u64 e.current_byte_offset) e.nanoseconds_per_byte))

  unfoldable pub delay_bytes : DelayEmulator W → ℤ → ℕ
  delay_bytes e diff = d.to_u64 (d.div (d.of_i64 diff) e.nanoseconds_per_byte)

  -- The branches on `sending_time_diff`. `none` is a packet that was freed and set to NULL.
  unfoldable pub emulate_at : DelayEmulator W → Mbuf → ℤ → DelayEmulator W × Option Mbuf
  unfolding delay_bytes
  emulate_at e pkt diff =
      if ltb_ℤ diff (pos 0)
      then if ltb_ℤ diff (negsuc 99_999) then (e, none) else (
        record e {
          current_byte_offset = u64 (e.current_byte_offset + u64 (pkt.pkt_len + e.packet_overhead));
        },
        some (record pkt { timestamp = 0 }),
      )
      else let delay = delay_bytes e diff in
        (
          record e {
            current_byte_offset =
                u64 (e.current_byte_offset + u64 (u64 (pkt.pkt_len + e.packet_overhead) + delay));
          },
          some (record pkt { timestamp = delay }),
        )

  unfoldable pub emulate : DelayEmulator W → Mbuf → DelayEmulator W × Option Mbuf
  unfolding emulate_at current_sending_time
  emulate e pkt = emulate_at e pkt (signed64 (sub_u64 pkt.timestamp (current_sending_time e)))

  -- The loop of `send_batch` over `load_pkts`.
  unfoldable pub emulate_all : DelayEmulator W → List Mbuf → DelayEmulator W × List (Option Mbuf)
  unfolding emulate
  emulate_all e [] = (e, [])
  emulate_all e (pkt ∷ pkts) =
      let (e1, o) = emulate e pkt in let (e2, os) = emulate_all e1 pkts in (e2, o ∷ os)

-- The emulator with the limiter that it drives, and all the bursts that DPDK was given.
pub record Transmitter (W P : Type 0) : Type 0 where
  pub emulator : DelayEmulator W
  pub ratelimiter : RateLimiterCrc
  pub pool : P
  pub bad : BadSent
  pub bursts : List (List Mbuf)

module _ {W P : Type 0} where
  abbrev pub with_size : ℕ → Transmitter W P → Transmitter W P
  with_size size t = record t { ratelimiter = set_invalid_packet_size t.ratelimiter size }

  abbrev pub with_offset : ℕ → Transmitter W P → Transmitter W P
  with_offset offset t = record t { emulator = record t.emulator { current_byte_offset = offset } }

  abbrev pub after_burst : Transmitter W P → P → List Mbuf → Transmitter W P
  after_burst t pool frames = record t { pool = pool; bursts = t.bursts ++ (frames ∷ []) }

module _ {W P : Type 0} ⦃d : Double W⦄ (alloc : P → Option (Mbuf × P))
    (alloc_mbufs : P → ℕ → ℕ → List Mbuf × P) where
  unfoldable pub send_batch : Transmitter W P → List Mbuf → Outcome (Transmitter W P)
  send_batch t pkts =
      let (e, load) = emulate_all t.emulator pkts in
      send_packets alloc t.ratelimiter load t.pool t.bad >>= λ (l, s, bad). done (record {
        emulator = e;
        ratelimiter = l;
        pool = s.pool;
        bad = bad;
        bursts = t.bursts ++ s.sent;
      })

  -- `ratelimiter->empty_delay(64)`, the result dropped or added to `current_byte_offset`.
  unfoldable pub warm_up : ℕ → Transmitter W P → Outcome (Transmitter W P)
  warm_up zero t = done t
  warm_up (suc n) t = empty_delay alloc_mbufs t.ratelimiter 64 t.pool >>= λ (pool, frames, bytes).
      warm_up n (after_burst t pool frames)

  unfoldable pub idle : Transmitter W P → Outcome (Transmitter W P)
  idle t = empty_delay alloc_mbufs t.ratelimiter 64 t.pool >>= λ (pool, frames, bytes).
      done (with_offset (u64 (t.emulator.current_byte_offset + bytes)) (after_burst t pool frames))

  unfoldable pub idle_for : ℕ → Transmitter W P → Outcome (Transmitter W P)
  idle_for zero t = done t
  idle_for (suc n) t = idle t >>= idle_for n

  -- One round of the loop, with what the ring gave it.
  unfoldable pub transmit_round : Transmitter W P → List Mbuf → Outcome (Transmitter W P)
  transmit_round t pkts =
      if is_nil pkts then idle (with_size 1500 t) else send_batch (with_size 9000 t) pkts

  -- `while(libmoon::is_running(0))`, over what each dequeue returns until it stops running.
  unfoldable pub transmit_rounds : Transmitter W P → List (List Mbuf) → Outcome (Transmitter W P)
  transmit_rounds t [] = done t
  transmit_rounds t (pkts ∷ later) = transmit_round t pkts >>= λ t'. transmit_rounds t' later

  unfoldable pub start : Transmitter W P → ℕ → ℕ → Outcome (Transmitter W P)
  start t tv_sec tv_nsec = warm_up 100 (with_size 1500 t) >>= λ t1.
      send_timestamp_packet alloc_mbufs t1.ratelimiter 64 t1.pool >>= λ (pool, frames, bytes).
      idle_for 100 (with_offset bytes (after_burst t1 pool frames)) >>= λ t2. done (record t2 {
        emulator = record t2.emulator {
          first_timestamp = u64 (u64 (tv_sec * 1_000_000_000) + tv_nsec);
        };
      })

  unfoldable pub transmit_loop :
      Transmitter W P → ℕ → ℕ → List (List Mbuf) → Outcome (Transmitter W P)
  transmit_loop t tv_sec tv_nsec dequeues =
      start t tv_sec tv_nsec >>= λ t'. transmit_rounds t' dequeues
