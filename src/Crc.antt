-- ===== src/Crc.antt =====
-- src/crc-ratecontrol.cpp and src/crc-ratecontrol.hpp: the rate limiter that fills the gaps between
-- load packets with frames of a bad checksum. What reaches DPDK is the list of the bursts that
-- `dpdk_send_all_packets` is called with; the packet pool is a parameter.
pub mod Frames
pub mod Fill
pub mod Load
pub mod Send
pub mod Pace
pub mod Lost
pub mod Count
pub mod Tests
use moon_gen_dpdk_v.Prelude.{
  ℕ, zero, suc, ◌+◌, ◌-◌, ◌*◌, ◌/◌, ◌%◌, ◌≤◌, ◌<◌, Bool, true, false, ◌||◌, Option, none, some,
  List, [], ◌∷◌, ◌++◌, ltb, leb, ◌==◌, if◌then◌else◌, length, u16, u32, u64, sub_u64, is_nil,
}
use moon_gen_dpdk_v.Dpdk.{Mbuf}

-- How a call ends: with a value, by a write through the null pointer that an empty packet pool
-- returns, by a write past the end of the array `pkts`, or out of the model's fuel.
pub data Outcome {ℓ} (A : Type ℓ) : Type ℓ where
  done : A → Outcome A
  null_write : Outcome A
  overflow : Outcome A
  out_of_fuel : Outcome A

infixl 5 ◌>>=◌
abbrev pub ◌>>=◌ {ℓ κ} : {A : Type ℓ} {B : Type κ} → Outcome A → (A → Outcome B) → Outcome B
done a >>= f = f a
null_write >>= f = null_write
overflow >>= f = overflow
out_of_fuel >>= f = out_of_fuel

pub record RateLimiterCrc : Type 0 where
  pub port_id : ℕ
  pub queue_id : ℕ
  pub previous_missing_delay : ℕ
  pub invalid_packet_size : ℕ
  pub min_packet_size : ℕ
  pub packet_overhead : ℕ

abbrev pub transmit_buffer_size : ℕ
transmit_buffer_size = 64

-- The constructor.
unfoldable pub create : ℕ → ℕ → ℕ → ℕ → ℕ → RateLimiterCrc
create port queue min_size overhead invalid_size = record {
  port_id = port;
  queue_id = queue;
  previous_missing_delay = 0;
  invalid_packet_size = invalid_size;
  min_packet_size = min_size;
  packet_overhead = overhead;
}

unfoldable pub set_invalid_packet_size : RateLimiterCrc → ℕ → RateLimiterCrc
set_invalid_packet_size l size = record l { invalid_packet_size = size }

-- The tests at the head of `get_delay_packet`: how much of the delay one frame takes.
unfoldable pub delay_share : ℕ → ℕ → ℕ
delay_share invalid_size delay =
    if leb delay invalid_size
    then delay
    else if ltb (sub_u64 (u64 (2 * invalid_size)) 100) delay
    then invalid_size
    else delay / 2

-- The locals of `send_packets`, and what it has handed to DPDK so far.
pub record Sending (P : Type 0) : Type 0 where
  pub pool : P
  pub buffer : List Mbuf
  pub sent : List (List Mbuf)
  pub num_bad_pkts : ℕ
  pub num_bad_bytes : ℕ

module _ {P : Type 0} where
  -- `pkts[send_buf_idx++] = pkt`
  unfoldable pub push : Mbuf → Sending P → Outcome (Sending P)
  push p s =
      if ltb (length s.buffer) transmit_buffer_size
      then done (record s { buffer = s.buffer ++ (p ∷ []) })
      else overflow

  -- `dpdk_send_all_packets(port_id, queue_id, pkts, send_buf_idx); send_buf_idx = 0;`
  unfoldable pub flush : Sending P → Sending P
  flush s = record s { buffer = []; sent = s.sent ++ (s.buffer ∷ []) }

  unfoldable pub flush_if : Bool → Sending P → Sending P
  unfolding flush
  flush_if b s = if b then flush s else s

-- `rte_pktmbuf_alloc` on the pool: `none` is the null pointer.
module _ {P : Type 0} (alloc : P → Option (Mbuf × P)) where
  unfoldable pub get_delay_packet : RateLimiterCrc → ℕ → P → Outcome (Mbuf × P)
  unfolding delay_share
  get_delay_packet l delay pool = elim (alloc pool) [
    | none ↦ null_write
    | some (pkt, pool') ↦
        let size = sub_u64 (delay_share l.invalid_packet_size delay) l.packet_overhead in
        done (record pkt { data_len = u16 size; pkt_len = u32 size }, pool')
  ]

  -- One round of the loop of step 1. `get_delay_packet` never returns a null pointer, so that the
  -- test `if (pkt)` passes.
  unfoldable pub delay_round : RateLimiterCrc → ℕ → Sending P → Outcome (ℕ × Sending P)
  delay_round l delay s = get_delay_packet l delay s.pool >>= λ (pkt, pool').
      let wire = u64 (pkt.pkt_len + l.packet_overhead) in
      let counted : Sending P = record s {
        pool = pool';
        num_bad_pkts = u32 (s.num_bad_pkts + 1);
        num_bad_bytes = u32 (s.num_bad_bytes + sub_u64 wire 20);
      } in
      push pkt counted >>= λ s'.
      done (sub_u64 delay wire, flush_if (leb transmit_buffer_size (length s'.buffer)) s')

  -- `while (delay >= MIN_PACKET_SIZE + PACKET_OVERHEAD)`, which ends with the delay that is left.
  unfoldable pub fill : ℕ → RateLimiterCrc → ℕ → Sending P → Outcome (ℕ × Sending P)
  fill zero l delay s = out_of_fuel
  fill (suc fuel) l delay s =
      let more = delay_round l delay s >>= λ (delay', s'). fill fuel l delay' s' in
      if leb (u64 (l.min_packet_size + l.packet_overhead)) delay then more else done (delay, s)

  -- The body of the loop over the load packets, for a packet that was not deleted. A delay of n
  -- bytes takes at most n rounds.
  unfoldable pub send_one :
      RateLimiterCrc → Mbuf → Bool → Sending P → Outcome (RateLimiterCrc × Sending P)
  send_one l pkt last s =
      let delay = u64 (pkt.timestamp + l.previous_missing_delay) in
      fill (suc delay) l delay s >>= λ (left, s1). push pkt s1 >>= λ s2. done (
        record l { previous_missing_delay = left },
        flush_if (leb transmit_buffer_size (length s2.buffer) || last) s2,
      )

  -- The loop. A deleted packet is skipped before the test for the last packet.
  unfoldable pub send_loop :
      RateLimiterCrc → List (Option Mbuf) → Sending P → Outcome (RateLimiterCrc × Sending P)
  send_loop l [] s = done (l, s)
  send_loop l (none ∷ pkts) s = send_loop l pkts s
  send_loop l (some pkt ∷ pkts) s =
      send_one l pkt (is_nil pkts) s >>= λ (l', s'). send_loop l' pkts s'

  -- `send_packets` up to its loop's end.
  unfoldable pub send_load :
      RateLimiterCrc → List (Option Mbuf) → P → Outcome (RateLimiterCrc × Sending P)
  send_load l load pool =
      send_loop l load
        (record { pool = pool; buffer = []; sent = []; num_bad_pkts = 0; num_bad_bytes = 0 })

-- The registers `bad_pkts_sent` and `bad_bytes_sent`, by port.
pub record BadSent : Type 0 where
  pub pkts : ℕ → ℕ
  pub bytes : ℕ → ℕ

-- `__sync_fetch_and_add(&reg[port], n)`
unfoldable pub add_at : (ℕ → ℕ) → ℕ → ℕ → ℕ → ℕ
add_at reg port n i = if i == port then u64 (reg i + n) else reg i

unfoldable pub get_bad_pkts_sent : BadSent → ℕ → ℕ
get_bad_pkts_sent b port = b.pkts port

unfoldable pub get_bad_bytes_sent : BadSent → ℕ → ℕ
get_bad_bytes_sent b port = b.bytes port

module _ {P : Type 0} (alloc : P → Option (Mbuf × P)) where
  unfoldable pub send_packets :
      RateLimiterCrc
      → List (Option Mbuf)
      → P
      → BadSent
      → Outcome (RateLimiterCrc × Sending P × BadSent)
  send_packets l load pool bad = send_load alloc l load pool >>= λ (l', s). done (
    l',
    s,
    record {
      pkts = add_at bad.pkts l.port_id s.num_bad_pkts;
      bytes = add_at bad.bytes l.port_id s.num_bad_bytes;
    },
  )

abbrev pub invalid_packets_size : ℕ
invalid_packets_size = 1024

-- `invalid_packets[0]->ol_flags |= RTE_MBUF_F_TX_IEEE1588_TMST`
unfoldable pub mark_first : List Mbuf → Outcome (List Mbuf)
mark_first [] = null_write
mark_first (p ∷ ps) = done (record p { tx_timestamp = true } ∷ ps)

-- `alloc_mbufs` of libmoon: so many buffers of that length, a `uint16_t`, from the pool.
module _ {P : Type 0} (alloc_mbufs : P → ℕ → ℕ → List Mbuf × P) where
  -- The pool, the burst that is handed to DPDK, and the result, its bytes on the wire.
  unfoldable pub empty_delay : RateLimiterCrc → ℕ → P → Outcome (P × List Mbuf × ℕ)
  empty_delay l num_packets pool =
      if ltb invalid_packets_size num_packets
      then overflow
      else let (frames, pool') = alloc_mbufs pool num_packets (u16 l.invalid_packet_size) in
        done (pool', frames, u64 (num_packets * u64 (l.invalid_packet_size + l.packet_overhead)))

  unfoldable pub send_timestamp_packet : RateLimiterCrc → ℕ → P → Outcome (P × List Mbuf × ℕ)
  send_timestamp_packet l num_packets pool =
      if ltb invalid_packets_size num_packets
      then overflow
      else let (frames, pool') = alloc_mbufs pool num_packets (u16 l.invalid_packet_size) in
        mark_first frames >>= λ marked.
        done (pool', marked, u64 (num_packets * u64 (l.invalid_packet_size + l.packet_overhead)))
