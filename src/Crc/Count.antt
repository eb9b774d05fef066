-- ===== src/Crc/Count.antt =====
-- The registers of bad packets and bad bytes in src/crc-ratecontrol.cpp.
use moon_gen_dpdk_v.Prelude.{
  ℕ, ◌+◌, ◌-◌, ◌*◌, ◌^◌, ◌≤◌, ◌<◌, ◌≡◌, ◌≢◌, Option, List, [], ◌∷◌, ◌++◌, arith, length,
  length-append, concat, u64,
}
use moon_gen_dpdk_v.Dpdk.{Mbuf, wire_bytes, wire_bytes-append}
use moon_gen_dpdk_v.Crc.{
  RateLimiterCrc, Sending, send_load, send_packets, BadSent, add_at, get_bad_pkts_sent,
  get_bad_bytes_sent,
}
use moon_gen_dpdk_v.Crc.Frames.{IsSane, Ends, Ends-bind}
use moon_gen_dpdk_v.Crc.Fill.{Exhausted}
use moon_gen_dpdk_v.Crc.Load.{IsPaced, wire_bytes-fillers}
use moon_gen_dpdk_v.Crc.Send.{Sent}
use moon_gen_dpdk_v.Crc.Load.{kept}
use moon_gen_dpdk_v.Crc.Pace.{IsReady, starting, send_load-Sent}

-- There are no fewer frames than load packets, and each of the others takes at least 20 bytes.
IsPaced-extra :
    (l : RateLimiterCrc) (sane : IsSane l) (m : ℕ) (load out : List Mbuf) (m' : ℕ)
    → IsPaced l m load out m'
    → (length load ≤ length out)
      × (wire_bytes l.packet_overhead load + 20 * length out
          ≤ wire_bytes l.packet_overhead out + 20 * length load)
IsPaced-extra l sane m [] out m' (e, _) = rw e (omega arith)
IsPaced-extra l sane m (p ∷ load) out m' (fills, rest, m1, e, fillers, _, _, later) =
    let (n, b) = IsPaced-extra l sane m1 load rest m' later in
    rw e (
      omega (
        arith,
        length-append fills (p ∷ rest),
        wire_bytes-append l.packet_overhead fills (p ∷ rest),
        wire_bytes-fillers l sane fills fillers,
      ))

-- The registers after a call whose frames are `out`.
pub record Counts (l : RateLimiterCrc) (load : List Mbuf) (bad : BadSent) (out : List Mbuf)
    (after : BadSent) : Type 0 where
  pub pkts :
      get_bad_pkts_sent after l.port_id
      ≡ u64 (get_bad_pkts_sent bad l.port_id + (length out - length load))
  pub bytes :
      get_bad_bytes_sent after l.port_id
      ≡ u64 (
          get_bad_bytes_sent bad l.port_id
          + (wire_bytes l.packet_overhead out
              - wire_bytes l.packet_overhead load
              - 20 * (length out - length load)))
  pub others :
      (port : ℕ)
      → port ≢ l.port_id
      → (get_bad_pkts_sent after port ≡ get_bad_pkts_sent bad port)
        × (get_bad_bytes_sent after port ≡ get_bad_bytes_sent bad port)

module _ {P : Type 0} (alloc : P → Option (Mbuf × P)) (l : RateLimiterCrc)
    (load : List (Option Mbuf)) (pool : P) (bad : BadSent) (ready : IsReady l load) where
  abbrev pub Counted : RateLimiterCrc × Sending P × BadSent → Type 0
  Counted r =
      let out = concat r.1.sent ++ r.1.buffer in
      length out < 2 ^ 32
      → wire_bytes l.packet_overhead out < 2 ^ 32
      → Counts l (kept load) bad out r.2

  Counted-of-Sent :
      (r : RateLimiterCrc × Sending P)
      → Sent alloc l ready.sane l.previous_missing_delay load (starting pool) r
      → Counted (
        r.0,
        r.1,
        record {
          pkts = add_at bad.pkts l.port_id r.1.num_bad_pkts;
          bytes = add_at bad.bytes l.port_id r.1.num_bad_bytes;
        },
      )
  unfolding add_at get_bad_pkts_sent get_bad_bytes_sent
  Counted-of-Sent r h few small =
      let out = h.out in
      let few' : length h.out < 2 ^ 32 = rw h.emits at few in
      let small' : wire_bytes l.packet_overhead h.out < 2 ^ 32 = rw h.emits at small in
      let (n, b) =
        IsPaced-extra l ready.sane l.previous_missing_delay (kept load) h.out h.left h.paced in
      let pkts : r.1.num_bad_pkts ≡ length h.out - length (kept load) =
        omega (arith, h.counted, h.still_open.bad_pkts_lt) in
      let bytes : r.1.num_bad_bytes
          ≡ wire_bytes l.packet_overhead h.out
            - wire_bytes l.packet_overhead (kept load)
            - 20 * (length h.out - length (kept load)) =
        omega (arith, h.counted_bytes, h.still_open.bad_bytes_lt) in
      rw h.emits (record {
        pkts = rw pkts (ground arith);
        bytes = rw bytes (ground arith);
        others = λ port ne. ground arith;
      })

  -- For sane sizes and delays and unless the pool runs empty: if the frames of a call and their
  -- bytes stay below 2 ^ 32, the registers of the limiter's port grow by the number of the frames
  -- that are no load packets, and by their bytes on the wire less 20 for each; the registers of
  -- the other ports stay.
  pub send_packets-Counts : Ends (Exhausted alloc) Counted (send_packets alloc l load pool bad)
  unfolding send_packets
  send_packets-Counts =
      Ends-bind (Exhausted alloc)
        (Sent alloc l ready.sane l.previous_missing_delay load (starting pool)) Counted
        (send_load alloc l load pool) _ (send_load-Sent alloc l load pool ready) Counted-of-Sent
