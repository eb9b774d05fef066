-- ===== src/Launch/Clock.antt =====
-- The byte clock of src/launch-timestamp.cpp: how `send_batch` treats early, late and very late
-- packets, and why `current_byte_offset` keeps up with the bytes on the wire.
use moon_gen_dpdk_v.Prelude.{
  ℕ, ◌+◌, ◌-◌, ◌^◌, ◌≤◌, ◌<◌, ◌≡◌, Option, none, some, List, [], ◌∷◌, arith, u64, sub_u64,
}
use moon_gen_dpdk_v.Prelude.Int.{pos, sub_ℕ, signed64}
use moon_gen_dpdk_v.Double.{Double}
use moon_gen_dpdk_v.Dpdk.{Mbuf}
use moon_gen_dpdk_v.Crc.{RateLimiterCrc}
use moon_gen_dpdk_v.Crc.Load.{kept}
use moon_gen_dpdk_v.Crc.Pace.{asked_bytes}
use moon_gen_dpdk_v.Launch.{
  DelayEmulator, current_sending_time, delay_bytes, emulate_at, emulate, emulate_all,
}

signed_diff :
    (goal now : ℕ) → goal < 2 ^ 63 → now < 2 ^ 63 → signed64 (sub_u64 goal now) ≡ sub_ℕ goal now
signed_diff goal now g n = ground arith

module _ {W : Type 0} ⦃d : Double W⦄ (e : DelayEmulator W) (pkt : Mbuf) where
  -- What becomes of a packet whose goal is `goal` when the wire has reached the time `now`.
  pub record Emulated (now : ℕ) (r : DelayEmulator W × Option Mbuf) : Type 0 where
    pub very_late : pkt.timestamp + 100_000 < now → r ≡ (e, none)
    pub late :
        now ≤ pkt.timestamp + 100_000
        → pkt.timestamp < now
        → (r.1 ≡ some (record pkt { timestamp = 0 }))
          × (r.0.current_byte_offset
              ≡ u64 (e.current_byte_offset + (pkt.pkt_len + e.packet_overhead)))
    pub early :
        now ≤ pkt.timestamp
        → let delay = delay_bytes e (pos (pkt.timestamp - now)) in
          (r.1 ≡ some (record pkt { timestamp = delay }))
          × (r.0.current_byte_offset
              ≡ u64 (e.current_byte_offset + (pkt.pkt_len + e.packet_overhead + delay)))

  -- For times below 2 ^ 63 the wrapping difference of `send_batch` compares the true times: a packet
  -- is dropped exactly if it is more than 100 µs late; a late packet goes out without a delay; any
  -- other with the bytes that the time up to its goal takes; and the byte offset grows by what the
  -- packet and its delay take on the wire.
  pub emulate-Emulated :
      pkt.timestamp < 2 ^ 63
      → current_sending_time e < 2 ^ 63
      → Emulated (current_sending_time e) (emulate e pkt)
  unfolding emulate
  emulate-Emulated g n = rw (signed_diff pkt.timestamp (current_sending_time e) g n) (record {
    very_late = unfold emulate_at in λ h. ground arith;
    late = unfold emulate_at in λ h k. ground arith;
    early = unfold emulate_at in λ h. ground arith;
  })

-- The emulator and the limiter reckon with the same bytes between frames.
abbrev pub Agree : {W : Type 0} → DelayEmulator W → RateLimiterCrc → Type 0
Agree e l = e.packet_overhead ≡ l.packet_overhead

asked_option : RateLimiterCrc → Option Mbuf → ℕ
asked_option l none = 0
asked_option l (some p) = p.timestamp + (p.pkt_len + l.packet_overhead)

asked_bytes-kept :
    (l : RateLimiterCrc) (o : Option Mbuf) (os : List (Option Mbuf))
    → asked_bytes l (kept (o ∷ os)) ≡ asked_option l o + asked_bytes l (kept os)
unfolding asked_option
asked_bytes-kept l none os = omega arith
asked_bytes-kept l (some p) os = omega arith

module _ {W : Type 0} ⦃d : Double W⦄ (l : RateLimiterCrc) where
  emulate-offset :
      (e : DelayEmulator W) (pkt : Mbuf)
      → Agree e l
      → e.current_byte_offset < 2 ^ 64
      → ((emulate e pkt).0.current_byte_offset
          ≡ u64 (e.current_byte_offset + asked_option l (emulate e pkt).1))
        × Agree (emulate e pkt).0 l
  unfolding emulate emulate_at asked_option
  emulate-offset e pkt a h = ground arith

  -- If the emulator and the limiter reckon with the same overhead and the byte offset lies below 2
  -- ^ 64, the loop of `send_batch` adds to it, modulo 2 ^ 64, what the kept packets and their
  -- delays take on the wire, and leaves the overhead as it was.
  pub emulate_all-offset :
      (e : DelayEmulator W) (pkts : List Mbuf)
      → Agree e l
      → e.current_byte_offset < 2 ^ 64
      → ((emulate_all e pkts).0.current_byte_offset
          ≡ u64 (e.current_byte_offset + asked_bytes l (kept (emulate_all e pkts).1)))
        × Agree (emulate_all e pkts).0 l
  unfolding emulate_all
  emulate_all-offset e [] a h = (omega arith, a)
  emulate_all-offset e (pkt ∷ pkts) a h =
      let (b, a1) = emulate-offset e pkt a h in
      let (c, a2) = emulate_all-offset (emulate e pkt).0 pkts a1 (omega arith) in
      (
        omega (
          arith,
          b,
          c,
          asked_bytes-kept l (emulate e pkt).1 (emulate_all (emulate e pkt).0 pkts).1,
        ),
        a2,
      )
