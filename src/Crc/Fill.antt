-- ===== src/Crc/Fill.antt =====
-- Step 1 of `send_packets` in src/crc-ratecontrol.cpp: the frames that fill the gap before a packet.
use mathlib.Core.List.{append-nil, append_assoc}
use moon_gen_dpdk_v.Prelude.{
  ℕ, zero, suc, ◌+◌, ◌-◌, ◌^◌, ◌≤◌, ◌<◌, ◌≡◌, sym, ap, ◌∙◌, inl, inr, Option, none, some,
  Option-cases, List, [], ◌∷◌, ◌++◌, arith, Bool-cases, leb, leb→le, leb→lt, length, All, u16, u32,
  u64,
}
use moon_gen_dpdk_v.Dpdk.{Mbuf, wire_bytes}
use moon_gen_dpdk_v.Crc.{
  done, null_write, RateLimiterCrc, transmit_buffer_size, delay_share, Sending, flush_if,
  get_delay_packet, delay_round, fill,
}
use moon_gen_dpdk_v.Crc.Frames.{
  Ends, Ends-imp, IsFiller, IsOpen, IsSane, bad_bytes, delay_share_bounds, emitted,
  emitted-flush_if, flush_if-IsOpen, flush_if-counts, min_gap, push-pushed, pushed,
}

-- The frame that `get_delay_packet` makes of a pool's buffer for `share` bytes of delay.
abbrev frame : RateLimiterCrc → ℕ → Mbuf → Mbuf
frame l share m = record m {
  data_len = u16 (share - l.packet_overhead);
  pkt_len = share - l.packet_overhead;
}

-- What step 1 does to a delay: frames that are emitted in order and take up all of it but `r.0`,
-- and the counts of these frames.
pub record Filled {P : Type 0} (l : RateLimiterCrc) (delay : ℕ) (s : Sending P) (r : ℕ × Sending P)
    : Type 0 where
  pub fills : List Mbuf
  pub fillers : All (IsFiller l) fills
  pub emits : emitted r.1 ≡ emitted s ++ fills
  pub still_open : IsOpen r.1
  pub bytes : wire_bytes l.packet_overhead fills + r.0 ≡ delay
  pub counted : u32 (s.num_bad_pkts + length fills) ≡ u32 r.1.num_bad_pkts
  pub counted_bytes :
      u32 (s.num_bad_bytes + bad_bytes l.packet_overhead fills) ≡ u32 r.1.num_bad_bytes

-- Less than a minimal gap is left over.
abbrev pub Gap : {P : Type 0} → RateLimiterCrc → ℕ → Sending P → ℕ × Sending P → Type 0
Gap l delay s r = Filled l delay s r × (r.0 < min_gap l)

-- Some state of the pool has no buffer.
abbrev pub Exhausted : {P : Type 0} → (P → Option (Mbuf × P)) → Type 0
Exhausted {P} alloc = (pool : P) × (alloc pool ≡ none)

module _ {P : Type 0} (alloc : P → Option (Mbuf × P)) (l : RateLimiterCrc) (sane : IsSane l) where
  get_delay_packet-frame :
      (delay : ℕ) (pool : P) (m : Mbuf) (pool' : P)
      → alloc pool ≡ some (m, pool')
      → min_gap l ≤ delay
      → get_delay_packet alloc l delay pool
        ≡ done (frame l (delay_share l.invalid_packet_size delay) m, pool')
  unfolding get_delay_packet
  get_delay_packet-frame delay pool m pool' e h =
      let (lo, hi, fits) = delay_share_bounds l delay sane h in ground (arith, sane)

  abbrev counted_round : Sending P → Mbuf → P → Sending P
  counted_round s f pool' = record s {
    pool = pool';
    num_bad_pkts = u32 (s.num_bad_pkts + 1);
    num_bad_bytes = u32 (s.num_bad_bytes + (f.pkt_len + l.packet_overhead - 20));
  }

  abbrev after_round : Sending P → Mbuf → P → Sending P
  after_round s f pool' =
      flush_if (leb transmit_buffer_size (length (s.buffer ++ (f ∷ []))))
        (pushed f (counted_round s f pool'))

  IsOpen-counted_round :
      (s : Sending P) (f : Mbuf) (pool' : P) → IsOpen s → IsOpen (counted_round s f pool')
  IsOpen-counted_round s f pool' o = record {
    room = o.room;
    bursts = o.bursts;
    bad_pkts_lt = omega arith;
    bad_bytes_lt = omega arith;
  }

  delay_round-frame :
      (delay : ℕ) (s : Sending P) (m : Mbuf) (pool' : P)
      → alloc s.pool ≡ some (m, pool')
      → min_gap l ≤ delay
      → delay < 2 ^ 64
      → IsOpen s
      → let f = frame l (delay_share l.invalid_packet_size delay) m in
        delay_round alloc l delay s
        ≡ done (delay - (f.pkt_len + l.packet_overhead), after_round s f pool')
  unfolding delay_round
  delay_round-frame delay s m pool' e h w o =
      let f = frame l (delay_share l.invalid_packet_size delay) m in
      let (lo, hi, fits) = delay_share_bounds l delay sane h in
      rw (get_delay_packet-frame delay s.pool m pool' e h) (
        ground
          (arith, sane, push-pushed f (counted_round s f pool') (IsOpen-counted_round s f pool' o)))

  delay_round-null :
      (delay : ℕ) (s : Sending P) → alloc s.pool ≡ none → delay_round alloc l delay s ≡ null_write
  unfolding delay_round get_delay_packet
  delay_round-null delay s e = ground arith

  after_round-IsOpen :
      (s : Sending P) (f : Mbuf) (pool' : P) → IsOpen s → IsOpen (after_round s f pool')
  after_round-IsOpen s f pool' o =
      flush_if-IsOpen f (leb transmit_buffer_size (length (s.buffer ++ (f ∷ []))))
        (counted_round s f pool') (IsOpen-counted_round s f pool' o)
        (leb→lt transmit_buffer_size (length (s.buffer ++ (f ∷ []))))

  frame-IsFiller :
      (delay : ℕ) (m : Mbuf)
      → min_gap l ≤ delay
      → let f = frame l (delay_share l.invalid_packet_size delay) m in
        IsFiller l f × (f.pkt_len + l.packet_overhead ≤ delay)
  frame-IsFiller delay m h = let (lo, hi, fits) = delay_share_bounds l delay sane h in omega arith

  Filled-round :
      (delay : ℕ) (s : Sending P) (f : Mbuf) (pool' : P) (r : ℕ × Sending P)
      → IsFiller l f
      → f.pkt_len + l.packet_overhead ≤ delay
      → Filled l (delay - (f.pkt_len + l.packet_overhead)) (after_round s f pool') r
      → Filled l delay s r
  Filled-round delay s f pool' r is_filler fits ih =
      let b = leb transmit_buffer_size (length (s.buffer ++ (f ∷ []))) in
      let (n, k) = flush_if-counts b (pushed f (counted_round s f pool')) in
      let c : u32 (u32 (s.num_bad_pkts + 1) + length ih.fills) ≡ u32 r.1.num_bad_pkts =
        rw n at ih.counted in
      let d : u32 (
            u32 (s.num_bad_bytes + (f.pkt_len + l.packet_overhead - 20))
            + bad_bytes l.packet_overhead ih.fills)
          ≡ u32 r.1.num_bad_bytes =
        rw k at ih.counted_bytes in
      record {
        fills = f ∷ ih.fills;
        fillers = (is_filler, ih.fillers);
        emits =
            ih.emits
            ∙ ap (λ xs. xs ++ ih.fills) (emitted-flush_if f b (counted_round s f pool'))
            ∙ append_assoc (emitted s) (f ∷ []) ih.fills;
        still_open = ih.still_open;
        bytes = omega (arith, ih.bytes);
        counted = omega (arith, c);
        counted_bytes = omega (arith, d);
      }

  -- With fuel above the delay, the loop of step 1 ends with less than a minimal gap left over, the
  -- rest being filled exactly, unless the pool is empty.
  pub fill-Gap :
      (fuel delay : ℕ) (s : Sending P)
      → delay < fuel
      → delay < 2 ^ 64
      → IsOpen s
      → Ends (Exhausted alloc) (Gap l delay s) (fill alloc fuel l delay s)
  unfolding fill
  fill-Gap zero delay s h w o = elim h [ ]
  fill-Gap (suc fuel) delay s h w o =
      let small : u64 (min_gap l) ≡ min_gap l = omega (arith, sane) in
      rw small (elim (Bool-cases (leb (min_gap l) delay)) [
        | inl more ↦ rw more (elim (Option-cases (alloc s.pool)) [
          | inl e ↦ rw (delay_round-null delay s e) (s.pool, e)
          | inr ((m, pool'), e) ↦
              let gap = leb→le (min_gap l) delay more in
              let f = frame l (delay_share l.invalid_packet_size delay) m in
              let (i, fits) = frame-IsFiller delay m gap in
              rw (delay_round-frame delay s m pool' e gap w o) (
                Ends-imp (Exhausted alloc)
                  (Gap l (delay - (f.pkt_len + l.packet_overhead)) (after_round s f pool'))
                  (Gap l delay s) _
                  (fill-Gap fuel (delay - (f.pkt_len + l.packet_overhead)) (after_round s f pool')
                    (omega (arith, sane)) (omega arith) (after_round-IsOpen s f pool' o))
                  (λ r q. (Filled-round delay s f pool' r i fits q.0, q.1)))
        ])
        | inr stop ↦ rw stop (
          record {
            fills = [];
            fillers = tt;
            emits = sym (append-nil _);
            still_open = o;
            bytes = omega arith;
            counted = omega arith;
            counted_bytes = omega arith;
          },
          leb→lt (min_gap l) delay stop,
        )
      ])
