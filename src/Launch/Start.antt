-- ===== src/Launch/Start.antt =====
-- The start of `DelayEmulator::transmit_loop` in src/launch-timestamp.cpp, and the whole of it.
use mathlib.Core.Path.{subst}
use native.Mathlib.Nat.{suc-mul}
use moon_gen_dpdk_v.Prelude.{
  ℕ, zero, suc, ◌+◌, ◌*◌, ◌≤◌, ◌<◌, ◌≡◌, refl, ◌∙◌, true, Option, List, [], ◌∷◌, arith, length, u16,
  u64, ◌^◌, concat,
}
use moon_gen_dpdk_v.Double.{Double}
use moon_gen_dpdk_v.Dpdk.{Mbuf, wire_bytes}
use moon_gen_dpdk_v.Crc.{
  Outcome, done, ◌>>=◌, empty_delay, send_timestamp_packet, mark_first, set_invalid_packet_size,
}
use moon_gen_dpdk_v.Crc.Frames.{min_gap, Ends, Ends-bind, Ends-bind_eq, Ends-imp}
use moon_gen_dpdk_v.Crc.Fill.{Exhausted}
use moon_gen_dpdk_v.Launch.{
  Transmitter, with_size, with_offset, after_burst, warm_up, idle, idle_for, transmit_rounds, start,
  transmit_loop,
}
use moon_gen_dpdk_v.Launch.Clock.{Agree}
use moon_gen_dpdk_v.Launch.Sync.{IsSynced}
use moon_gen_dpdk_v.Launch.Run.{
  Allocates, wire_bytes-burst, burst_bytes, idle-IsSynced, AllFine, transmit_rounds-IsSynced,
}

-- What `transmit_loop` needs of the objects that it is called with.
pub record IsPrepared {W P : Type 0} (t : Transmitter W P) : Type 0 where
  pub agree : Agree t.emulator t.ratelimiter
  pub gap_ge : 20 ≤ min_gap t.ratelimiter
  pub gap_le : min_gap t.ratelimiter ≤ 750
  pub missing_lt : t.ratelimiter.previous_missing_delay < min_gap t.ratelimiter

-- The bytes on the wire before the burst with the timestamped packet, with those missing: what was
-- sent before, and the hundred bursts of the start.
abbrev pub origin : {W P : Type 0} → Transmitter W P → ℕ
origin t =
    let o = t.ratelimiter.packet_overhead in
    wire_bytes o (concat t.bursts) + 100 * (64 * (1500 + o)) + t.ratelimiter.previous_missing_delay

-- What `n` bursts of the start make of a transmitter.
record IsWarm {W P : Type 0} (n : ℕ) (t t' : Transmitter W P) : Type 0 where
  prepared : IsPrepared t'
  limiter : t'.ratelimiter ≡ t.ratelimiter
  bytes :
      let o = t.ratelimiter.packet_overhead in
      wire_bytes o (concat t'.bursts)
      ≡ wire_bytes o (concat t.bursts) + n * (64 * (t.ratelimiter.invalid_packet_size + o))

mark_first-bytes :
    (o : ℕ) (frames : List Mbuf) (n : ℕ)
    → length frames ≡ suc n
    → (marked : List Mbuf) × (mark_first frames ≡ done marked)
      × (wire_bytes o marked ≡ wire_bytes o frames)
unfolding mark_first
mark_first-bytes o [] n h = cc
mark_first-bytes o (p ∷ ps) n h = (record p { tx_timestamp = true } ∷ ps, refl, refl)

module _ {W P : Type 0} ⦃d : Double W⦄ (alloc : P → Option (Mbuf × P))
    (alloc_mbufs : P → ℕ → ℕ → List Mbuf × P) (allocates : Allocates alloc_mbufs) where
  warm_up-IsWarm :
      (n : ℕ) (t : Transmitter W P)
      → IsPrepared t
      → t.ratelimiter.invalid_packet_size < 2 ^ 16
      → Ends (Exhausted alloc) (IsWarm n t) (warm_up alloc alloc_mbufs n t)
  unfolding warm_up empty_delay
  warm_up-IsWarm zero t h lt = record { prepared = h; limiter = refl; bytes = omega arith }
  warm_up-IsWarm (suc n) t h lt =
      let size = t.ratelimiter.invalid_packet_size in
      let o = t.ratelimiter.packet_overhead in
      let (frames, pool) = alloc_mbufs t.pool 64 (u16 size) in
      let t1 = after_burst t pool frames in
      Ends-imp (Exhausted alloc) (IsWarm n t1) (IsWarm (suc n) t) (warm_up alloc alloc_mbufs n t1)
        (warm_up-IsWarm n t1
          (record {
            agree = h.agree;
            gap_ge = h.gap_ge;
            gap_le = h.gap_le;
            missing_lt = h.missing_lt;
          })
          lt)
        (λ t' warm. record {
          prepared = warm.prepared;
          limiter = warm.limiter;
          bytes = omega (
            arith,
            warm.bytes,
            wire_bytes-burst o t.bursts frames,
            burst_bytes alloc_mbufs allocates o t.pool 64 (u16 size),
            suc-mul n (64 * (size + o)),
          );
        })

  idle_for-IsSynced :
      (n c : ℕ) (t : Transmitter W P)
      → IsSynced c t
      → Ends (Exhausted alloc) (IsSynced c) (idle_for alloc alloc_mbufs n t)
  unfolding idle_for
  idle_for-IsSynced zero c t h = h
  idle_for-IsSynced (suc n) c t h =
      Ends-bind (Exhausted alloc) (IsSynced c) (IsSynced c) (idle alloc alloc_mbufs t)
        (λ t'. idle_for alloc alloc_mbufs n t') (idle-IsSynced alloc alloc_mbufs allocates c t h)
        (idle_for-IsSynced n c)

  abbrev with_first : ℕ → Transmitter W P → Transmitter W P
  with_first first t = record t { emulator = record t.emulator { first_timestamp = first } }

  with_first-IsSynced :
      (c first : ℕ) (t : Transmitter W P) → IsSynced c t → IsSynced c (with_first first t)
  with_first-IsSynced c first t h = record {
    agree = h.agree;
    offset_lt = h.offset_lt;
    gap_ge = h.gap_ge;
    gap_le = h.gap_le;
    missing_lt = h.missing_lt;
    size_lt = h.size_lt;
    synced = h.synced;
  }

  abbrev stamp : ℕ → Transmitter W P → Outcome (Transmitter W P)
  stamp first t =
      send_timestamp_packet alloc_mbufs t.ratelimiter 64 t.pool >>= λ (pool, frames, bytes).
      idle_for alloc alloc_mbufs 100 (with_offset bytes (after_burst t pool frames)) >>= λ t2.
      done (with_first first t2)

  stamped-IsSynced :
      (t : Transmitter W P) (marked : List Mbuf)
      → IsPrepared t
      → t.ratelimiter.invalid_packet_size < 2 ^ 16
      → let size = t.ratelimiter.invalid_packet_size in
        let o = t.ratelimiter.packet_overhead in
        wire_bytes o marked ≡ 64 * (u16 size + o)
        → IsSynced (wire_bytes o (concat t.bursts) + t.ratelimiter.previous_missing_delay) (
            with_offset
              (u64 (64 * u64 (size + o)))
              (after_burst t (alloc_mbufs t.pool 64 (u16 size)).1 marked))
  stamped-IsSynced t marked h lt bytes = record {
    agree = h.agree;
    offset_lt = omega arith;
    gap_ge = h.gap_ge;
    gap_le = h.gap_le;
    missing_lt = h.missing_lt;
    size_lt = lt;
    synced = omega (arith, wire_bytes-burst t.ratelimiter.packet_overhead t.bursts marked, bytes);
  }

  stamp-IsSynced :
      (first : ℕ) (t : Transmitter W P)
      → IsPrepared t
      → t.ratelimiter.invalid_packet_size < 2 ^ 16
      → Ends
          (Exhausted alloc)
          (IsSynced (
            wire_bytes t.ratelimiter.packet_overhead (concat t.bursts)
            + t.ratelimiter.previous_missing_delay))
          (stamp first t)
  unfolding send_timestamp_packet
  stamp-IsSynced first t h lt =
      let size = t.ratelimiter.invalid_packet_size in
      let o = t.ratelimiter.packet_overhead in
      let (marked, e, bytes) =
        mark_first-bytes o (alloc_mbufs t.pool 64 (u16 size)).0 63
          (allocates t.pool 64 (u16 size)).0 in
      let c = wire_bytes o (concat t.bursts) + t.ratelimiter.previous_missing_delay in
      let t1 =
        with_offset (u64 (64 * u64 (size + o)))
          (after_burst t (alloc_mbufs t.pool 64 (u16 size)).1 marked) in
      let synced =
        stamped-IsSynced t marked h lt
          (bytes ∙ burst_bytes alloc_mbufs allocates o t.pool 64 (u16 size)) in
      rw e (
        Ends-bind (Exhausted alloc) (IsSynced c) (IsSynced c) (idle_for alloc alloc_mbufs 100 t1)
          (λ t2. done (with_first first t2)) (idle_for-IsSynced 100 c t1 synced)
          (λ t2 s. with_first-IsSynced c first t2 s))

  start-IsSynced :
      (t : Transmitter W P) (tv_sec tv_nsec : ℕ)
      → IsPrepared t
      → Ends (Exhausted alloc) (IsSynced (origin t)) (start alloc alloc_mbufs t tv_sec tv_nsec)
  unfolding start set_invalid_packet_size
  start-IsSynced t tv_sec tv_nsec h =
      let t0 = with_size 1500 t in
      let first = u64 (u64 (tv_sec * 1_000_000_000) + tv_nsec) in
      Ends-bind (Exhausted alloc) (IsWarm 100 t0) (IsSynced (origin t))
        (warm_up alloc alloc_mbufs 100 t0) (stamp first)
        (warm_up-IsWarm 100 t0
          (record {
            agree = h.agree;
            gap_ge = h.gap_ge;
            gap_le = h.gap_le;
            missing_lt = h.missing_lt;
          })
          (omega arith))
        (λ t' warm.
          let same : wire_bytes t'.ratelimiter.packet_overhead (concat t'.bursts)
                + t'.ratelimiter.previous_missing_delay
              ≡ origin t =
            rw warm.limiter (omega (arith, warm.bytes)) in
          subst (λ c. Ends (Exhausted alloc) (IsSynced c) (stamp first t')) same
            (stamp-IsSynced first t' warm.prepared (rw warm.limiter (omega arith))))

  -- With a pool that allocates bursts as asked, on a prepared emulator, and if the batches are
  -- fine when their turns come: after the start of `transmit_loop` and any number of its rounds,
  -- idle ones included, `current_byte_offset` is, in 64 bits, the bytes on the wire and those still
  -- missing, counted from the burst with the timestamped packet on, unless the pool of the fillers
  -- runs empty. What was on the wire before that burst is known from the emulator that the loop
  -- is called with.
  pub transmit_loop-IsSynced :
      (t : Transmitter W P) (tv_sec tv_nsec : ℕ) (dequeues : List (List Mbuf))
      → IsPrepared t
      → ((t' : Transmitter W P)
          → start alloc alloc_mbufs t tv_sec tv_nsec ≡ done t'
          → AllFine alloc alloc_mbufs allocates t' dequeues)
      → Ends
          (Exhausted alloc)
          (IsSynced (origin t))
          (transmit_loop alloc alloc_mbufs t tv_sec tv_nsec dequeues)
  unfolding transmit_loop
  transmit_loop-IsSynced t tv_sec tv_nsec dequeues h fine =
      Ends-bind_eq (Exhausted alloc) (IsSynced (origin t)) (IsSynced (origin t))
        (start alloc alloc_mbufs t tv_sec tv_nsec)
        (λ t'. transmit_rounds alloc alloc_mbufs t' dequeues) (start-IsSynced t tv_sec tv_nsec h)
        (λ t' e s.
          transmit_rounds-IsSynced alloc alloc_mbufs allocates (origin t) t' dequeues s (fine t' e))
