-- ===== src/Launch/Run.antt =====
-- `DelayEmulator::transmit_loop` of src/launch-timestamp.cpp over a whole run.
use mathlib.Core.List.{append-nil}
use moon_gen_dpdk_v.Prelude.{
  ℕ, ◌+◌, ◌*◌, ◌≡◌, ap, ◌∙◌, true, Option, List, [], ◌∷◌, ◌++◌, arith, length, u16, ◌^◌, ◌<◌, All,
  concat, concat-append,
}
use moon_gen_dpdk_v.Double.{Double}
use moon_gen_dpdk_v.Dpdk.{Mbuf, wire_bytes, wire_bytes-append}
use moon_gen_dpdk_v.Crc.{done, empty_delay, set_invalid_packet_size}
use moon_gen_dpdk_v.Crc.Frames.{Ends, Ends-bind_eq}
use moon_gen_dpdk_v.Crc.Fill.{Exhausted}
use moon_gen_dpdk_v.Crc.Load.{last_kept, IsShort}
use moon_gen_dpdk_v.Crc.Load.{kept}
use moon_gen_dpdk_v.Launch.{
  Transmitter, emulate_all, with_size, idle, transmit_round, transmit_rounds,
}
use moon_gen_dpdk_v.Launch.Sync.{IsSynced, with_size-IsSane, send_batch-IsSynced}

wire_bytes-equal :
    (o len : ℕ) (frames : List Mbuf)
    → All (λ p. p.pkt_len ≡ len) frames
    → wire_bytes o frames ≡ length frames * (len + o)
wire_bytes-equal o len [] h = omega arith
wire_bytes-equal o len (p ∷ ps) (h, hs) = omega (arith, wire_bytes-equal o len ps hs)

-- What the code relies on of libmoon's `alloc_mbufs`: so many buffers, of that length.
abbrev pub Allocates : {P : Type 0} → (P → ℕ → ℕ → List Mbuf × P) → Type 0
Allocates {P} alloc_mbufs =
    (pool : P) (n len : ℕ)
    → (length (alloc_mbufs pool n len).0 ≡ n)
      × All (λ p. p.pkt_len ≡ len) (alloc_mbufs pool n len).0

pub burst_bytes :
    {P : Type 0} (alloc_mbufs : P → ℕ → ℕ → List Mbuf × P)
    → Allocates alloc_mbufs
    → (o : ℕ) (pool : P) (n len : ℕ) → wire_bytes o (alloc_mbufs pool n len).0 ≡ n * (len + o)
burst_bytes alloc_mbufs allocates o pool n len =
    wire_bytes-equal o len (alloc_mbufs pool n len).0 (allocates pool n len).1
    ∙ ap (λ k. k * (len + o)) (allocates pool n len).0

pub wire_bytes-burst :
    (o : ℕ) (bursts : List (List Mbuf)) (frames : List Mbuf)
    → wire_bytes o (concat (bursts ++ (frames ∷ [])))
      ≡ wire_bytes o (concat bursts) + wire_bytes o frames
wire_bytes-burst o bursts frames =
    rw (concat-append bursts (frames ∷ []), append-nil frames)
      (wire_bytes-append o (concat bursts) frames)

module _ {W P : Type 0} ⦃d : Double W⦄ (alloc : P → Option (Mbuf × P))
    (alloc_mbufs : P → ℕ → ℕ → List Mbuf × P) (allocates : Allocates alloc_mbufs) where
  pub idle-IsSynced :
      (c : ℕ) (t : Transmitter W P)
      → IsSynced c t
      → Ends (Exhausted alloc) (IsSynced c) (idle alloc alloc_mbufs t)
  unfolding idle empty_delay
  idle-IsSynced c t h = record {
    agree = h.agree;
    offset_lt = omega arith;
    gap_ge = h.gap_ge;
    gap_le = h.gap_le;
    missing_lt = h.missing_lt;
    size_lt = h.size_lt;
    synced = omega (
      arith,
      h.synced,
      wire_bytes-burst t.ratelimiter.packet_overhead t.bursts
          (alloc_mbufs t.pool 64 (u16 t.ratelimiter.invalid_packet_size)).0,
      burst_bytes alloc_mbufs allocates t.ratelimiter.packet_overhead t.pool 64
          (u16 t.ratelimiter.invalid_packet_size),
      h.size_lt,
    );
  }

  with_size-IsSynced :
      (c size : ℕ) (t : Transmitter W P)
      → size < 2 ^ 16
      → IsSynced c t
      → IsSynced c (with_size size t)
  unfolding set_invalid_packet_size
  with_size-IsSynced c size t lt h = record {
    agree = h.agree;
    offset_lt = h.offset_lt;
    gap_ge = h.gap_ge;
    gap_le = h.gap_le;
    missing_lt = h.missing_lt;
    size_lt = lt;
    synced = h.synced;
  }

  -- A batch of the ring that the emulator turns into delays that do not wrap, and whose last packet
  -- it does not drop. An empty dequeue is always fine.
  abbrev pub IsFine : Transmitter W P → List Mbuf → Type 0
  IsFine t [] = Unit
  IsFine t (p ∷ pkts) =
      let load = (emulate_all t.emulator (p ∷ pkts)).1 in
      All (IsShort t.ratelimiter) (kept load) × (last_kept load ≡ true)

  -- Every round keeps the byte clock in step with the wire.
  transmit_round-IsSynced :
      (c : ℕ) (t : Transmitter W P) (pkts : List Mbuf)
      → IsSynced c t
      → IsFine t pkts
      → Ends (Exhausted alloc) (IsSynced c) (transmit_round alloc alloc_mbufs t pkts)
  unfolding transmit_round
  transmit_round-IsSynced c t [] h fine =
      idle-IsSynced c (with_size 1500 t) (with_size-IsSynced c 1500 t (omega arith) h)
  transmit_round-IsSynced c t (p ∷ pkts) h (short, last) =
      send_batch-IsSynced alloc alloc_mbufs c (with_size 9000 t) (p ∷ pkts)
        (with_size-IsSynced c 9000 t (omega arith) h)
        (unfold set_invalid_packet_size in
          record { sane = (with_size-IsSane c t h).1; missing_lt = h.missing_lt; short = short })
        last

  -- Every batch of a run is fine when its turn comes.
  abbrev pub AllFine : Transmitter W P → List (List Mbuf) → Type 0
  AllFine t [] = Unit
  AllFine t (pkts ∷ later) =
      IsFine t pkts
      × ((t' : Transmitter W P)
          → transmit_round alloc alloc_mbufs t pkts ≡ done t'
          → AllFine t' later)

  -- With a pool that allocates bursts as asked, and over any run of the loop of `transmit_loop`
  -- whose batches are fine when their turns come, idle rounds included, `current_byte_offset`
  -- stays in step with the bytes on the wire, unless the pool of the fillers runs empty.
  pub transmit_rounds-IsSynced :
      (c : ℕ) (t : Transmitter W P) (dequeues : List (List Mbuf))
      → IsSynced c t
      → AllFine t dequeues
      → Ends (Exhausted alloc) (IsSynced c) (transmit_rounds alloc alloc_mbufs t dequeues)
  unfolding transmit_rounds
  transmit_rounds-IsSynced c t [] h fine = h
  transmit_rounds-IsSynced c t (pkts ∷ later) h (fine, rest) =
      Ends-bind_eq (Exhausted alloc) (IsSynced c) (IsSynced c)
        (transmit_round alloc alloc_mbufs t pkts) (λ t'. transmit_rounds alloc alloc_mbufs t' later)
        (transmit_round-IsSynced c t pkts h fine)
        (λ t' e s. transmit_rounds-IsSynced c t' later s (rest t' e))
