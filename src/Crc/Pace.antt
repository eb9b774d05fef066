-- ===== src/Crc/Pace.antt =====
-- What `RateLimiterCRC::send_packets` of src/crc-ratecontrol.cpp promises: the frames that it hands
-- to DPDK, the exactness of the gaps, and what happens to a burst that ends in a deleted packet.
use mathlib.Core.Path.{subst}
use mathlib.Core.List.{append-nil, append_assoc}
use moon_gen_dpdk_v.Prelude.{
  ℕ, ◌+◌, ◌<◌, ◌≡◌, sym, ap, ◌∙◌, Option, List, [], ◌∷◌, ◌++◌, arith, true, length, concat, All,
}
use moon_gen_dpdk_v.Dpdk.{Mbuf, wire_bytes, wire_bytes-append}
use moon_gen_dpdk_v.Crc.{RateLimiterCrc, Sending, send_load, transmit_buffer_size}
use moon_gen_dpdk_v.Crc.Frames.{min_gap, IsSane, Ends, Ends-imp, IsBurst}
use moon_gen_dpdk_v.Crc.Fill.{Exhausted}
use moon_gen_dpdk_v.Crc.Load.{last_kept, IsPaced, IsShort, missing}
use moon_gen_dpdk_v.Crc.Send.{Sent, send_loop-Sent}
use moon_gen_dpdk_v.Crc.Load.{kept}

abbrev pub starting : {P : Type 0} → P → Sending P
starting pool = record { pool = pool; buffer = []; sent = []; num_bad_pkts = 0; num_bad_bytes = 0 }

-- The bytes on the wire that a load asks for: its frames and the delays before them.
abbrev pub asked_bytes : RateLimiterCrc → List Mbuf → ℕ
asked_bytes l [] = 0
asked_bytes l (p ∷ ps) = p.timestamp + (p.pkt_len + l.packet_overhead) + asked_bytes l ps

pub IsPaced-bytes :
    (l : RateLimiterCrc) (m : ℕ) (load out : List Mbuf) (m' : ℕ)
    → IsPaced l m load out m'
    → wire_bytes l.packet_overhead out + m' ≡ m + asked_bytes l load
IsPaced-bytes l m [] out m' (e, e') = rw (e, e') (omega arith)
IsPaced-bytes l m (p ∷ load) out m' (fills, rest, m1, e, _, bytes, _, later) = rw e (
    omega (
      arith,
      wire_bytes-append l.packet_overhead fills (p ∷ rest),
      IsPaced-bytes l m1 load rest m' later,
    ))

-- Wherever the load is cut before a packet, the frames before that packet take the bytes that were
-- asked for up to it, its own delay included, but for less than a minimal gap: errors do not add up.
pub IsPaced-drift :
    (l : RateLimiterCrc) (m : ℕ) (before : List Mbuf) (p : Mbuf) (after out : List Mbuf) (m' : ℕ)
    → IsPaced l m (before ++ p ∷ after) out m'
    → (front : List Mbuf) × (back : List Mbuf) × (m1 : ℕ) × (out ≡ front ++ p ∷ back)
      × (wire_bytes l.packet_overhead front + m1 ≡ m + asked_bytes l before + p.timestamp)
      × (m1 < min_gap l)
IsPaced-drift l m [] p after out m' (fills, rest, m1, e, _, bytes, short, later) =
    (fills, rest, m1, e, omega arith, short)
IsPaced-drift l m (q ∷ before) p after out m' (fills, rest, m1, e, _, bytes, short, later) =
    let (front, back, m2, e2, bytes2, short2) = IsPaced-drift l m1 before p after rest m' later in
    (
      fills ++ q ∷ front,
      back,
      m2,
      e ∙ ap (λ xs. fills ++ q ∷ xs) e2 ∙ sym (append_assoc fills (q ∷ front) (p ∷ back)),
      omega (arith, wire_bytes-append l.packet_overhead fills (q ∷ front)),
      short2,
    )

-- The hypotheses on a call: sane sizes, less than a minimal gap missing, delays that do not wrap.
pub record IsReady (l : RateLimiterCrc) (load : List (Option Mbuf)) : Type 0 where
  pub sane : IsSane l
  pub missing_lt : l.previous_missing_delay < min_gap l
  pub short : All (IsShort l) (kept load)

-- The frames of a call are paced, in bursts of 1 to 64, and the limiter differs from before only
-- in the missing bytes. What is left in the buffer at the end is never handed to DPDK.
pub record Paces {P : Type 0} (l : RateLimiterCrc) (load : List (Option Mbuf))
    (r : RateLimiterCrc × Sending P) : Type 0 where
  pub limiter : r.0 ≡ missing l r.0.previous_missing_delay
  pub paced :
      IsPaced l l.previous_missing_delay
        (kept load)
        (concat r.1.sent ++ r.1.buffer)
        r.0.previous_missing_delay
  pub missing_lt : r.0.previous_missing_delay < min_gap l
  pub bursts : All IsBurst r.1.sent
  pub room : length r.1.buffer < transmit_buffer_size
  pub flushed : last_kept load ≡ true → r.1.buffer ≡ []

pub Paces-bytes :
    {P : Type 0} (l : RateLimiterCrc) (load : List (Option Mbuf)) (r : RateLimiterCrc × Sending P)
    → last_kept load ≡ true
    → Paces l load r
    → wire_bytes l.packet_overhead (concat r.1.sent) + r.0.previous_missing_delay
      ≡ l.previous_missing_delay + asked_bytes l (kept load)
Paces-bytes l load r last h =
    IsPaced-bytes l l.previous_missing_delay (kept load) (concat r.1.sent)
      r.0.previous_missing_delay
      (subst
        (λ (xs : List Mbuf).
          IsPaced l l.previous_missing_delay (kept load) xs r.0.previous_missing_delay)
        (ap (λ xs. concat r.1.sent ++ xs) (h.flushed last) ∙ append-nil (concat r.1.sent)) h.paced)

module _ {P : Type 0} (alloc : P → Option (Mbuf × P)) (l : RateLimiterCrc)
    (load : List (Option Mbuf)) (pool : P) (ready : IsReady l load) where
  pub send_load-Sent :
      Ends
        (Exhausted alloc)
        (Sent alloc l ready.sane l.previous_missing_delay load (starting pool))
        (send_load alloc l load pool)
  unfolding send_load
  send_load-Sent =
      send_loop-Sent alloc l ready.sane l.previous_missing_delay load (starting pool)
        ready.missing_lt ready.short
        (record {
          room = omega arith;
          bursts = tt;
          bad_pkts_lt = omega arith;
          bad_bytes_lt = omega arith;
        })

  Paces-of-Sent :
      (r : RateLimiterCrc × Sending P)
      → Sent alloc l ready.sane l.previous_missing_delay load (starting pool) r
      → Paces l load r
  Paces-of-Sent r h =
      let e = ap (λ (x : RateLimiterCrc). x.previous_missing_delay) h.limiter in
      record {
        limiter = h.limiter ∙ ap (missing l) (sym e);
        paced = rw (e, h.emits) h.paced;
        missing_lt = rw e h.short;
        bursts = h.still_open.bursts;
        room = h.still_open.room;
        flushed = h.flushed;
      }

  -- For sane sizes and delays, `send_packets` ends normally unless the pool runs empty; then its
  -- frames are the load packets in order, each behind fillers of valid sizes that take up its delay
  -- but for less than a minimal gap, which the next packet makes up for; they are handed over in
  -- bursts of 1 to 64 frames, all of them if the last packet was not deleted.
  pub send_load-Paces : Ends (Exhausted alloc) (Paces l load) (send_load alloc l load pool)
  send_load-Paces =
      Ends-imp (Exhausted alloc)
        (Sent alloc l ready.sane l.previous_missing_delay load (starting pool)) (Paces l load)
        (send_load alloc l load pool) send_load-Sent Paces-of-Sent

  -- For sane sizes and delays and a last packet that was not deleted, the bytes on the wire are
  -- conserved, unless the pool runs empty: what is sent, with the bytes still missing, is what the
  -- load packets and their delays ask for, with the bytes that were missing before.
  pub send_load-bytes :
      last_kept load ≡ true
      → Ends
          (Exhausted alloc)
          (λ r.
            wire_bytes l.packet_overhead (concat r.1.sent) + r.0.previous_missing_delay
            ≡ l.previous_missing_delay + asked_bytes l (kept load))
          (send_load alloc l load pool)
  send_load-bytes last =
      Ends-imp (Exhausted alloc) (Paces l load)
        (λ r.
          wire_bytes l.packet_overhead (concat r.1.sent) + r.0.previous_missing_delay
          ≡ l.previous_missing_delay + asked_bytes l (kept load))
        (send_load alloc l load pool) send_load-Paces (λ r h. Paces-bytes l load r last h)

  -- For sane sizes and delays, and unless the pool runs empty, each load packet stands among the
  -- frames of a call where the delays put it, but for less than a minimal gap: it has that many
  -- bytes fewer before it, and the errors do not add up.
  pub send_load-drift :
      (before : List Mbuf) (p : Mbuf) (after : List Mbuf)
      → kept load ≡ before ++ p ∷ after
      → Ends
          (Exhausted alloc)
          (λ r.
            (front : List Mbuf) × (back : List Mbuf) × (short : ℕ) × (concat r.1.sent ++ r.1.buffer
              ≡ front ++ p ∷ back)
            × (wire_bytes l.packet_overhead front + short
                ≡ l.previous_missing_delay + asked_bytes l before + p.timestamp)
            × (short < min_gap l))
          (send_load alloc l load pool)
  send_load-drift before p after cut =
      Ends-imp (Exhausted alloc) (Paces l load) _ (send_load alloc l load pool) send_load-Paces
        (λ r h.
          IsPaced-drift l l.previous_missing_delay before p after (concat r.1.sent ++ r.1.buffer)
            r.0.previous_missing_delay (rw cut at h.paced))
