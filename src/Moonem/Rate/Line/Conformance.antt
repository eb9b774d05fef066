-- ===== src/Moonem/Rate/Line/Conformance.antt =====
-- The token bucket of src/moonem_sw.cpp with its transmitter: how many bytes leave the line.
use native.Mathlib.Nat.{add-mul, suc-mul}
use moon_gen_dpdk_v.Prelude.{
  ℕ, ◌+◌, ◌-◌, ◌*◌, ◌^◌, ◌≤◌, ◌<◌, ◌≡◌, length, refl, ap, none, List, [], ◌∷◌, ◌++◌, arith, All,
}
use moon_gen_dpdk_v.Double.{Double}
use moon_gen_dpdk_v.Dpdk.{Mbuf, wire_bytes, wire_bytes-append}
use moon_gen_dpdk_v.Moonem.Loss.{MoonemConfig}
use moon_gen_dpdk_v.Moonem.Ring.{Ring}
use moon_gen_dpdk_v.Moonem.Delay.{transmit_round}
use moon_gen_dpdk_v.Moonem.Delay.OnTime.{released, released-append}
use moon_gen_dpdk_v.Moonem.Delay.Line.{IsSafe}
use moon_gen_dpdk_v.Moonem.Delay.Fifo.Refines.{transmit_round_sent}
use moon_gen_dpdk_v.Moonem.Rate.{RateReceiver, token_round}
use moon_gen_dpdk_v.Moonem.Rate.Tokens.{IsFrame}
use moon_gen_dpdk_v.Moonem.Rate.Refill.{RefillLaws, through, token_round-worth}
use moon_gen_dpdk_v.Moonem.Rate.Line.{
  TokenLine, as_line, receive, transmit, Reach, here, next, arrived_bursts, Reach-IsSafe,
}

-- Bursts with readings of the cycle counter, newest first: the newest reading, and whether they
-- ascend in time from `since` on.
abbrev pub latest : ℕ → List (List Mbuf × ℕ) → ℕ
latest since [] = since
latest since ((pkts, now) ∷ older) = now

abbrev pub Ascend : ℕ → List (List Mbuf × ℕ) → Type 0
Ascend since [] = Unit
Ascend since ((pkts, now) ∷ older) = (latest since older ≤ now) × Ascend since older

module _ {W R : Type 0} ⦃d : Double W⦄ {rate : W} (laws : RefillLaws W rate) (ring : Ring R)
    (config : MoonemConfig) (delay : ℕ) where
  open ring use {contents}
  open laws use {units, per_byte, per_cycle, slack}

  -- The bytes on the wire that left the line, and those of all that its bucket let through.
  abbrev pub sent_bytes : TokenLine W R → ℕ
  sent_bytes s = wire_bytes 24 (released s.sent)

  abbrev pub passed_bytes : TokenLine W R → ℕ
  passed_bytes s = through ring s.bucket.receiver + sent_bytes s

  transmit-passed_bytes :
      (s : TokenLine W R) (clock : List ℕ)
      → IsSafe ring config delay (as_line s)
      → (transmit_round ring s.bucket.receiver.ring clock).1.0 ≡ none
      → let (new, _, r') = transmit_round ring s.bucket.receiver.ring clock in
        wire_bytes 24 (contents r') + wire_bytes 24 (released (s.sent ++ new))
        ≡ wire_bytes 24 (contents s.bucket.receiver.ring) + sent_bytes s
  transmit-passed_bytes s clock safe e =
      let r = s.bucket.receiver.ring in
      let (new, _, r') = transmit_round ring r clock in
      let (_, in_ring) = transmit_round_sent ring config delay r clock safe.tagged e in
      omega (
        arith,
        ap (wire_bytes 24) in_ring,
        wire_bytes-append 24 (released new) (contents r'),
        ap (wire_bytes 24) (released-append s.sent new),
        wire_bytes-append 24 (released s.sent) (released new),
      )

  -- The line `t`, which was `s` before the bursts that came in since the reading `since`.
  record IsWithin (previous since : ℕ) (bursts : List (List Mbuf × ℕ)) (s t : TokenLine W R)
      : Type 0 where
    at : ℕ
    stamped : t.bucket.previous_timestamp ≡ d.of_u64 at
    not_before : previous ≤ at
    not_after : at ≤ latest since bursts
    fits : units t.bucket.level ≤ config.capacity * per_byte
    bounded :
        passed_bytes t * per_byte + units t.bucket.level
        ≤ passed_bytes s * per_byte
          + units s.bucket.level
          + (at - previous) * per_cycle
          + length bursts * slack

  token_round_idle :
      (now : ℕ) (r : RateReceiver W R) → token_round ring config delay rate [] now r ≡ r
  unfolding token_round
  token_round_idle now r = refl

  token_round_timestamp :
      (p : Mbuf) (pkts : List Mbuf) (now : ℕ) (r : RateReceiver W R)
      → (token_round ring config delay rate (p ∷ pkts) now r).previous_timestamp ≡ d.of_u64 now
  unfolding token_round
  token_round_timestamp p pkts now r = refl

  receive-IsWithin :
      (previous since : ℕ) (bursts : List (List Mbuf × ℕ)) (s t : TokenLine W R) (pkts : List Mbuf)
      (now : ℕ)
      → latest since bursts ≤ now
      → now < 2 ^ 53
      → config.capacity ≤ 2 ^ 53
      → All IsFrame pkts
      → IsWithin previous since bursts s t
      → IsWithin previous since
          ((pkts, now) ∷ bursts)
          s
          (record t { bucket = token_round ring config delay rate pkts now t.bucket })
  receive-IsWithin previous since bursts s t [] now le early small frames h =
      rw (token_round_idle now t.bucket) (record {
        at = h.at;
        stamped = h.stamped;
        not_before = h.not_before;
        not_after = omega (arith, h.not_after);
        fits = h.fits;
        bounded = omega (arith, h.bounded, suc-mul (length bursts) slack);
      })
  receive-IsWithin previous since bursts s t (p ∷ pkts) now le early small frames h =
      let (worth, fits) =
        token_round-worth laws config ring delay h.at now (p ∷ pkts) t.bucket h.stamped
          (omega (arith, h.not_after)) early small frames h.fits in
      let r' = token_round ring config delay rate (p ∷ pkts) now t.bucket in
      let sent = sent_bytes t in
      let elapsed : now - previous ≡ (h.at - previous) + (now - h.at) =
        omega (arith, h.not_before, h.not_after) in
      record {
        at = now;
        stamped = token_round_timestamp p pkts now t.bucket;
        not_before = omega (arith, h.not_before, h.not_after);
        not_after = omega arith;
        fits = fits;
        bounded = omega (
          arith,
          worth,
          h.bounded,
          add-mul (through ring t.bucket.receiver) sent per_byte,
          add-mul (through ring r'.receiver) sent per_byte,
          ap (λ n. n * per_cycle) elapsed,
          add-mul (h.at - previous) (now - h.at) per_cycle,
          suc-mul (length bursts) slack,
        );
      }

  transmit-IsWithin :
      (previous since : ℕ) (bursts : List (List Mbuf × ℕ)) (s t : TokenLine W R) (clock : List ℕ)
      → IsSafe ring config delay (as_line t)
      → (transmit_round ring t.bucket.receiver.ring clock).1.0 ≡ none
      → IsWithin previous since bursts s t
      → IsWithin previous since bursts s (record {
        bucket = record t.bucket {
          receiver = record t.bucket.receiver {
            ring = (transmit_round ring t.bucket.receiver.ring clock).2;
          };
        };
        sent = t.sent ++ (transmit_round ring t.bucket.receiver.ring clock).0;
      })
  transmit-IsWithin previous since bursts s t clock safe e h = record {
    at = h.at;
    stamped = h.stamped;
    not_before = h.not_before;
    not_after = h.not_after;
    fits = h.fits;
    bounded =
        let leaked = wire_bytes 24 t.bucket.receiver.leaked in
        let (new, _, r') = transmit_round ring t.bucket.receiver.ring clock in
        let same : wire_bytes 24 (contents r') + leaked + wire_bytes 24 (released (t.sent ++ new))
            ≡ passed_bytes t =
          omega (arith, transmit-passed_bytes t clock safe e) in
        omega (arith, h.bounded, ap (λ n. n * per_byte) same);
  }

  Reach-IsWithin :
      {s t : TokenLine W R} (r : Reach ring config delay rate s t) (previous since : ℕ)
      → IsSafe ring config delay (as_line s)
      → s.bucket.previous_timestamp ≡ d.of_u64 previous
      → previous ≤ since
      → units s.bucket.level ≤ config.capacity * per_byte
      → config.capacity ≤ 2 ^ 53
      → Ascend since (arrived_bursts ring config delay rate r)
      → latest since (arrived_bursts ring config delay rate r) < 2 ^ 53
      → All (λ burst. All IsFrame burst.0) (arrived_bursts ring config delay rate r)
      → IsWithin previous since (arrived_bursts ring config delay rate r) s t
  Reach-IsWithin here previous since safe e le fits small ascend early frames = record {
    at = previous;
    stamped = e;
    not_before = omega arith;
    not_after = le;
    fits = fits;
    bounded = omega arith;
  }
  Reach-IsWithin (next {t} r (receive pkts now few)) previous since safe e le fits small
        (later, ascend) early (frame, frames) =
      receive-IsWithin previous since (arrived_bursts ring config delay rate r) _ t pkts now later
        early small frame
        (Reach-IsWithin r previous since safe e le fits small ascend (omega arith) frames)
  Reach-IsWithin (next {t} r (transmit clock over)) previous since safe e le fits small ascend early
        frames =
      transmit-IsWithin previous since (arrived_bursts ring config delay rate r) _ t clock
        (Reach-IsSafe ring config delay rate r safe) over
        (Reach-IsWithin r previous since safe e le fits small ascend early frames)

  -- For doubles that obey `RefillLaws`, with a capacity and readings up to 2 ^ 53: from a safe line
  -- whose bucket is within its capacity, and however the rounds of the two loops interleave, with
  -- readings of the cycle counter that ascend: the bytes on the wire that were sent, wait in the
  -- ring, or were refused by it, with the tokens that are left, grow by no more than what the
  -- configured rate brings in the time from the bucket's last time stamp to the latest reading, and
  -- the slack of a rounding, at most a byte, for each burst; and the tokens stay within the capacity.
  pub Reach-Conforms :
      {s t : TokenLine W R} (r : Reach ring config delay rate s t) (previous since : ℕ)
      → IsSafe ring config delay (as_line s)
      → s.bucket.previous_timestamp ≡ d.of_u64 previous
      → previous ≤ since
      → units s.bucket.level ≤ config.capacity * per_byte
      → config.capacity ≤ 2 ^ 53
      → Ascend since (arrived_bursts ring config delay rate r)
      → latest since (arrived_bursts ring config delay rate r) < 2 ^ 53
      → All (λ burst. All IsFrame burst.0) (arrived_bursts ring config delay rate r)
      → (passed_bytes t * per_byte + units t.bucket.level
          ≤ passed_bytes s * per_byte
            + units s.bucket.level
            + (latest since (arrived_bursts ring config delay rate r) - previous) * per_cycle
            + length (arrived_bursts ring config delay rate r) * slack)
        × (units t.bucket.level ≤ config.capacity * per_byte)
  Reach-Conforms r previous since safe e le fits small ascend early frames =
      let h = Reach-IsWithin r previous since safe e le fits small ascend early frames in
      let until = latest since (arrived_bursts ring config delay rate r) in
      let elapsed : until - previous ≡ (h.at - previous) + (until - h.at) =
        omega (arith, h.not_before, h.not_after) in
      (
        omega (
          arith,
          h.bounded,
          ap (λ n. n * per_cycle) elapsed,
          add-mul (h.at - previous) (until - h.at) per_cycle,
        ),
        h.fits,
      )
