-- ===== src/Crc/Frames.antt =====
-- What step 1 of `send_packets` in src/crc-ratecontrol.cpp emits, and how it may end.
use mathlib.Core.List.{append-nil, append_assoc}
use moon_gen_dpdk_v.Prelude.{
  ℕ, ◌+◌, ◌-◌, ◌*◌, ◌^◌, ◌≤◌, ◌<◌, ◌≡◌, refl, sym, ◌∙◌, List, [], ◌∷◌, ◌++◌, arith, Bool, true,
  false, lt→ltb, length, length-append, concat, concat-append, All, All-append,
}
use moon_gen_dpdk_v.Dpdk.{Mbuf}
use moon_gen_dpdk_v.Crc.{
  Outcome, done, null_write, overflow, out_of_fuel, ◌>>=◌, RateLimiterCrc, transmit_buffer_size,
  delay_share, Sending, push, flush, flush_if,
}

-- The shortest gap that one frame can fill.
abbrev pub min_gap : RateLimiterCrc → ℕ
min_gap l = l.min_packet_size + l.packet_overhead

-- The sizes that the limiter is used with: an invalid packet takes at least two minimal gaps.
pub record IsSane (l : RateLimiterCrc) : Type 0 where
  pub gap_ge : 20 ≤ min_gap l
  pub invalid_ge : 2 * min_gap l ≤ l.invalid_packet_size
  pub invalid_ge_fifty : 50 ≤ l.invalid_packet_size
  pub invalid_lt : l.invalid_packet_size < 2 ^ 16

pub delay_share_bounds :
    (l : RateLimiterCrc) (delay : ℕ)
    → IsSane l
    → min_gap l ≤ delay
    → (min_gap l ≤ delay_share l.invalid_packet_size delay)
      × (delay_share l.invalid_packet_size delay ≤ l.invalid_packet_size)
      × (delay_share l.invalid_packet_size delay ≤ delay)
unfolding delay_share
delay_share_bounds l delay h d = ground arith

-- A postcondition of the normal return. The one other end is an empty pool, `E`.
abbrev pub Ends {ℓ} : {A : Type ℓ} → Type 0 → (A → Type 0) → Outcome A → Type 0
Ends E Q (done a) = Q a
Ends E Q null_write = E
Ends E Q overflow = ⊥
Ends E Q out_of_fuel = ⊥

pub Ends-imp {ℓ} :
    {A : Type ℓ} (E : Type 0) (Q R : A → Type 0) (m : Outcome A)
    → Ends E Q m
    → ((a : A) → Q a → R a)
    → Ends E R m
Ends-imp E Q R (done a) q k = k a q
Ends-imp E Q R null_write q k = q
Ends-imp E Q R overflow q k = q
Ends-imp E Q R out_of_fuel q k = q

pub Ends-bind {ℓ κ} :
    {A : Type ℓ} {B : Type κ} (E : Type 0) (Q : A → Type 0) (R : B → Type 0) (m : Outcome A)
    (f : A → Outcome B)
    → Ends E Q m
    → ((a : A) → Q a → Ends E R (f a))
    → Ends E R (m >>= f)
Ends-bind E Q R (done a) f q k = k a q
Ends-bind E Q R null_write f q k = q
Ends-bind E Q R overflow f q k = q
Ends-bind E Q R out_of_fuel f q k = q

pub Ends-bind_eq {ℓ κ} :
    {A : Type ℓ} {B : Type κ} (E : Type 0) (Q : A → Type 0) (R : B → Type 0) (m : Outcome A)
    (f : A → Outcome B)
    → Ends E Q m
    → ((a : A) → m ≡ done a → Q a → Ends E R (f a))
    → Ends E R (m >>= f)
Ends-bind_eq E Q R (done a) f q k = k a refl q
Ends-bind_eq E Q R null_write f q k = q
Ends-bind_eq E Q R overflow f q k = q
Ends-bind_eq E Q R out_of_fuel f q k = q

-- All the frames so far, sent or waiting in the buffer, in the order in which they go out.
abbrev pub emitted : {P : Type 0} → Sending P → List Mbuf
emitted s = concat s.sent ++ s.buffer

abbrev pub IsBurst : List Mbuf → Type 0
IsBurst b = (0 < length b) × (length b ≤ transmit_buffer_size)

pub record IsOpen {P : Type 0} (s : Sending P) : Type 0 where
  pub room : length s.buffer < transmit_buffer_size
  pub bursts : All IsBurst s.sent
  pub bad_pkts_lt : s.num_bad_pkts < 2 ^ 32
  pub bad_bytes_lt : s.num_bad_bytes < 2 ^ 32

abbrev pub IsFiller : RateLimiterCrc → Mbuf → Type 0
IsFiller l p =
    (l.min_packet_size ≤ p.pkt_len) × (p.pkt_len + l.packet_overhead ≤ l.invalid_packet_size)

-- What the register of bad bytes counts: 20 bytes of each frame's wire time are left out.
abbrev pub bad_bytes : ℕ → List Mbuf → ℕ
bad_bytes overhead [] = 0
bad_bytes overhead (p ∷ ps) = p.pkt_len + overhead - 20 + bad_bytes overhead ps

module _ {P : Type 0} where
  emitted-flush : (s : Sending P) → emitted (flush s) ≡ emitted s
  unfolding flush
  emitted-flush s =
      rw
        (
          concat-append s.sent (s.buffer ∷ []),
          append-nil (concat s.sent ++ (s.buffer ++ [])),
          append-nil s.buffer,
        )
        refl

  abbrev pub pushed : Mbuf → Sending P → Sending P
  pushed p s = record s { buffer = s.buffer ++ (p ∷ []) }

  -- A push to an open buffer is in bounds, and a flush that is due opens the buffer again.
  pub push-pushed : (p : Mbuf) (s : Sending P) → IsOpen s → push p s ≡ done (pushed p s)
  unfolding push
  push-pushed p s h = rw (lt→ltb _ _ h.room) refl

  pub flush_if-IsOpen :
      (p : Mbuf) (b : Bool) (s : Sending P)
      → IsOpen s
      → (b ≡ false → length (s.buffer ++ (p ∷ [])) < transmit_buffer_size)
      → IsOpen (flush_if b (pushed p s))
  unfolding flush_if
  flush_if-IsOpen p b s h due = ground (
    arith,
    length-append s.buffer (p ∷ []),
    All-append IsBurst s.sent ((s.buffer ++ (p ∷ [])) ∷ []) h.bursts,
  )

  pub emitted-flush_if :
      (p : Mbuf) (b : Bool) (s : Sending P)
      → emitted (flush_if b (pushed p s)) ≡ emitted s ++ (p ∷ [])
  unfolding flush_if
  emitted-flush_if p true s =
      emitted-flush (pushed p s) ∙ sym (append_assoc (concat s.sent) s.buffer (p ∷ []))
  emitted-flush_if p false s = sym (append_assoc (concat s.sent) s.buffer (p ∷ []))

  pub flush_if-counts :
      (b : Bool) (s : Sending P)
      → ((flush_if b s).num_bad_pkts ≡ s.num_bad_pkts)
        × ((flush_if b s).num_bad_bytes ≡ s.num_bad_bytes)
  unfolding flush_if
  flush_if-counts b s = ground arith
