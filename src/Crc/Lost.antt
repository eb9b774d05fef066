-- ===== src/Crc/Lost.antt =====
-- Two ends of `RateLimiterCRC::send_packets` in src/crc-ratecontrol.cpp that its callers do not
-- expect: an empty pool, and a burst whose last packet was deleted.
use mathlib.Core.List.{append-nil, append_assoc}
use moon_gen_dpdk_v.Prelude.{
  ◌+◌, ◌^◌, ◌≤◌, ◌<◌, ◌≡◌, refl, sym, ap, ◌∙◌, Option, none, some, List, [], ◌∷◌, ◌++◌, map, arith,
  false, le→leb, lt→leb, is_nil, length, length-append, All, u64,
}
use moon_gen_dpdk_v.Dpdk.{Mbuf}
use moon_gen_dpdk_v.Crc.{
  done, null_write, RateLimiterCrc, Sending, push, flush_if, get_delay_packet, delay_round, fill,
  send_one, send_loop, send_load, transmit_buffer_size,
}
use moon_gen_dpdk_v.Crc.Frames.{min_gap, IsSane}
use moon_gen_dpdk_v.Crc.Pace.{starting}

is_nil-deleted : (ps : List Mbuf) → is_nil (map some ps ++ (none ∷ [])) ≡ false
is_nil-deleted [] = refl
is_nil-deleted (p ∷ ps) = refl

module _ {P : Type 0} (alloc : P → Option (Mbuf × P)) (l : RateLimiterCrc) (sane : IsSane l) where
  -- For sane sizes, if the pool has no buffer when the first packet's delay, which with the
  -- missing bytes stays below 2 ^ 64, calls for a filler, `send_packets` writes through the null
  -- pointer: `get_delay_packet` sets the lengths before anybody tests the pointer.
  pub send_load-null_write :
      (p : Mbuf) (load : List (Option Mbuf)) (pool : P)
      → alloc pool ≡ none
      → min_gap l ≤ p.timestamp
      → p.timestamp + l.previous_missing_delay < 2 ^ 64
      → send_load alloc l (some p ∷ load) pool ≡ null_write
  unfolding send_load send_loop send_one fill delay_round get_delay_packet
  send_load-null_write p load pool empty due fits =
      let whole : u64 (p.timestamp + l.previous_missing_delay)
          ≡ p.timestamp + l.previous_missing_delay =
        omega arith in
      let gap : u64 (min_gap l) ≡ min_gap l = omega (arith, sane) in
      rw (whole, gap, le→leb (min_gap l) (p.timestamp + l.previous_missing_delay) (omega arith))
        (ground arith)

  abbrev pub with_buffer : Sending P → List Mbuf → Sending P
  with_buffer s ps = record s { buffer = ps }

  send_one-waits :
      (p : Mbuf) (s : Sending P)
      → p.timestamp ≡ 0
      → l.previous_missing_delay < min_gap l
      → length s.buffer + 1 < transmit_buffer_size
      → send_one alloc l p false s ≡ done (l, with_buffer s (s.buffer ++ (p ∷ [])))
  unfolding send_one fill push flush_if
  send_one-waits p s now m room =
      let whole : u64 (p.timestamp + l.previous_missing_delay) ≡ l.previous_missing_delay =
        omega arith in
      let gap : u64 (min_gap l) ≡ min_gap l = omega (arith, sane) in
      rw (whole, gap, lt→leb (min_gap l) l.previous_missing_delay m)
        (ground (arith, length-append s.buffer (p ∷ [])))

  send_loop-waits :
      (ps : List Mbuf) (s : Sending P)
      → All (λ p. p.timestamp ≡ 0) ps
      → l.previous_missing_delay < min_gap l
      → length s.buffer + length ps < transmit_buffer_size
      → send_loop alloc l (map some ps ++ (none ∷ [])) s ≡ done (l, with_buffer s (s.buffer ++ ps))
  unfolding send_loop
  send_loop-waits [] s now m room =
      ap (λ xs. done (l, with_buffer s xs)) (sym (append-nil s.buffer))
  send_loop-waits (p ∷ ps) s (now, later) m room =
      rw (is_nil-deleted ps, send_one-waits p s now m (omega arith))
        (send_loop-waits ps (with_buffer s (s.buffer ++ (p ∷ []))) later m
            (omega (arith, length-append s.buffer (p ∷ [])))
          ∙ ap (λ xs. done (l, with_buffer s xs)) (append_assoc s.buffer (p ∷ []) ps))

  -- For sane sizes and less than a minimal gap missing: fewer than 64 packets without delay,
  -- behind them a deleted one, are all kept in the local buffer of `send_packets`, which hands
  -- nothing to DPDK and forgets them when it returns.
  pub send_load_lost :
      (ps : List Mbuf) (pool : P)
      → All (λ p. p.timestamp ≡ 0) ps
      → l.previous_missing_delay < min_gap l
      → length ps < transmit_buffer_size
      → send_load alloc l (map some ps ++ (none ∷ [])) pool
        ≡ done (l, with_buffer (starting pool) ps)
  unfolding send_load
  send_load_lost ps pool now m room = send_loop-waits ps (starting pool) now m (omega arith)
