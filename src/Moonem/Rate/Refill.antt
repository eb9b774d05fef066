-- ===== src/Moonem/Rate/Refill.antt =====
-- The token bucket of src/moonem_sw.cpp: what one round is worth, in bytes let through and tokens left.
use moon_gen_dpdk_v.Prelude.{
  ℕ, ◌+◌, ◌-◌, ◌*◌, ◌/◌, ◌^◌, ◌≤◌, ◌<◌, ◌≡◌, refl, ap, false, List, [], ◌∷◌, ◌++◌, arith, All,
  Bool-cases, inl, inr, u64,
}
use native.Mathlib.Nat.{add-mul}
use moon_gen_dpdk_v.Double.{Double}
use moon_gen_dpdk_v.Dpdk.{Mbuf, wire_bytes, wire_bytes-append}
use moon_gen_dpdk_v.Moonem.Loss.{MoonemConfig}
use moon_gen_dpdk_v.Moonem.Ring.{Ring}
use moon_gen_dpdk_v.Moonem.Delay.{Receiver, stamp, feed, set_burst_size_dynfield}
use moon_gen_dpdk_v.Moonem.Rate.{
  Sifted, RateReceiver, rate_loss, effective_packet_size, min_double, current_tokens, token_loop,
  sifted_round, token_round,
}
use moon_gen_dpdk_v.Moonem.Rate.Tokens.{IsFrame}

-- What the bucket relies on of doubles, up to 2 ^ 53: an amount of tokens counts in units, of which
-- a byte costs `per_byte`. A whole number has its value; a whole number that is not larger is taken
-- off exactly; and what comes in, limited to a capacity, is at most `per_cycle` in a cycle and
-- `slack` for the rounding of the sum, where `per_cycle` exceeds the rate by a rounding of its own
-- and `slack` is at most a byte. IEEE doubles with rounding to nearest obey these laws for any
-- finite rate that is not negative, in units of their smallest number, with half a byte of slack,
-- if `units` is 0 below zero and larger than any capacity for what is no finite number.
pub record RefillLaws (W : Type 0) ⦃d : Double W⦄ (rate : W) : Type 0 where
  pub units : W → ℕ
  pub per_byte : ℕ
  pub per_cycle : ℕ
  pub slack : ℕ
  pub positive : 0 < per_byte
  pub slack_le : slack ≤ per_byte
  pub of_rate : per_cycle ≤ units rate + units rate / 2 ^ 52 + 1
  pub whole : (n : ℕ) → n ≤ 2 ^ 53 → units (d.of_u64 n) ≡ n * per_byte
  pub spend :
      (a : W) (n : ℕ)
      → n < 2 ^ 32
      → units a ≤ 2 ^ 53 * per_byte
      → d.lt a (d.of_u64 n) ≡ false
      → units (d.sub a (d.of_u64 n)) + n * per_byte ≤ units a
  pub refill :
      (a : W) (previous now c : ℕ)
      → previous ≤ now
      → now < 2 ^ 53
      → c ≤ 2 ^ 53
      → units a ≤ c * per_byte
      → let more = d.add a (d.mul (d.sub (d.of_u64 now) (d.of_u64 previous)) rate) in
        units (min_double more (d.of_u64 c)) ≤ units a + (now - previous) * per_cycle + slack
  pub capped : (a : W) (c : ℕ) → c ≤ 2 ^ 53 → units (min_double a (d.of_u64 c)) ≤ c * per_byte

pub capacity-mul : (c per_byte n : ℕ) → c ≤ 2 ^ 53 → n ≤ c * per_byte → n ≤ 2 ^ 53 * per_byte
capacity-mul c per_byte n le h =
    let rest = 2 ^ 53 - c in
    let whole : c + rest ≡ 2 ^ 53 = omega (arith, le) in
    omega (arith, h, ap (λ k. k * per_byte) whole, add-mul c rest per_byte)

stamp-wire_bytes :
    (send_time : ℕ) (pkts : List Mbuf) → wire_bytes 24 (stamp send_time pkts) ≡ wire_bytes 24 pkts
unfolding stamp set_burst_size_dynfield
stamp-wire_bytes send_time [] = refl
stamp-wire_bytes send_time (p ∷ pkts) =
    ap (λ n. p.pkt_len + 24 + n) (stamp-wire_bytes send_time pkts)

module _ {R : Type 0} (ring : Ring R) where
  open ring use {contents, enqueue_all}

  -- The bytes on the wire of all that a receiver has handed to its ring.
  abbrev pub through : Receiver R → ℕ
  through r = wire_bytes 24 (contents r.ring) + wire_bytes 24 r.leaked

  feed-through :
      (r : Receiver R) (pkts : List Mbuf)
      → through (feed ring r pkts) ≡ through r + wire_bytes 24 pkts
  unfolding feed
  feed-through r pkts = elim (enqueue_all r.ring pkts) [
    | inl (b, e) ↦ rw (b, e) (omega (arith, wire_bytes-append 24 (contents r.ring) pkts))
    | inr (b, e) ↦ rw (b, e) (omega (arith, wire_bytes-append 24 r.leaked pkts))
  ]

module _ {W : Type 0} ⦃d : Double W⦄ {rate : W} (laws : RefillLaws W rate)
    (config : MoonemConfig) where
  open laws use {units, per_byte, per_cycle, slack, spend, refill, capped}

  token_loop-spends :
      (tokens : W) (random : ℕ) (pkts : List Mbuf)
      → units tokens ≤ 2 ^ 53 * per_byte
      → All IsFrame pkts
      → let s = token_loop config tokens random pkts in
        wire_bytes 24 s.accepted * per_byte + units s.level ≤ units tokens
  unfolding token_loop
  token_loop-spends tokens random [] whole frames = omega arith
  token_loop-spends tokens random (p ∷ pkts) whole (frame, frames) =
      let size = d.of_u64 (effective_packet_size p) in
      let next = rate_loss config random in
      elim (Bool-cases (d.lt tokens size)) [
        | inl poor ↦ rw poor (token_loop-spends tokens random pkts whole frames)
        | inr rich ↦
            let paid = spend tokens (effective_packet_size p) (omega arith) whole rich in
            let later =
              token_loop-spends (d.sub tokens size) next.1 pkts (omega (arith, paid)) frames in
            elim (Bool-cases next.0) [
              | inl lost ↦ rw (rich, lost) (omega arith)
              | inr passed ↦
                  let own : effective_packet_size p ≡ p.pkt_len + 24 = omega (arith, frame) in
                  rw (rich, passed)
                    (omega (
                      arith,
                      later,
                      paid,
                      ap (λ n. n * per_byte) own,
                      add-mul (p.pkt_len + 24)
                          (wire_bytes 24
                            (token_loop config (d.sub tokens size) next.1 pkts).accepted)
                          per_byte,
                    ))
            ]
      ]

  current_tokens-units :
      (previous now : ℕ) (timestamp tokens : W)
      → timestamp ≡ d.of_u64 previous
      → previous ≤ now
      → now < 2 ^ 53
      → config.capacity ≤ 2 ^ 53
      → units tokens ≤ config.capacity * per_byte
      → let current = current_tokens config rate now timestamp tokens in
        (units current ≤ units tokens + (now - previous) * per_cycle + slack)
        × (units current ≤ config.capacity * per_byte)
  unfolding current_tokens
  current_tokens-units previous now timestamp tokens e le early small fits =
      rw e (refill tokens previous now config.capacity le early small fits, capped _ _ small)

  module _ {R : Type 0} (ring : Ring R) (delay : ℕ) where
    sifted_round-through :
        (r : RateReceiver W R) (timestamp : W) (s : Sifted W) (out : List Mbuf)
        → wire_bytes 24 out ≡ wire_bytes 24 s.accepted
        → through ring (sifted_round ring r timestamp s out).receiver
          ≡ through ring r.receiver + wire_bytes 24 s.accepted
    unfolding sifted_round
    sifted_round-through r timestamp s [] same = omega (arith, same)
    sifted_round-through r timestamp s (q ∷ out) same =
        let kept : Receiver R = record r.receiver {
          loss_state = record r.receiver.loss_state { random = s.random };
          freed = r.receiver.freed ++ s.freed;
        } in
        omega (arith, same, feed-through ring kept (q ∷ out))

    sifted_round-level :
        (r : RateReceiver W R) (timestamp : W) (s : Sifted W) (out : List Mbuf)
        → (sifted_round ring r timestamp s out).level ≡ s.level
    unfolding sifted_round
    sifted_round-level r timestamp s out = refl

    -- Bytes and tokens, in units: what went through by `r`, and what may still go.
    abbrev worth : RateReceiver W R → ℕ
    worth r = through ring r.receiver * per_byte + units r.level

    -- What a burst pays for out of the level and `more` is worth that much.
    sifted_round-worth :
        (r : RateReceiver W R) (timestamp : W) (s : Sifted W) (out : List Mbuf) (more : ℕ)
        → wire_bytes 24 out ≡ wire_bytes 24 s.accepted
        → wire_bytes 24 s.accepted * per_byte + units s.level ≤ units r.level + more
        → worth (sifted_round ring r timestamp s out) ≤ worth r + more
    sifted_round-worth r timestamp s out more same paid =
        let grown = ap (λ n. n * per_byte) (sifted_round-through r timestamp s out same) in
        let level : (sifted_round ring r timestamp s out).level ≡ s.level =
          sifted_round-level r timestamp s out in
        omega (
          arith,
          paid,
          grown,
          ap units level,
          add-mul (through ring r.receiver) (wire_bytes 24 s.accepted) per_byte,
        )

    pub token_round-worth :
        (previous now : ℕ) (pkts : List Mbuf) (r : RateReceiver W R)
        → r.previous_timestamp ≡ d.of_u64 previous
        → previous ≤ now
        → now < 2 ^ 53
        → config.capacity ≤ 2 ^ 53
        → All IsFrame pkts
        → units r.level ≤ config.capacity * per_byte
        → let r' = token_round ring config delay rate pkts now r in
          (worth r' ≤ worth r + ((now - previous) * per_cycle + slack))
          × (units r'.level ≤ config.capacity * per_byte)
    unfolding token_round
    token_round-worth previous now [] r e le early small frames fits = (omega arith, fits)
    token_round-worth previous now (p ∷ pkts) r e le early small frames fits =
        let tokens = current_tokens config rate now r.previous_timestamp r.level in
        let s = token_loop config tokens r.receiver.loss_state.random (p ∷ pkts) in
        let out = stamp (u64 (now + delay)) s.accepted in
        let (gained, capped) =
          current_tokens-units previous now r.previous_timestamp r.level e le early small fits in
        let spent =
          token_loop-spends tokens r.receiver.loss_state.random (p ∷ pkts)
            (capacity-mul config.capacity per_byte (units tokens) small capped) frames in
        let level = ap units (sifted_round-level r (d.of_u64 now) s out) in
        (
          sifted_round-worth r (d.of_u64 now) s out ((now - previous) * per_cycle + slack)
              (stamp-wire_bytes _ s.accepted) (omega (arith, spent, gained)),
          omega (arith, spent, capped, level),
        )
