-- ===== src/Moonem/Rate/Tokens.antt =====
-- The token bucket of src/moonem_sw.cpp: how many bytes of one burst it lets through.
use moon_gen_dpdk_v.Prelude.{
  ℕ, ◌+◌, ◌^◌, ◌≤◌, ◌<◌, ◌≡◌, false, List, [], ◌∷◌, arith, All, Bool-cases, inl, inr,
}
use moon_gen_dpdk_v.Double.{Double}
use moon_gen_dpdk_v.Dpdk.{Mbuf, wire_bytes}
use moon_gen_dpdk_v.Moonem.Loss.{MoonemConfig}
use moon_gen_dpdk_v.Moonem.Rate.{
  Sifted, rate_loss, effective_packet_size, min_double, current_tokens, token_loop,
}

-- What the bucket relies on of doubles, for numbers that they hold exactly: `floor` gives the whole
-- tokens, a size is taken off exactly, and the minimum with the capacity is at most that.
pub record TokenLaws (W : Type 0) ⦃d : Double W⦄ : Type 0 where
  pub floor : W → ℕ
  pub spend :
      (a : W) (n : ℕ)
      → floor a ≤ 2 ^ 53
      → n < 2 ^ 32
      → d.lt a (d.of_u64 n) ≡ false
      → floor (d.sub a (d.of_u64 n)) + n ≡ floor a
  pub capped : (a : W) (c : ℕ) → c ≤ 2 ^ 53 → floor (min_double a (d.of_u64 c)) ≤ c

abbrev pub IsFrame : Mbuf → Type 0
IsFrame p = p.pkt_len + 24 < 2 ^ 32

module _ {W : Type 0} ⦃d : Double W⦄ (laws : TokenLaws W) (config : MoonemConfig) where
  open laws use {floor, spend, capped}

  -- The bytes that pass, and the whole tokens behind the loop, come out of the tokens before it.
  pub IsPaid : W → Sifted W → Type 0
  IsPaid tokens s = wire_bytes 24 s.accepted + floor s.level ≤ floor tokens

  token_loop-IsPaid :
      (tokens : W) (random : ℕ) (pkts : List Mbuf)
      → floor tokens ≤ 2 ^ 53
      → All IsFrame pkts
      → IsPaid tokens (token_loop config tokens random pkts)
  unfolding token_loop IsPaid
  token_loop-IsPaid tokens random [] whole frames = omega arith
  token_loop-IsPaid tokens random (p ∷ pkts) whole (frame, frames) =
      let size = d.of_u64 (effective_packet_size p) in
      let next = rate_loss config random in
      elim (Bool-cases (d.lt tokens size)) [
        | inl poor ↦ rw poor (token_loop-IsPaid tokens random pkts whole frames)
        | inr rich ↦
            let paid = spend tokens (effective_packet_size p) whole (omega arith) rich in
            let later = token_loop-IsPaid (d.sub tokens size) next.1 pkts (omega arith) frames in
            elim (Bool-cases next.0) [
              | inl lost ↦ rw (rich, lost) (omega arith)
              | inr passed ↦ rw (rich, passed) (omega arith)
            ]
      ]

  -- For doubles that obey `TokenLaws`, a capacity of at most 2 ^ 53 and packets whose lengths
  -- leave room for 24 bytes in 32 bits: whatever time has passed, one burst brings at most the
  -- capacity of the bucket through it, in bytes on the wire with 24 for each packet, and what is
  -- not used stays within the capacity.
  pub token_loop-capacity :
      (rate : W) (now : ℕ) (previous_timestamp previous_tokens : W) (random : ℕ) (pkts : List Mbuf)
      → config.capacity ≤ 2 ^ 53
      → All IsFrame pkts
      → let s =
          token_loop config
            (current_tokens config rate now previous_timestamp previous_tokens)
            random
            pkts in
        wire_bytes 24 s.accepted + floor s.level ≤ config.capacity
  unfolding current_tokens IsPaid
  token_loop-capacity rate now previous_timestamp previous_tokens random pkts small frames =
      let tokens = current_tokens config rate now previous_timestamp previous_tokens in
      let full : floor tokens ≤ config.capacity = capped _ config.capacity small in
      omega (arith, token_loop-IsPaid tokens random pkts (omega arith) frames)
