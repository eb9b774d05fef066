-- ===== src/Moonem/Hardware/Conformance.antt =====
-- The token buckets of src/moonem.cpp over any number of packets: how many bytes they let through.
use native.Mathlib.Nat.{add-mul, suc-mul}
use moon_gen_dpdk_v.Prelude.{
  ℕ, ◌+◌, ◌-◌, ◌*◌, ◌^◌, ◌≤◌, ◌<◌, ◌≡◌, length, refl, ap, true, false, List, [], ◌∷◌, arith, All,
  Bool-cases, inl, inr,
}
use moon_gen_dpdk_v.Double.{Double}
use moon_gen_dpdk_v.Dpdk.{Mbuf, wire_bytes}
use moon_gen_dpdk_v.Moonem.Loss.{MoonemConfig}
use moon_gen_dpdk_v.Moonem.Rate.{min_double, effective_packet_size}
use moon_gen_dpdk_v.Moonem.Rate.Tokens.{IsFrame}
use moon_gen_dpdk_v.Moonem.Rate.Refill.{RefillLaws, capacity-mul}
use moon_gen_dpdk_v.Moonem.Hardware.{token_rate_ns, token_pass}

-- Packets whose hardware time stamps ascend from `since` on, and the last of the time stamps.
abbrev pub AreLater : ℕ → List Mbuf → Type 0
AreLater since [] = Unit
AreLater since (p ∷ pkts) = (since ≤ p.timestamp) × AreLater p.timestamp pkts

abbrev pub last_stamp : ℕ → List Mbuf → ℕ
last_stamp since [] = since
last_stamp since (p ∷ pkts) = last_stamp p.timestamp pkts

last_stamp-later :
    (since : ℕ) (pkts : List Mbuf) → AreLater since pkts → since ≤ last_stamp since pkts
last_stamp-later since [] later = omega arith
last_stamp-later since (p ∷ pkts) (le, later) =
    omega (arith, last_stamp-later p.timestamp pkts later)

module _ {W : Type 0} ⦃d : Double W⦄ (config : MoonemConfig)
    (laws : RefillLaws W (token_rate_ns config))
    (lt-ge : (a b : W) → d.lt a b ≡ true → d.lt b a ≡ false) (out : Mbuf → Mbuf)
    (same_size : (p : Mbuf) → (out p).pkt_len ≡ p.pkt_len) where
  open laws use {units, per_byte, per_cycle, slack, spend, refill, capped}

  -- For doubles that obey `RefillLaws` and whose order is asymmetric, with capacity and time stamps
  -- up to 2 ^ 53: from a bucket within its capacity, over any number of packets with ascending
  -- hardware time stamps, the bytes on the wire of those that pass, with the tokens that are left,
  -- are at most the tokens at the start, what the configured rate brings in the time from the
  -- bucket's last time stamp to the last packet's, and the slack of a rounding, at most a byte, for
  -- each packet that passes; and the tokens that are left stay within the capacity.
  pub token_pass-Conforms :
      (pkts : List Mbuf) (previous since : ℕ) (timestamp tokens : W)
      → timestamp ≡ d.of_u64 previous
      → previous ≤ since
      → AreLater since pkts
      → last_stamp since pkts < 2 ^ 53
      → config.capacity ≤ 2 ^ 53
      → All IsFrame pkts
      → units tokens ≤ config.capacity * per_byte
      → let s = token_pass out config timestamp tokens pkts in
        (wire_bytes 24 s.accepted * per_byte + units s.level
          ≤ units tokens
            + (last_stamp since pkts - previous) * per_cycle
            + length s.accepted * slack)
        × (units s.level ≤ config.capacity * per_byte)
  unfolding token_pass
  token_pass-Conforms [] previous since timestamp tokens e le later early small frames fits =
      (omega arith, fits)
  token_pass-Conforms (p ∷ pkts) previous since timestamp tokens e le (le', later) early small
        (frame, frames) fits =
      let recv_time = d.of_u64 p.timestamp in
      let more = d.add tokens (d.mul (d.sub recv_time timestamp) (token_rate_ns config)) in
      let current = min_double more (d.of_u64 config.capacity) in
      let size = effective_packet_size p in
      let before_last = last_stamp-later p.timestamp pkts later in
      let gained : units current ≤ units tokens + (p.timestamp - previous) * per_cycle + slack =
        rw e (
          refill tokens previous p.timestamp config.capacity (omega arith)
            (omega (arith, before_last)) small fits) in
      let cap = capped more config.capacity small in
      let whole = capacity-mul config.capacity per_byte (units current) small cap in
      elim (Bool-cases (d.lt (d.of_u64 size) current)) [
        | inl rich ↦
            let paid =
              spend current size (omega arith) whole (lt-ge (d.of_u64 size) current rich) in
            let (rest, fits') =
              token_pass-Conforms pkts p.timestamp p.timestamp recv_time
                (d.sub current (d.of_u64 size)) refl (omega arith) later early small frames
                (omega (arith, paid, cap)) in
            let passed = token_pass out config recv_time (d.sub current (d.of_u64 size)) pkts in
            let own : size ≡ (out p).pkt_len + 24 = omega (arith, frame, same_size p) in
            let wait = p.timestamp - previous in
            let later_wait = last_stamp p.timestamp pkts - p.timestamp in
            let split : last_stamp p.timestamp pkts - previous ≡ wait + later_wait =
              omega (arith, before_last) in
            rw rich (
              omega (
                arith,
                gained,
                paid,
                rest,
                ap (λ n. n * per_byte) own,
                ap (λ n. n * per_cycle) split,
                add-mul wait later_wait per_cycle,
                suc-mul (length passed.accepted) slack,
                add-mul ((out p).pkt_len + 24) (wire_bytes 24 passed.accepted) per_byte,
              ),
              fits',
            )
        | inr poor ↦ rw poor (
            token_pass-Conforms pkts previous p.timestamp timestamp tokens e (omega arith) later
              early small frames fits)
      ]
