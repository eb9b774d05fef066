-- ===== src/Moonem/Rate/Feeds.antt =====
-- The rate receivers of src/moonem_sw.cpp as feeders of the ring that `sw_transmitter_loop_delay`
-- empties: the tags on the packets, and the packets' whereabouts.
use moon_gen_dpdk_v.Prelude.{
  ℕ, ◌+◌, ◌^◌, ◌<◌, ◌≡◌, refl, List, [], ◌∷◌, ◌++◌, arith, Bool-cases, inl, inr, length,
  length-append, u64,
}
use moon_gen_dpdk_v.Double.{Double}
use moon_gen_dpdk_v.Dpdk.{Mbuf}
use moon_gen_dpdk_v.Moonem.Loss.{MoonemConfig}
use moon_gen_dpdk_v.Moonem.Ring.{Ring}
use moon_gen_dpdk_v.Moonem.Delay.{Receiver, stamp, set_burst_size_dynfield}
use moon_gen_dpdk_v.Moonem.Delay.Tags.{IsTagged, stamp-IsTagged, length-stamp}
use moon_gen_dpdk_v.Moonem.Delay.Line.{feed-IsTagged, feed-total}
use moon_gen_dpdk_v.Moonem.Rate.{
  Sifted, RateReceiver, rate_loss, backlog_bound, max_double, effective_packet_size, token_loop,
  leaky_loop, sifted_round, token_round, leaky_round, current_tokens,
}

-- Each packet of a burst is accepted or freed.
abbrev IsWhole : {W : Type 0} → List Mbuf → Sifted W → Type 0
IsWhole pkts s = length s.accepted + length s.freed ≡ length pkts

module _ {R : Type 0} (ring : Ring R) where
  open ring use {contents}

  -- What a round with the burst `pkts` does to a receiver whose ring holds tagged packets.
  pub record Fed (pkts : List Mbuf) (r r' : Receiver R) : Type 0 where
    pub tagged : IsTagged (contents r'.ring)
    pub counted :
        length (contents r'.ring) + length r'.leaked + length r'.freed
        ≡ length (contents r.ring) + length r.leaked + length r.freed + length pkts

module _ {W : Type 0} ⦃d : Double W⦄ (config : MoonemConfig) where
  token_loop-IsWhole :
      (tokens : W) (random : ℕ) (pkts : List Mbuf)
      → IsWhole pkts (token_loop config tokens random pkts)
  unfolding token_loop
  token_loop-IsWhole tokens random [] = omega arith
  token_loop-IsWhole tokens random (p ∷ pkts) =
      let size = d.of_u64 (effective_packet_size p) in
      let (lost, random') = rate_loss config random in
      let poor = token_loop-IsWhole tokens random pkts in
      let paid = token_loop-IsWhole (d.sub tokens size) random' pkts in
      elim (Bool-cases (d.lt tokens size)) [
        | inl e ↦ rw e (omega arith)
        | inr e ↦ elim (Bool-cases lost) [
          | inl e' ↦ rw (e, e') (omega arith)
          | inr e' ↦ rw (e, e') (omega arith)
        ]
      ]

  leaky_loop-IsTagged :
      (target : W) (send_time : ℕ) (next_at : W) (random : ℕ) (pkts : List Mbuf)
      → let s = leaky_loop config target send_time next_at random pkts in
        IsWhole pkts s × IsTagged s.accepted
  unfolding leaky_loop set_burst_size_dynfield
  leaky_loop-IsTagged target send_time next_at random [] = (omega arith, tt)
  leaky_loop-IsTagged target send_time next_at random (p ∷ pkts) =
      let real = max_double (d.of_u64 send_time) next_at in
      let bits = d.mul (d.of_u64 (effective_packet_size p)) (d.decimal 8 0) in
      let (lost, random') = rate_loss config random in
      let (whole, tags) = leaky_loop-IsTagged target send_time next_at random pkts in
      let (whole', tags') =
        leaky_loop-IsTagged target send_time (d.add real (d.div bits target)) random' pkts in
      elim (Bool-cases (d.lt (backlog_bound config target) (d.sub real (d.of_u64 send_time)))) [
        | inl e ↦ rw e (omega arith, tags)
        | inr e ↦ elim (Bool-cases lost) [
          | inl e' ↦ rw (e, e') (omega arith, tags')
          | inr e' ↦ rw (e, e') (omega arith, (omega arith, omega arith, tt, tags'))
        ]
      ]

  module _ {R : Type 0} (ring : Ring R) where
    open ring use {contents}

    sifted_round-Fed :
        (r : RateReceiver W R) (timestamp : W) (s : Sifted W) (out pkts : List Mbuf)
        → IsTagged (contents r.receiver.ring)
        → IsTagged out
        → length out ≡ length s.accepted
        → IsWhole pkts s
        → Fed ring pkts r.receiver (sifted_round ring r timestamp s out).receiver
    unfolding sifted_round
    sifted_round-Fed r timestamp s [] pkts h tags same whole = record {
      tagged = h;
      counted = omega (arith, length-append r.receiver.freed s.freed);
    }
    sifted_round-Fed r timestamp s (q ∷ out) pkts h tags same whole =
        let kept : Receiver R = record r.receiver {
          loss_state = record r.receiver.loss_state { random = s.random };
          freed = r.receiver.freed ++ s.freed;
        } in
        record {
          tagged = feed-IsTagged ring config 0 kept (q ∷ out) h tags;
          counted = omega (
            arith,
            feed-total ring config 0 kept (q ∷ out),
            length-append r.receiver.freed s.freed,
          );
        }

    -- On a ring of tagged packets, a round of the token bucket with fewer than 2 ^ 32 packets
    -- keeps the packets tagged with the sizes of their bursts, and every packet of the burst is in
    -- the ring, freed, or was refused by a full ring.
    pub token_round-Fed :
        (delay : ℕ) (rate : W) (pkts : List Mbuf) (now : ℕ) (r : RateReceiver W R)
        → length pkts < 2 ^ 32
        → IsTagged (contents r.receiver.ring)
        → Fed ring pkts r.receiver (token_round ring config delay rate pkts now r).receiver
    unfolding token_round
    token_round-Fed delay rate [] now r few h = record { tagged = h; counted = omega arith }
    token_round-Fed delay rate (p ∷ pkts) now r few h =
        let tokens = current_tokens config rate now r.previous_timestamp r.level in
        let s = token_loop config tokens r.receiver.loss_state.random (p ∷ pkts) in
        let whole = token_loop-IsWhole tokens r.receiver.loss_state.random (p ∷ pkts) in
        sifted_round-Fed r (d.of_u64 now) s (stamp (u64 (now + delay)) s.accepted) (p ∷ pkts) h
          (stamp-IsTagged _ s.accepted (omega arith)) (length-stamp _ s.accepted) whole

    -- On a ring of tagged packets, a round of the leaky bucket keeps the packets tagged, its own
    -- as bursts of one packet, and every packet of the burst is in the ring, freed, or was refused
    -- by a full ring.
    pub leaky_round-Fed :
        (delay : ℕ) (target : W) (pkts : List Mbuf) (now : ℕ) (r : RateReceiver W R)
        → IsTagged (contents r.receiver.ring)
        → Fed ring pkts r.receiver (leaky_round ring config delay target pkts now r).receiver
    unfolding leaky_round
    leaky_round-Fed delay target [] now r h = record { tagged = h; counted = omega arith }
    leaky_round-Fed delay target (p ∷ pkts) now r h =
        let random = r.receiver.loss_state.random in
        let s = leaky_loop config target (u64 (now + delay)) r.level random (p ∷ pkts) in
        let (whole, tags) =
          leaky_loop-IsTagged target (u64 (now + delay)) r.level random (p ∷ pkts) in
        sifted_round-Fed r r.previous_timestamp s s.accepted (p ∷ pkts) h tags refl whole
