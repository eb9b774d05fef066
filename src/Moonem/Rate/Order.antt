-- ===== src/Moonem/Rate/Order.antt =====
-- The leaky bucket of src/moonem_sw.cpp: the order of the sending times in its ring.
use moon_gen_dpdk_v.Prelude.{
  ℕ, ◌+◌, ◌≡◌, refl, Bool-cases, inl, inr, false, true, List, [], ◌∷◌, ◌++◌, u64, is_nil,
}
use moon_gen_dpdk_v.Double.{Double}
use moon_gen_dpdk_v.Dpdk.{Mbuf}
use moon_gen_dpdk_v.Moonem.Loss.{MoonemConfig}
use moon_gen_dpdk_v.Moonem.Ring.{Ring}
use moon_gen_dpdk_v.Moonem.Delay.{Receiver, feed, set_burst_size_dynfield}
use moon_gen_dpdk_v.Moonem.Rate.{
  Sifted, RateReceiver, rate_loss, effective_packet_size, max_double, backlog_bound, leaky_loop,
  leaky_round, sifted_round,
}

-- What the order of sending times relies on of doubles, none of which is a NaN: `<` orders them, and
-- to add the time that a packet takes does not make a time smaller.
pub record OrderLaws (W : Type 0) ⦃d : Double W⦄ (target : W) : Type 0 where
  pub lt-ge : (a b : W) → d.lt a b ≡ true → d.lt b a ≡ false
  pub ge-refl : (a : W) → d.lt a a ≡ false
  pub ge-trans : (a b c : W) → d.lt b a ≡ false → d.lt c b ≡ false → d.lt c a ≡ false
  pub later :
      (a : W) (size : ℕ)
      → d.lt (d.add a (d.div (d.mul (d.of_u64 size) (d.decimal 8 0)) target)) a ≡ false

module _ {W : Type 0} ⦃d : Double W⦄ (target : W) where
  -- The cycles that a packet takes at the target rate.
  abbrev pub wire_time : Mbuf → W
  wire_time p = d.div (d.mul (d.of_u64 (effective_packet_size p)) (d.decimal 8 0)) target

  -- The packets have sending times between `low` and `high`, as doubles, each no earlier than the
  -- one before and the time that the packet before takes.
  abbrev pub Paced : W → List Mbuf → W → Type 0
  Paced low [] high = d.lt high low ≡ false
  Paced low (p ∷ pkts) high =
      (time : W) × (d.lt time low ≡ false)
      × (p.timestamp ≡ d.to_u64 time)
      × Paced (d.add time (wire_time p)) pkts high

module _ {W : Type 0} ⦃d : Double W⦄ where
  module _ {target : W} (laws : OrderLaws W target) where
    open laws use {lt-ge, ge-refl, ge-trans, later}

    Paced-from :
        (low low' : W) (pkts : List Mbuf) (high : W)
        → d.lt low' low ≡ false
        → Paced target low' pkts high
        → Paced target low pkts high
    Paced-from low low' [] high le h = ge-trans low low' high le h
    Paced-from low low' (p ∷ pkts) high le (time, ge, stamped, h) =
        (time, ge-trans low low' time le ge, stamped, h)

    Paced-append :
        (low mid high : W) (xs ys : List Mbuf)
        → Paced target low xs mid
        → Paced target mid ys high
        → Paced target low (xs ++ ys) high
    Paced-append low mid high [] ys h k = Paced-from low mid ys high h k
    Paced-append low mid high (x ∷ xs) ys (time, ge, stamped, h) k =
        (time, ge, stamped, Paced-append (d.add time (wire_time target x)) mid high xs ys h k)

    Paced-to :
        (low : W) (pkts : List Mbuf) (high high' : W)
        → d.lt high' high ≡ false
        → Paced target low pkts high
        → Paced target low pkts high'
    Paced-to low [] high high' le h = ge-trans low high high' h le
    Paced-to low (p ∷ pkts) high high' le (time, ge, stamped, h) =
        (time, ge, stamped, Paced-to (d.add time (wire_time target p)) pkts high high' le h)

    Paced-ends :
        (low : W) (pkts : List Mbuf) (high : W) → Paced target low pkts high → d.lt high low ≡ false
    Paced-ends low [] high h = h
    Paced-ends low (p ∷ pkts) high (time, ge, stamped, h) =
        let next = d.add time (wire_time target p) in
        let after = later time (effective_packet_size p) in
        ge-trans low time high ge (ge-trans time next high after (Paced-ends next pkts high h))

    max_double-ge : (a b : W) → d.lt (max_double a b) b ≡ false
    max_double-ge a b = elim (Bool-cases (d.lt b a)) [
      | inl above ↦ rw above (lt-ge b a above)
      | inr below ↦ rw below (ge-refl b)
    ]

    leaky_loop-Paced :
        (config : MoonemConfig) (send_time : ℕ) (next_at : W) (random : ℕ) (pkts : List Mbuf)
        → let s = leaky_loop config target send_time next_at random pkts in
          Paced target next_at s.accepted s.level
    unfolding leaky_loop set_burst_size_dynfield
    leaky_loop-Paced config send_time next_at random [] = ge-refl next_at
    leaky_loop-Paced config send_time next_at random (p ∷ pkts) =
        let real = max_double (d.of_u64 send_time) next_at in
        let size = effective_packet_size p in
        let next = d.add real (d.div (d.mul (d.of_u64 size) (d.decimal 8 0)) target) in
        let loss = rate_loss config random in
        let ge = max_double-ge (d.of_u64 send_time) next_at in
        let passed = leaky_loop-Paced config send_time next loss.1 pkts in
        let from_real = Paced-from real next _ _ (later real size) passed in
        elim (Bool-cases (d.lt (backlog_bound config target) (d.sub real (d.of_u64 send_time)))) [
          | inl full ↦ rw full (leaky_loop-Paced config send_time next_at random pkts)
          | inr room ↦ elim (Bool-cases loss.0) [
            | inl lost ↦ rw (room, lost) (Paced-from next_at real _ _ ge from_real)
            | inr kept ↦ rw (room, kept) (real, ge, refl, passed)
          ]
        ]

    module _ {R : Type 0} (ring : Ring R) where
      open ring use {contents, enqueue_bulk, enqueue_all}

      feed-Paced :
          (low level level' : W) (r : Receiver R) (pkts : List Mbuf)
          → Paced target low (contents r.ring) level
          → Paced target level pkts level'
          → Paced target low (contents (feed ring r pkts).ring) level'
      unfolding feed
      feed-Paced low level level' r pkts h k = elim (enqueue_all r.ring pkts) [
        | inl (_, e) ↦ rw e (Paced-append low level level' (contents r.ring) pkts h k)
        | inr (_, e) ↦
            rw e (Paced-to low (contents r.ring) level level' (Paced-ends level pkts level' k) h)
      ]

      sifted_round-Paced :
          (low timestamp : W) (r : RateReceiver W R) (s : Sifted W)
          → Paced target low (contents r.receiver.ring) r.level
          → Paced target r.level s.accepted s.level
          → Paced target low
              (contents (sifted_round ring r timestamp s s.accepted).receiver.ring)
              (sifted_round ring r timestamp s s.accepted).level
      unfolding sifted_round
      sifted_round-Paced low timestamp r s h k = elim (Bool-cases (is_nil s.accepted)) [
        | inl none ↦ rw none (
            Paced-to low (contents r.receiver.ring) r.level s.level
              (Paced-ends r.level s.accepted s.level k) h)
        | inr some ↦ rw some (
            feed-Paced low r.level s.level
              (record r.receiver {
                loss_state = record r.receiver.loss_state { random = s.random };
                freed = r.receiver.freed ++ s.freed;
              })
              s.accepted h k)
      ]

      -- If doubles obey `OrderLaws`: a round of the leaky bucket, whatever it receives, drops and loses,
      -- and whether the ring takes the packets or refuses them, keeps the ring in the order of the
      -- sending times, as doubles, with at least the time between two packets that the first takes
      -- at the target rate, and none of them beyond `next_at`.
      pub leaky_round-Paced :
          (config : MoonemConfig) (delay : ℕ) (low : W) (pkts : List Mbuf) (now : ℕ)
          (r : RateReceiver W R)
          → Paced target low (contents r.receiver.ring) r.level
          → let next = leaky_round ring config delay target pkts now r in
            Paced target low (contents next.receiver.ring) next.level
      unfolding leaky_round
      leaky_round-Paced config delay low [] now r h = h
      leaky_round-Paced config delay low (p ∷ pkts) now r h =
          sifted_round-Paced low r.previous_timestamp r _ h (
            leaky_loop-Paced config (u64 (now + delay)) r.level r.receiver.loss_state.random
              (p ∷ pkts))
