-- ===== src/Moonem/Hardware/Whereabouts.antt =====
-- Where the packets of a burst end up in src/moonem.cpp.
use mathlib.Core.Option.{some-injective}
use moon_gen_dpdk_v.Prelude.{
  ℕ, ◌+◌, ◌*◌, ◌≡◌, refl, some, List, [], ◌∷◌, ◌++◌, arith, Bool-cases, inl, inr, u64, u32,
}
use moon_gen_dpdk_v.Double.{Double}
use moon_gen_dpdk_v.Dpdk.{Mbuf, copies, copies-append}
use moon_gen_dpdk_v.Moonem.Loss.{MoonemConfig}
use moon_gen_dpdk_v.Moonem.Loss.Split.{>>=-eq-some}
use moon_gen_dpdk_v.Moonem.Ring.{Ring}
use moon_gen_dpdk_v.Moonem.Delay.{Receiver, lose}
use moon_gen_dpdk_v.Moonem.Delay.Whereabouts.{holding, feed-holding, lose-copies}
use moon_gen_dpdk_v.Moonem.Rate.{min_double, max_double, RateReceiver, effective_packet_size}
use moon_gen_dpdk_v.Moonem.Hardware.{
  delayed, delay_all, Passed, token_rate_ns, b_p_ns_target, backlog_bound_ns, leaky_pass,
  token_pass, deliver, deliver_passed, hardware_delay_round, hardware_leaky_round,
  hardware_token_round,
}

delay_all-copies :
    (id : ℕ) (config : MoonemConfig) (pkts : List Mbuf)
    → copies id (delay_all config pkts) ≡ copies id pkts
unfolding delay_all
delay_all-copies id config [] = refl
delay_all-copies id config (p ∷ pkts) = omega (arith, delay_all-copies id config pkts)

module _ (id : ℕ) (config : MoonemConfig) {R : Type 0} (ring : Ring R) where
  deliver-holding :
      (pkts : List Mbuf) (r r' : Receiver R)
      → deliver ring config pkts r ≡ some r'
      → holding ring id r' ≡ holding ring id r + copies id pkts
  unfolding deliver
  deliver-holding [] r r' e = rw (← some-injective _ _ e) (omega arith)
  deliver-holding (p ∷ pkts) r r' e =
      let (a, e1, e2) = >>=-eq-some (lose config (p ∷ pkts) r.loss_state) _ e in
      let lost : Receiver R = record r { loss_state = a.loss_state; freed = r.freed ++ a.freed } in
      rw (← some-injective _ _ e2) (
        omega (
          arith,
          feed-holding ring id lost a.accepted,
          lose-copies id config (p ∷ pkts) r.loss_state a e1,
          copies-append id r.freed a.freed,
        ))

  -- A round of `receiver_loop_delay` that reads in bounds leaves each packet of its burst in the
  -- ring, freed by the loss model, or refused by a full ring.
  pub hardware_delay_round-holding :
      (pkts : List Mbuf) (r r' : Receiver R)
      → hardware_delay_round ring config pkts r ≡ some r'
      → holding ring id r' ≡ holding ring id r + copies id pkts
  unfolding hardware_delay_round
  hardware_delay_round-holding pkts r r' e =
      omega (arith, deliver-holding (delay_all config pkts) r r' e, delay_all-copies id config pkts)

abbrev IsAll : {W : Type 0} → ℕ → List Mbuf → Passed W → Type 0
IsAll id pkts s = copies id s.accepted + copies id s.freed ≡ copies id pkts

module _ (id : ℕ) {W : Type 0} ⦃d : Double W⦄ (config : MoonemConfig) where
  leaky_pass-IsAll :
      (timestamp next_at : W) (pkts : List Mbuf)
      → IsAll id pkts (leaky_pass config timestamp next_at pkts)
  unfolding leaky_pass
  leaky_pass-IsAll timestamp next_at [] = omega arith
  leaky_pass-IsAll timestamp next_at (p ∷ pkts) =
      let send_time = d.of_u64 (u64 (p.timestamp + config.delay)) in
      let real = max_double send_time next_at in
      let bits = d.of_u64 (u32 (effective_packet_size p * 8)) in
      let full = leaky_pass-IsAll timestamp next_at pkts in
      let free = leaky_pass-IsAll timestamp (d.add real (d.div bits (b_p_ns_target config))) pkts in
      elim (Bool-cases (d.lt (backlog_bound_ns config) (d.sub real send_time))) [
        | inl e ↦ rw e (omega arith)
        | inr e ↦ rw e (omega arith)
      ]

  token_pass-IsAll :
      (timestamp tokens : W) (pkts : List Mbuf)
      → let out = delayed config in IsAll id pkts (token_pass out config timestamp tokens pkts)
  unfolding token_pass
  token_pass-IsAll timestamp tokens [] = omega arith
  token_pass-IsAll timestamp tokens (p ∷ pkts) =
      let recv_time = d.of_u64 p.timestamp in
      let current =
        min_double (d.add tokens (d.mul (d.sub recv_time timestamp) (token_rate_ns config)))
          (d.of_u64 config.capacity) in
      let size = d.of_u64 (effective_packet_size p) in
      let paid = token_pass-IsAll recv_time (d.sub current size) pkts in
      let unpaid = token_pass-IsAll timestamp tokens pkts in
      elim (Bool-cases (d.lt size current)) [
        | inl e ↦ rw e (omega arith)
        | inr e ↦ rw e (omega arith)
      ]

  module _ {R : Type 0} (ring : Ring R) where
    deliver_passed-holding :
        (pkts : List Mbuf) (s : Passed W) (r r' : RateReceiver W R)
        → IsAll id pkts s
        → deliver_passed ring config s r ≡ some r'
        → holding ring id r'.receiver ≡ holding ring id r.receiver + copies id pkts
    unfolding deliver_passed
    deliver_passed-holding pkts s r r' all e =
        let freed : Receiver R = record r.receiver { freed = r.receiver.freed ++ s.freed } in
        let (receiver, e1, e2) = >>=-eq-some (deliver ring config s.accepted freed) _ e in
        rw (← some-injective _ _ e2) (
          omega (
            arith,
            deliver-holding id config ring s.accepted freed receiver e1,
            copies-append id r.receiver.freed s.freed,
          ))

    -- A round of the leaky bucket of `receiver_loop_rate_leaky_bucket` in src/moonem.cpp that reads in
    -- bounds loses no packet and none turns up twice: whatever the identity of a packet, it is in the
    -- ring, among those freed by the bucket or the loss model, and among those that a full ring
    -- refused as often, in all, as before the round and in its burst.
    pub hardware_leaky_round-holding :
        (pkts : List Mbuf) (r r' : RateReceiver W R)
        → hardware_leaky_round ring config pkts r ≡ some r'
        → holding ring id r'.receiver ≡ holding ring id r.receiver + copies id pkts
    unfolding hardware_leaky_round
    hardware_leaky_round-holding pkts r r' e =
        deliver_passed-holding pkts _ r r' (leaky_pass-IsAll r.previous_timestamp r.level pkts) e

    -- A round of the token bucket of `receiver_loop_rate_token_bucket` in src/moonem.cpp that reads in
    -- bounds leaves each packet of its burst in the ring, freed by the bucket or the loss model, or
    -- refused by a full ring.
    pub hardware_token_round-holding :
        (pkts : List Mbuf) (r r' : RateReceiver W R)
        → hardware_token_round ring config pkts r ≡ some r'
        → holding ring id r'.receiver ≡ holding ring id r.receiver + copies id pkts
    unfolding hardware_token_round
    hardware_token_round-holding pkts r r' e =
        deliver_passed-holding pkts _ r r' (token_pass-IsAll r.previous_timestamp r.level pkts) e
