-- ===== src/Moonem/Hardware.antt =====
-- src/moonem.cpp: the receivers that work on the hardware's time stamps, in nanoseconds.
pub mod Whereabouts
pub mod Conformance
pub mod Tests
use moon_gen_dpdk_v.Prelude.{
  ℕ, ◌+◌, ◌*◌, Bool, Option, some, List, [], ◌∷◌, ◌++◌, if◌then◌else◌, u32, u64, is_nil,
}
use moon_gen_dpdk_v.Double.{Double}
use moon_gen_dpdk_v.Dpdk.{Mbuf}
use moon_gen_dpdk_v.Moonem.Loss.{MoonemConfig, LossState, Applied, ◌>>=◌}
use moon_gen_dpdk_v.Moonem.Ring.{Ring}
use moon_gen_dpdk_v.Moonem.Delay.{Receiver, feed, lose}
use moon_gen_dpdk_v.Moonem.Rate.{min_double, max_double, RateReceiver, effective_packet_size}

-- `set_timestamp_dynfield(p, get_timestamp_dynfield(p) + config.delay)`
abbrev pub delayed : MoonemConfig → Mbuf → Mbuf
delayed config p = record p { timestamp = u64 (p.timestamp + config.delay) }

unfoldable pub delay_all : MoonemConfig → List Mbuf → List Mbuf
delay_all config [] = []
delay_all config (p ∷ pkts) = delayed config p ∷ delay_all config pkts

-- The packets that a bucket let through and those that it freed, with its state behind the burst.
pub record Passed (W : Type 0) : Type 0 where
  pub accepted : List Mbuf
  pub freed : List Mbuf
  pub previous_timestamp : W
  pub level : W

abbrev pub pass : {W : Type 0} → Mbuf → Passed W → Passed W
pass p s = record s { accepted = p ∷ s.accepted }

abbrev pub refuse : {W : Type 0} → Mbuf → Passed W → Passed W
refuse p s = record s { freed = p ∷ s.freed }

module _ {R : Type 0} (ring : Ring R) where
  -- The end of each round: loss, and the way into the ring, if there are packets.
  unfoldable pub deliver : MoonemConfig → List Mbuf → Receiver R → Option (Receiver R)
  unfolding lose feed
  deliver config pkts r =
      if is_nil pkts
      then some r
      else (lose config pkts r.loss_state >>= λ a. some (
          feed ring (record r { loss_state = a.loss_state; freed = r.freed ++ a.freed })
            a.accepted))

  -- One round of `receiver_loop_delay`.
  unfoldable pub hardware_delay_round : MoonemConfig → List Mbuf → Receiver R → Option (Receiver R)
  unfolding deliver delay_all
  hardware_delay_round config pkts r = deliver config (delay_all config pkts) r

module _ {W : Type 0} ⦃d : Double W⦄ where
  -- `config.rate / 8000.0d`, `config.rate / 1000.0d` and the bound on the backlog.
  unfoldable pub token_rate_ns : MoonemConfig → W
  token_rate_ns config = d.div (d.of_u64 config.rate) (d.decimal 8000 0)

  unfoldable pub b_p_ns_target : MoonemConfig → W
  b_p_ns_target config = d.div (d.of_u64 config.rate) (d.decimal 1000 0)

  unfoldable pub backlog_bound_ns : MoonemConfig → W
  unfolding b_p_ns_target
  backlog_bound_ns config =
      d.div (d.of_u64 config.capacity) (d.div (b_p_ns_target config) (d.decimal 8 0))

  -- The loop over a burst of `receiver_loop_rate_leaky_bucket`; `level` is `next_at`.
  unfoldable pub leaky_pass : MoonemConfig → W → W → List Mbuf → Passed W
  unfolding backlog_bound_ns
  leaky_pass config timestamp next_at [] = record {
    accepted = [];
    freed = [];
    previous_timestamp = timestamp;
    level = next_at;
  }
  leaky_pass config timestamp next_at (p ∷ pkts) =
      let send_time = d.of_u64 (u64 (p.timestamp + config.delay)) in
      let real_send_time = max_double send_time next_at in
      let backlog = d.sub real_send_time send_time in
      let bits = d.of_u64 (u32 (effective_packet_size p * 8)) in
      let full = leaky_pass config timestamp next_at pkts in
      let free =
        leaky_pass config timestamp (d.add real_send_time (d.div bits (b_p_ns_target config)))
          pkts in
      if d.lt (backlog_bound_ns config) backlog
      then refuse p full
      else pass (record p { timestamp = d.to_u64 real_send_time }) free

  -- The loops over a burst of the two token buckets; `out` is what becomes of a packet that passes.
  -- A packet that does not pass leaves the bucket's state as it was.
  unfoldable pub token_pass : (Mbuf → Mbuf) → MoonemConfig → W → W → List Mbuf → Passed W
  unfolding token_rate_ns
  token_pass out config timestamp tokens [] = record {
    accepted = [];
    freed = [];
    previous_timestamp = timestamp;
    level = tokens;
  }
  token_pass out config timestamp tokens (p ∷ pkts) =
      let recv_time = d.of_u64 p.timestamp in
      let current_tokens =
        min_double (d.add tokens (d.mul (d.sub recv_time timestamp) (token_rate_ns config)))
          (d.of_u64 config.capacity) in
      let size = d.of_u64 (effective_packet_size p) in
      let paid = token_pass out config recv_time (d.sub current_tokens size) pkts in
      let unpaid = token_pass out config timestamp tokens pkts in
      if d.lt size current_tokens then pass (out p) paid else refuse p unpaid

  module _ {R : Type 0} (ring : Ring R) where
    unfoldable pub deliver_passed :
        MoonemConfig → Passed W → RateReceiver W R → Option (RateReceiver W R)
    unfolding deliver
    deliver_passed config s r =
        deliver ring config s.accepted (record r.receiver { freed = r.receiver.freed ++ s.freed })
        >>= λ receiver. some (record {
          receiver = receiver;
          previous_timestamp = s.previous_timestamp;
          level = s.level;
        })

    -- One round of `receiver_loop_rate_leaky_bucket`.
    unfoldable pub hardware_leaky_round :
        MoonemConfig → List Mbuf → RateReceiver W R → Option (RateReceiver W R)
    unfolding deliver_passed leaky_pass
    hardware_leaky_round config pkts r =
        deliver_passed config (leaky_pass config r.previous_timestamp r.level pkts) r

    -- One round of `receiver_loop_rate_token_bucket`.
    unfoldable pub hardware_token_round :
        MoonemConfig → List Mbuf → RateReceiver W R → Option (RateReceiver W R)
    unfolding deliver_passed token_pass
    hardware_token_round config pkts r =
        deliver_passed config (token_pass (delayed config) config r.previous_timestamp r.level pkts)
          r

  -- One round of `receiver_loop_rate_token_bucket_fwd`: the bucket's verdicts, and what the loss
  -- model leaves to be sent.
  unfoldable pub hardware_forward_round :
      MoonemConfig → LossState → W → W → List Mbuf → Option (Passed W × Applied)
  unfolding token_pass lose
  hardware_forward_round config loss_state timestamp tokens pkts =
      let s = token_pass (λ p. p) config timestamp tokens pkts in
      if is_nil s.accepted
      then some (s, record { accepted = []; freed = []; loss_state = loss_state })
      else (lose config s.accepted loss_state >>= λ a. some (s, a))
