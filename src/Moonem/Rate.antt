-- ===== src/Moonem/Rate.antt =====
-- src/moonem_sw.cpp: the receivers that emulate a rate, with a token bucket and with a leaky bucket.
-- Their loss is uniform whatever the loss type, on one word of state: `loss_state.random` here.
pub mod Tokens
pub mod Feeds
pub mod Order
pub mod Line
pub mod Refill
pub mod Tests
use moon_gen_dpdk_v.Prelude.{
  ℕ, suc, ◌+◌, Bool, true, false, List, [], ◌∷◌, ◌++◌, ltb, if◌then◌else◌, u32, u64, is_nil,
}
use moon_gen_dpdk_v.Double.{Double}
use moon_gen_dpdk_v.Dpdk.{Mbuf}
use moon_gen_dpdk_v.Moonem.Loss.{MoonemConfig, LossState, wyhash64}
use moon_gen_dpdk_v.Moonem.Ring.{Ring}
use moon_gen_dpdk_v.Moonem.Delay.{Receiver, feed, stamp, set_burst_size_dynfield}

-- `uint64_t effective_packet_size = bufs[i]->pkt_len+24`, a 32-bit sum.
abbrev pub effective_packet_size : Mbuf → ℕ
effective_packet_size p = u32 (p.pkt_len + 24)

-- `config.loss > 0 && wyhash64(&loss_state) < config.loss`, with the state behind it.
unfoldable pub rate_loss : MoonemConfig → ℕ → Bool × ℕ
rate_loss config random =
    let (next, x) = wyhash64 random in
    if ltb 0 config.loss then (ltb x config.loss, next) else (false, random)

-- The outcome of the loop over a burst; `level` is `current_tokens` or `next_at`.
pub record Sifted (W : Type 0) : Type 0 where
  pub accepted : List Mbuf
  pub freed : List Mbuf
  pub level : W
  pub random : ℕ

abbrev pub accept : {W : Type 0} → Mbuf → Sifted W → Sifted W
accept p s = record s { accepted = p ∷ s.accepted }

abbrev pub free : {W : Type 0} → Mbuf → Sifted W → Sifted W
free p s = record s { freed = p ∷ s.freed }

-- A receiver with what its bucket keeps between two bursts.
pub record RateReceiver (W R : Type 0) : Type 0 where
  pub receiver : Receiver R
  pub previous_timestamp : W
  pub level : W

module _ {W : Type 0} ⦃d : Double W⦄ where
  -- `config.rate / 8.0d / rte_get_tsc_hz() * 1000000.0d`
  unfoldable pub token_rate : MoonemConfig → ℕ → W
  token_rate config tsc_hz =
      d.mul (d.div (d.div (d.of_u64 config.rate) (d.decimal 8 0)) (d.of_u64 tsc_hz))
        (d.decimal 1_000_000 0)

  -- `MIN` and `MAX` of src/moonem_common.h, on doubles.
  abbrev pub min_double : W → W → W
  min_double a b = if d.lt a b then a else b

  abbrev pub max_double : W → W → W
  max_double a b = if d.lt b a then a else b

  unfoldable pub current_tokens : MoonemConfig → W → ℕ → W → W → W
  current_tokens config rate now previous_timestamp previous_tokens =
      min_double (d.add previous_tokens (d.mul (d.sub (d.of_u64 now) previous_timestamp) rate))
        (d.of_u64 config.capacity)

  -- The loop over a burst of `sw_receiver_loop_rate_token_bucket`.
  unfoldable pub token_loop : MoonemConfig → W → ℕ → List Mbuf → Sifted W
  unfolding rate_loss
  token_loop config tokens random [] = record {
    accepted = [];
    freed = [];
    level = tokens;
    random = random;
  }
  token_loop config tokens random (p ∷ pkts) =
      let size = d.of_u64 (effective_packet_size p) in
      let (lost, random') = rate_loss config random in
      let poor = token_loop config tokens random pkts in
      let paid = token_loop config (d.sub tokens size) random' pkts in
      if d.lt tokens size then free p poor else if lost then free p paid else accept p paid

  unfoldable pub b_p_tsc_target : MoonemConfig → ℕ → W
  b_p_tsc_target config tsc_hz =
      d.div (d.mul (d.of_u64 config.rate) (d.decimal 1_000_000 0)) (d.of_u64 tsc_hz)

  unfoldable pub backlog_bound : MoonemConfig → W → W
  backlog_bound config target = d.div (d.of_u64 config.capacity) (d.div target (d.decimal 8 0))

  -- The loop over a burst of `sw_receiver_loop_rate_leaky_bucket`.
  unfoldable pub leaky_loop : MoonemConfig → W → ℕ → W → ℕ → List Mbuf → Sifted W
  unfolding rate_loss backlog_bound set_burst_size_dynfield
  leaky_loop config target send_time next_at random [] = record {
    accepted = [];
    freed = [];
    level = next_at;
    random = random;
  }
  leaky_loop config target send_time next_at random (p ∷ pkts) =
      let real_send_time = max_double (d.of_u64 send_time) next_at in
      let backlog = d.sub real_send_time (d.of_u64 send_time) in
      let bits = d.mul (d.of_u64 (effective_packet_size p)) (d.decimal 8 0) in
      let (lost, random') = rate_loss config random in
      let full = leaky_loop config target send_time next_at random pkts in
      let passed =
        leaky_loop config target send_time (d.add real_send_time (d.div bits target)) random'
          pkts in
      let stamped = set_burst_size_dynfield (record p { timestamp = d.to_u64 real_send_time }) 1 in
      if d.lt (backlog_bound config target) backlog
      then free p full
      else if lost
      then free p passed
      else accept stamped passed

  module _ {R : Type 0} (ring : Ring R) where
    -- What both receivers do behind the loop: the packets go to the ring, if there are any.
    unfoldable pub sifted_round : RateReceiver W R → W → Sifted W → List Mbuf → RateReceiver W R
    unfolding feed
    sifted_round r timestamp s pkts =
        let kept : Receiver R = record r.receiver {
          loss_state = record r.receiver.loss_state { random = s.random };
          freed = r.receiver.freed ++ s.freed;
        } in
        record {
          receiver = if is_nil pkts then kept else feed ring kept pkts;
          previous_timestamp = timestamp;
          level = s.level;
        }

    -- One round of `sw_receiver_loop_rate_token_bucket`, with the cycle counter's reading.
    unfoldable pub token_round :
        MoonemConfig → ℕ → W → List Mbuf → ℕ → RateReceiver W R → RateReceiver W R
    unfolding sifted_round current_tokens stamp token_loop
    token_round config delay rate pkts now r =
        let tokens = current_tokens config rate now r.previous_timestamp r.level in
        let s = token_loop config tokens r.receiver.loss_state.random pkts in
        if is_nil pkts
        then r
        else sifted_round r (d.of_u64 now) s (stamp (u64 (now + delay)) s.accepted)

    -- One round of `sw_receiver_loop_rate_leaky_bucket`, which keeps no time stamp.
    unfoldable pub leaky_round :
        MoonemConfig → ℕ → W → List Mbuf → ℕ → RateReceiver W R → RateReceiver W R
    unfolding sifted_round leaky_loop
    leaky_round config delay target pkts now r =
        let s =
          leaky_loop config target (u64 (now + delay)) r.level r.receiver.loss_state.random pkts in
        if is_nil pkts then r else sifted_round r r.previous_timestamp s s.accepted
