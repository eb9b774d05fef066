-- ===== src/Moonem/Delay.antt =====
-- src/moonem_sw.cpp: the delay receiver and the transmitter that release bursts by the cycle
-- counter, and the plain forwarder.
pub mod Tags
pub mod OnTime
pub mod Line
pub mod Fifo
pub mod Whereabouts
pub mod Liveness
pub mod Tests
use moon_gen_dpdk_v.Prelude.{
  ℕ, zero, suc, ◌+◌, Bool, true, false, Option, none, some, List, [], ◌∷◌, ◌++◌, ltb, if◌then◌else◌,
  length, take, drop, u32, u64, is_nil,
}
use moon_gen_dpdk_v.Double.{Double}
use moon_gen_dpdk_v.Dpdk.{Mbuf}
use moon_gen_dpdk_v.Moonem.Loss.{
  LossType, no_loss, uniform, ge, netem, MoonemConfig, LossState, Applied, apply_loss, burst_size,
  ◌>>=◌,
}
use moon_gen_dpdk_v.Moonem.Ring.{Ring}

unfoldable pub get_burst_size_dynfield : Mbuf → ℕ
get_burst_size_dynfield p = p.burst_size

-- The field is a `uint32_t`.
unfoldable pub set_burst_size_dynfield : Mbuf → ℕ → Mbuf
set_burst_size_dynfield p n = record p { burst_size = u32 n }

-- `rte_mbuf_dynfield_lookup`, and `rte_mbuf_dynfield_register` if the lookup fails. A negative
-- offset is `none`.
unfoldable pub init_dynfield_burst_size_offset :
    {F : Type 0} → (F → Option ℕ) → (F → Option ℕ × F) → F → Option ℕ × F
init_dynfield_burst_size_offset lookup register fields = elim (lookup fields) [
  | none ↦ register fields
  | some offset ↦ (some offset, fields)
]

abbrev pub is_lossless : LossType → Bool
is_lossless no_loss = true
is_lossless _ = false

-- `if(config.loss_type != NONE) applyLoss(...)`
unfoldable pub lose : MoonemConfig → List Mbuf → LossState → Option Applied
lose config pkts s =
    if is_lossless config.loss_type
    then some (record { accepted = pkts; freed = []; loss_state = s })
    else apply_loss config pkts s

unfoldable pub first_loss_state : MoonemConfig → LossState
first_loss_state config = record { random = config.loss_seed; state = 0 }

-- One round of `sw_receiver_loop_fwd`: what it sends, and the rest of its state.
unfoldable pub forward_round : MoonemConfig → LossState → List Mbuf → Option Applied
unfolding lose
forward_round config s pkts =
    if is_nil pkts
    then some (record { accepted = []; freed = []; loss_state = s })
    else lose config pkts s

-- `uint64_t delay = rte_get_tsc_hz() * (config.delay / 1000000000.0)`
unfoldable pub delay_cycles : (W : Type 0) → ⦃d : Double W⦄ → ℕ → ℕ → ℕ
delay_cycles W ⦃d⦄ tsc_hz delay =
    d.to_u64 (d.mul (d.of_u64 tsc_hz) (d.div (d.of_u64 delay) (d.decimal 1_000_000_000 0)))

-- The loop that stamps the packets: the time to send, and how many packets of the burst are left.
unfoldable pub stamp : ℕ → List Mbuf → List Mbuf
unfolding set_burst_size_dynfield
stamp send_time [] = []
stamp send_time (p ∷ pkts) =
    set_burst_size_dynfield (record p { timestamp = send_time }) (length (p ∷ pkts))
    ∷ stamp send_time pkts

-- The state of a receiver that feeds a ring. `leaked` are the packets of a bulk enqueue that the
-- ring refused: the result is not looked at.
pub record Receiver (R : Type 0) : Type 0 where
  pub loss_state : LossState
  pub ring : R
  pub freed : List Mbuf
  pub leaked : List Mbuf

module _ {R : Type 0} (ring : Ring R) where
  open ring use {enqueue_bulk, dequeue_burst}

  unfoldable pub feed : Receiver R → List Mbuf → Receiver R
  feed r pkts =
      let (taken, ring') = enqueue_bulk r.ring pkts in
      record r { ring = ring'; leaked = if taken then r.leaked else r.leaked ++ pkts }

  -- One round of `sw_receiver_loop_delay`: what `rte_eth_rx_burst` gave, and the cycle counter.
  unfoldable pub receive_round : MoonemConfig → ℕ → List Mbuf → ℕ → Receiver R → Option (Receiver R)
  unfolding lose stamp feed
  receive_round config delay pkts now r =
      if is_nil pkts
      then some r
      else (lose config pkts r.loss_state >>= λ a. some (
          feed (record r { loss_state = a.loss_state; freed = r.freed ++ a.freed })
            (stamp (u64 (now + delay)) a.accepted)))

-- `while(get_timestamp_dynfield(p) > rte_rdtsc());` over the readings of the counter: the first
-- reading that ends the wait, and the later ones.
unfoldable pub wait_until : ℕ → List ℕ → Option (ℕ × List ℕ)
wait_until time [] = none
wait_until time (now ∷ later) =
    let rest = wait_until time later in if ltb now time then rest else some (now, later)

-- `MIN(a, b)` of src/moonem_common.h.
abbrev pub min_macro : ℕ → ℕ → ℕ
min_macro a b = if ltb a b then a else b

-- A burst as it was sent: the reading that released it, and its packets.
pub record Release : Type 0 where
  pub at : ℕ
  pub pkts : List Mbuf

pub data Stopped : Type 0 where
  waiting : Stopped  -- the readings end while the counter is awaited
  stuck : Stopped  -- the fuel ends

-- The `for` loop of `sw_transmitter_loop_delay`, on the packets from index `i` on. A burst size of 0
-- sends nothing and moves `i` by `0 - 1 + 1`.
unfoldable pub release_all :
    ℕ → List Mbuf → List ℕ → List Release → List Release × (Option Stopped × List ℕ)
unfolding wait_until get_burst_size_dynfield
release_all fuel [] clock sent = (sent, (none, clock))
release_all zero (p ∷ pkts) clock sent = (sent, (some stuck, clock))
release_all (suc fuel) (p ∷ pkts) clock sent = elim (wait_until p.timestamp clock) [
  | none ↦ (sent, (some waiting, []))
  | some (now, later) ↦
      let n = min_macro (get_burst_size_dynfield p) (length (p ∷ pkts)) in
      release_all fuel (drop n (p ∷ pkts)) later
        (sent ++ (record { at = now; pkts = take n (p ∷ pkts) } ∷ []))
]

module _ {R : Type 0} (ring : Ring R) where
  -- One round of `sw_transmitter_loop_delay`. A burst of n packets takes at most n steps.
  unfoldable pub transmit_round : R → List ℕ → List Release × (Option Stopped × List ℕ) × R
  transmit_round r clock =
      let (pkts, r') = ring.dequeue_burst r burst_size in
      let (sent, rest) = release_all (length pkts) pkts clock [] in (sent, rest, r')
