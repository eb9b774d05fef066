-- ===== src/Limiter.antt =====
-- src/software-rate-limiter.cpp: the three loops that send packets at the cycles that they compute.
-- What the loops ask of their surroundings is explicit: the readings of the cycle counter, the
-- answers of `rte_eth_tx_burst`, and what `is_running` and the control block say in each round.
-- `ring_dequeue` of libmoon is a parameter; its result is the number of packets that it stored.
pub mod Loops
pub mod Rule
pub mod Account
pub mod Finished
pub mod Runs
pub mod Schedule
pub mod Spacing
pub mod Cbr
pub mod Batch
pub mod Tests
use moon_gen_dpdk_v.Prelude.{
  ℕ, zero, suc, ◌+◌, ◌-◌, ◌*◌, ◌/◌, Bool, true, false, not, ◌&&◌, Option, none, some, List, [], ◌∷◌,
  ◌++◌, ltb, leb, if◌then◌else◌, length, u32, u64, sub_u64, is_nil,
}
use moon_gen_dpdk_v.Prelude.Int.{ℤ, pos, negsuc, ltb_ℤ, signed64, to_word}
use moon_gen_dpdk_v.Double.{Double}
use moon_gen_dpdk_v.Dpdk.{Mbuf}
use moon_gen_dpdk_v.Moonem.Delay.{wait_until}

abbrev pub batch_size : ℕ
batch_size = 64

-- How a part of a loop ends.
pub data Ending : Type 0 where
  going : Ending  -- it goes on behind it
  returned : Ending  -- the function returned
  cut : Ending  -- the readings end here, in the middle of a wait
  stale : Ending  -- it would go on to a pointer that this round's `ring_dequeue` did not store
  crashed : Ending  -- it divides by zero

-- An answer of `rte_eth_tx_burst` for one packet; a refusal with what `ctl->running()` says then.
pub data Attempt : Type 0 where
  taken : Attempt
  refused : Bool → Attempt

-- A packet that was handed to the NIC, and the reading of the counter that ended the wait for it.
pub record Sent : Type 0 where
  pub at : ℕ
  pub pkt : Mbuf

pub record World : Type 0 where
  pub clock : List ℕ
  pub attempts : List Attempt
  pub sent : List Sent

-- `while (rte_eth_tx_burst(device, queue, bufs + i, 1) == 0)`: whether the packet was taken, and the
-- later answers; `false` is the return from the loop.
unfoldable pub transmit : List Attempt → Option (Bool × List Attempt)
transmit [] = none
transmit (taken ∷ later) = some (true, later)
transmit (refused running ∷ later) =
    let rest = transmit later in if running then rest else some (false, later)

-- What a loop computes with: the next cycle to send at, and the state of its random engine.
pub record Pacing (G : Type 0) : Type 0 where
  pub next_send : ℕ
  pub random : G

-- The inner loop over a batch. `due` is the cycle that a packet waits for, `advance` the update of
-- the locals.
module _ {G : Type 0} (due : Pacing G → Mbuf → ℕ) (advance : Pacing G → Mbuf → Pacing G) where
  unfoldable pub send_all : Pacing G → List Mbuf → World → Ending × Pacing G × World
  unfolding transmit wait_until
  send_all s [] w = (going, s, w)
  send_all s (p ∷ pkts) w = elim (wait_until (due s p) w.clock) [
    | none ↦ (cut, s, record w { clock = [] })
    | some (now, clock) ↦ elim (transmit w.attempts) [
      | none ↦ (cut, advance s p, record w { clock = clock; attempts = [] })
      | some (false, attempts) ↦
          (returned, advance s p, record w { clock = clock; attempts = attempts })
      | some (true, attempts) ↦ send_all (advance s p) pkts (record {
        clock = clock;
        attempts = attempts;
        sent = w.sent ++ (record { at = now; pkt = p } ∷ []);
      })
    ]
  ]

-- The loop's state with the ring that it empties and the `count` of its control block.
pub record Limiter (R G : Type 0) : Type 0 where
  pub ring : R
  pub pacing : Pacing G
  pub world : World
  pub count : ℕ

-- `ctl->count_packets(n)`, behind a batch that was sent.
abbrev pub counted : Ending → ℕ → ℕ → ℕ
counted going n count = u64 (count + n)
counted _ n count = count

-- The inner loop's bound is `wanted`, and `n` packets were stored.
abbrev pub beyond : ℕ → ℕ → Ending → Ending
beyond n wanted going = if ltb n wanted then stale else going
beyond n wanted returned = returned
beyond n wanted cut = cut
beyond n wanted stale = stale
beyond n wanted crashed = crashed

-- The end of a round with the packets `pkts`; `wanted` is the bound of the inner loop.
module _ {R G : Type 0} (due : Pacing G → Mbuf → ℕ) (advance : Pacing G → Mbuf → Pacing G) where
  unfoldable pub send_or_stop : ℕ → List Mbuf → Bool → Limiter R G → Ending × Limiter R G
  unfolding send_all
  send_or_stop wanted pkts ctl_running l =
      let (ending, s, w) = send_all due advance l.pacing pkts l.world in
      let ending' = beyond (length pkts) wanted ending in
      if is_nil pkts then (if ctl_running then going else returned, l) else (
        ending',
        record l { pacing = s; world = w; count = counted ending' (length pkts) l.count },
      )

-- What `is_running(0)` and `ctl->running()` say in a round.
pub record Poll : Type 0 where
  pub is_running : Bool
  pub ctl_running : Bool

-- `while (libmoon::is_running(0))`, over the rounds that are polled for.
module _ {L : Type 0} (round : Bool → L → Ending × L) where
  abbrev pub continue : Ending × L → (L → Ending × L) → Ending × L
  continue (going, l) k = k l
  continue (returned, l) k = (returned, l)
  continue (cut, l) k = (cut, l)
  continue (stale, l) k = (stale, l)
  continue (crashed, l) k = (crashed, l)

  unfoldable pub loop : List Poll → L → Ending × L
  loop [] l = (cut, l)
  loop (p ∷ polls) l =
      let later = continue (round p.ctl_running l) (loop polls) in
      if p.is_running then later else (returned, l)
