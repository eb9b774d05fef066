-- ===== src/Moonem/Delay/Line.antt =====
-- A delay line of src/moonem_sw.cpp: `sw_receiver_loop_delay` and `sw_transmitter_loop_delay` on the
-- two ends of one ring, as a step relation over the rounds of the two loops.

use mathlib.Core.Path.{subst}
use mathlib.Core.Option.{some-injective}
use moon_gen_dpdk_v.Prelude.{
  ℕ, ◌+◌, ◌≤◌, ◌≡◌, ◌≢◌, inl, inr, false, none, some, List, [], ◌∷◌, ◌++◌, arith, length, All,
  All-append, u64, Bool-cases, length-append,
}
use moon_gen_dpdk_v.Dpdk.{Mbuf}
use moon_gen_dpdk_v.Moonem.Loss.{LossType, no_loss, MoonemConfig, LossState, Applied, burst_size}
use moon_gen_dpdk_v.Moonem.Loss.Split.{IsSplit-length, apply_loss-IsSplit, >>=-eq-some}
use moon_gen_dpdk_v.Moonem.Ring.{Ring}
use moon_gen_dpdk_v.Moonem.Delay.{
  Receiver, Release, lose, is_lossless, stamp, feed, receive_round, release_all, transmit_round,
}
use moon_gen_dpdk_v.Moonem.Delay.Tags.{
  IsTagged, IsTagged-append, IsTagged-back, IsTagged-front, stamp-IsTagged,
}
use moon_gen_dpdk_v.Moonem.Delay.OnTime.{IsOnTime, Releases, release_all-Releases}

pub lossy : (t : LossType) → is_lossless t ≡ false → t ≢ no_loss
lossy t h e = ground arith

-- What a receiver keeps and frees of a burst are its packets.
pub lose-length :
    (config : MoonemConfig) (pkts : List Mbuf) (s : LossState) (a : Applied)
    → lose config pkts s ≡ some a
    → length a.accepted + length a.freed ≡ length pkts
unfolding lose
lose-length config pkts s a e = elim (Bool-cases (is_lossless config.loss_type)) [
  | inl same ↦ rw (← some-injective _ _ (rw same at e)) (omega arith)
  | inr loses ↦
      IsSplit-length pkts a.accepted a.freed
        (apply_loss-IsSplit config pkts s a (lossy config.loss_type loses) (rw loses at e))
]

-- The receiver with its ring, and all that the transmitter has sent.
pub record Line (R : Type 0) : Type 0 where
  pub receiver : Receiver R
  pub sent : List Release

module _ {R : Type 0} (ring : Ring R) (config : MoonemConfig) (delay : ℕ) where
  open ring use {contents, enqueue_all, dequeue_some}

  -- A round of either loop. The transmitter's round is over only if it did not run out of readings.
  pub data Step (s : Line R) : Line R → Type 0 where
    receive :
        (pkts : List Mbuf) (now : ℕ) (r : Receiver R)
        → length pkts ≤ burst_size
        → receive_round ring config delay pkts now s.receiver ≡ some r
        → Step s (record s { receiver = r })
    transmit :
        (clock : List ℕ)
        → (transmit_round ring s.receiver.ring clock).1.0 ≡ none
        → Step s (record {
          receiver = record s.receiver { ring = (transmit_round ring s.receiver.ring clock).2 };
          sent = s.sent ++ (transmit_round ring s.receiver.ring clock).0;
        })

  pub data Reach (s : Line R) : Line R → Type 0 where
    here : Reach s s
    next : {t u : Line R} → Reach s t → Step t u → Reach s u

  pub record IsSafe (s : Line R) : Type 0 where
    pub tagged : IsTagged (contents s.receiver.ring)
    pub on_time : All IsOnTime s.sent

  pub feed-IsTagged :
      (r : Receiver R) (pkts : List Mbuf)
      → IsTagged (contents r.ring)
      → IsTagged pkts
      → IsTagged (contents (feed ring r pkts).ring)
  unfolding feed
  feed-IsTagged r pkts h k = elim (enqueue_all r.ring pkts) [
    | inl (_, e) ↦ rw e (IsTagged-append (contents r.ring) pkts h k)
    | inr (_, e) ↦ rw e h
  ]

  pub transmit-Releases :
      (r : R) (clock : List ℕ)
      → IsTagged (contents r)
      → Releases (ring.dequeue_burst r burst_size).0 [] (
          release_all
            (length (ring.dequeue_burst r burst_size).0)
            (ring.dequeue_burst r burst_size).0
            clock
            [])
  transmit-Releases r clock h =
      let got = (ring.dequeue_burst r burst_size).0 in
      let back = contents (ring.dequeue_burst r burst_size).1 in
      release_all-Releases (length got) got clock [] (omega arith)
        (IsTagged-front got back (rw (dequeue_some r burst_size).0 at h))

  pub transmit-IsSafe :
      (s : Line R) (clock : List ℕ)
      → IsSafe s
      → IsSafe (record {
        receiver = record s.receiver { ring = (transmit_round ring s.receiver.ring clock).2 };
        sent = s.sent ++ (transmit_round ring s.receiver.ring clock).0;
      })
  unfolding transmit_round
  transmit-IsSafe s clock h =
      let r = s.receiver.ring in
      let released = transmit-Releases r clock h.tagged in
      record {
        tagged =
            IsTagged-back (ring.dequeue_burst r burst_size).0 _
              (rw (dequeue_some r burst_size).0 at h.tagged);
        on_time =
            rw released.log (All-append IsOnTime s.sent released.new h.on_time released.on_time);
      }

  pub feed-total :
      (r : Receiver R) (pkts : List Mbuf)
      → length (contents (feed ring r pkts).ring)
          + length (feed ring r pkts).leaked
          + length (feed ring r pkts).freed
        ≡ length (contents r.ring) + length r.leaked + length r.freed + length pkts
  unfolding feed
  feed-total r pkts = elim (enqueue_all r.ring pkts) [
    | inl (b, e) ↦ rw (b, e) (omega (arith, length-append (contents r.ring) pkts))
    | inr (b, e) ↦ rw (b, e) (omega (arith, length-append r.leaked pkts))
  ]

  receive_round-IsTagged :
      (pkts : List Mbuf) (now : ℕ) (r r' : Receiver R)
      → length pkts ≤ burst_size
      → IsTagged (contents r.ring)
      → receive_round ring config delay pkts now r ≡ some r'
      → IsTagged (contents r'.ring)
  unfolding receive_round
  receive_round-IsTagged [] now r r' few h e = rw (← some-injective _ _ e) h
  receive_round-IsTagged (p ∷ pkts) now r r' few h e =
      let (a, e1, e2) = >>=-eq-some (lose config (p ∷ pkts) r.loss_state) _ e in
      let fits = lose-length config (p ∷ pkts) r.loss_state a e1 in
      let lost : Receiver R = record r { loss_state = a.loss_state; freed = r.freed ++ a.freed } in
      let stamped = stamp (u64 (now + delay)) a.accepted in
      subst (λ (x : Receiver R). IsTagged (contents x.ring)) (some-injective _ _ e2)
        (feed-IsTagged lost stamped h (stamp-IsTagged _ a.accepted (omega arith)))

  -- Every round of either loop keeps the tags and the punctuality.
  Step-IsSafe : {s t : Line R} → Step s t → IsSafe s → IsSafe t
  Step-IsSafe {s} (receive pkts now r few e) h = record {
    tagged = receive_round-IsTagged pkts now s.receiver r few h.tagged e;
    on_time = h.on_time;
  }
  Step-IsSafe {s} (transmit clock e) h = transmit-IsSafe s clock h

  -- From a safe state, and however the rounds of the receiver and the transmitter interleave and
  -- whatever the ring refuses, the packets in the ring stay tagged with their bursts, and no
  -- packet is sent before the time that the receiver stamped on it.
  pub Reach-IsSafe : {s t : Line R} → Reach s t → IsSafe s → IsSafe t
  Reach-IsSafe here h = h
  Reach-IsSafe (next r st) h = Step-IsSafe st (Reach-IsSafe r h)
