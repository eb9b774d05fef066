-- ===== src/Moonem/Delay/Whereabouts.antt =====
-- Where the packets of a delay line of src/moonem_sw.cpp are: none is lost from sight, and none is
-- there twice.
use mathlib.Core.Path.{subst}
use mathlib.Core.Option.{some-injective}
use moon_gen_dpdk_v.Prelude.{
  ℕ, ◌+◌, ◌≡◌, refl, ap, inl, inr, none, some, List, [], ◌∷◌, ◌++◌, arith, u64,
}
use moon_gen_dpdk_v.Dpdk.{Mbuf, copies, copies-append}
use moon_gen_dpdk_v.Moonem.Loss.{MoonemConfig, LossState, Applied}
use moon_gen_dpdk_v.Moonem.Loss.Split.{IsSplit, >>=-eq-some}
use moon_gen_dpdk_v.Moonem.Ring.{Ring}
use moon_gen_dpdk_v.Moonem.Delay.{
  Receiver, lose, stamp, feed, receive_round, transmit_round, set_burst_size_dynfield,
}
use moon_gen_dpdk_v.Moonem.Delay.OnTime.{released, released-append}
use moon_gen_dpdk_v.Moonem.Delay.Line.{
  Line, receive, transmit, Reach, here, next, IsSafe, Reach-IsSafe,
}
use moon_gen_dpdk_v.Moonem.Delay.Fifo.{lose-IsSplit, arrived_bursts}
use moon_gen_dpdk_v.Moonem.Delay.Fifo.Refines.{transmit_round_sent}

stamp-copies :
    (id send_time : ℕ) (pkts : List Mbuf) → copies id (stamp send_time pkts) ≡ copies id pkts
unfolding stamp set_burst_size_dynfield
stamp-copies id send_time [] = refl
stamp-copies id send_time (p ∷ pkts) = omega (arith, stamp-copies id send_time pkts)

IsSplit-copies :
    (id : ℕ) (bufs xs ys : List Mbuf)
    → IsSplit bufs xs ys
    → copies id xs + copies id ys ≡ copies id bufs
IsSplit-copies id [] xs ys (e, e') = rw (e, e') (omega arith)
IsSplit-copies id (b ∷ bufs) xs ys (inl (rest, e, h)) =
    rw e (omega (arith, IsSplit-copies id bufs rest ys h))
IsSplit-copies id (b ∷ bufs) xs ys (inr (rest, e, h)) =
    rw e (omega (arith, IsSplit-copies id bufs xs rest h))

pub lose-copies :
    (id : ℕ) (config : MoonemConfig) (pkts : List Mbuf) (s : LossState) (a : Applied)
    → lose config pkts s ≡ some a
    → copies id a.accepted + copies id a.freed ≡ copies id pkts
lose-copies id config pkts s a e =
    IsSplit-copies id pkts a.accepted a.freed (lose-IsSplit config pkts s a e)

-- How many packets with this identity came in.
abbrev pub came_in : ℕ → List (List Mbuf × ℕ) → ℕ
came_in id [] = 0
came_in id ((pkts, now) ∷ bursts) = copies id pkts + came_in id bursts

module _ {R : Type 0} (ring : Ring R) where
  open ring use {contents, enqueue_all}

  -- The packets of a receiver with this identity: in its ring, refused by it, or freed.
  abbrev pub holding : ℕ → Receiver R → ℕ
  holding id r = copies id (contents r.ring) + copies id r.leaked + copies id r.freed

  pub feed-holding :
      (id : ℕ) (r : Receiver R) (pkts : List Mbuf)
      → holding id (feed ring r pkts) ≡ holding id r + copies id pkts
  unfolding feed
  feed-holding id r pkts = elim (enqueue_all r.ring pkts) [
    | inl (b, e) ↦ rw (b, e) (omega (arith, copies-append id (contents r.ring) pkts))
    | inr (b, e) ↦ rw (b, e) (omega (arith, copies-append id r.leaked pkts))
  ]

  -- The packets of a line with this identity: those of its receiver, and those that were sent.
  abbrev pub in_sight : ℕ → Line R → ℕ
  in_sight id s = holding id s.receiver + copies id (released s.sent)

  module _ (config : MoonemConfig) (delay : ℕ) where
    receive_round-holding :
        (id : ℕ) (pkts : List Mbuf) (now : ℕ) (r r' : Receiver R)
        → receive_round ring config delay pkts now r ≡ some r'
        → holding id r' ≡ holding id r + copies id pkts
    unfolding receive_round
    receive_round-holding id [] now r r' e = rw (← some-injective _ _ e) (omega arith)
    receive_round-holding id (p ∷ pkts) now r r' e =
        let (a, e1, e2) = >>=-eq-some (lose config (p ∷ pkts) r.loss_state) _ e in
        let lost : Receiver R = record r {
          loss_state = a.loss_state;
          freed = r.freed ++ a.freed;
        } in
        let stamped = stamp (u64 (now + delay)) a.accepted in
        subst (λ (x : Receiver R). holding id x ≡ holding id r + copies id (p ∷ pkts))
          (some-injective _ _ e2)
          (omega (
            arith,
            feed-holding id lost stamped,
            stamp-copies id (u64 (now + delay)) a.accepted,
            copies-append id r.freed a.freed,
            lose-copies id config (p ∷ pkts) r.loss_state a e1,
          ))

    transmit-in_sight :
        (id : ℕ) (s : Line R) (clock : List ℕ)
        → IsSafe ring config delay s
        → (transmit_round ring s.receiver.ring clock).1.0 ≡ none
        → let (new, _, r') = transmit_round ring s.receiver.ring clock in
          copies id (contents r') + copies id (released (s.sent ++ new))
          ≡ copies id (contents s.receiver.ring) + copies id (released s.sent)
    transmit-in_sight id s clock safe e =
        let r = s.receiver.ring in
        let (new, _, r') = transmit_round ring r clock in
        let (_, in_ring) = transmit_round_sent ring config delay r clock safe.tagged e in
        omega (
          arith,
          ap (copies id) in_ring,
          copies-append id (released new) (contents r'),
          ap (copies id) (released-append s.sent new),
          copies-append id (released s.sent) (released new),
        )

    -- From a safe state on, no packet gets lost from sight, and none turns up twice: whatever the
    -- identity of a packet, it is in the ring, among the sent ones, among those that the loss model
    -- freed, and among those that a full ring refused as often, in all, as at the start and in the
    -- bursts that came in.
    pub Reach-in_sight :
        {s t : Line R} (id : ℕ) (r : Reach ring config delay s t)
        → IsSafe ring config delay s
        → in_sight id t ≡ in_sight id s + came_in id (arrived_bursts ring config delay r)
    Reach-in_sight id here safe = omega arith
    Reach-in_sight id (next {t} r (receive pkts now r' few e)) safe =
        omega (arith, Reach-in_sight id r safe, receive_round-holding id pkts now t.receiver r' e)
    Reach-in_sight id (next {t} r (transmit clock e)) safe = omega (
      arith,
      Reach-in_sight id r safe,
      transmit-in_sight id t clock (Reach-IsSafe ring config delay r safe) e,
    )
