-- ===== src/Moonem/Delay/Fifo/Refines.antt =====
-- The two loops of src/moonem_sw.cpp against the abstract queue: every round is a move of it.
use mathlib.Core.Path.{subst}
use mathlib.Core.List.{append-nil}
use mathlib.Core.Option.{some-injective}
use moon_gen_dpdk_v.Prelude.{
  All, ℕ, ◌+◌, ◌≡◌, refl, sym, ap, ◌∙◌, ◌⊎◌, inl, inr, none, some, List, [], ◌∷◌, ◌++◌, arith, u64,
}
use moon_gen_dpdk_v.Dpdk.{Mbuf}
use moon_gen_dpdk_v.Moonem.Loss.{MoonemConfig, burst_size}
use moon_gen_dpdk_v.Moonem.Loss.Split.{>>=-eq-some}
use moon_gen_dpdk_v.Moonem.Ring.{Ring}
use moon_gen_dpdk_v.Moonem.Delay.{Receiver, lose, stamp, feed, receive_round, transmit_round}
use moon_gen_dpdk_v.Moonem.Delay.Tags.{IsTagged}
use moon_gen_dpdk_v.Moonem.Delay.OnTime.{released, IsOnTime}
use moon_gen_dpdk_v.Moonem.Delay.Line.{
  Line, receive, transmit, Reach, here, next, IsSafe, Reach-IsSafe, transmit-Releases,
}
use moon_gen_dpdk_v.Moonem.Delay.Fifo.{
  DelayQueue, Moves, stay, arrive, refuse, dues, dues-append, departures, departures-append,
  dues-stamp, lose-IsSplit, deliver_releases, as_queue, arrived_bursts,
}

module _ {R : Type 0} (ring : Ring R) (config : MoonemConfig) (delay : ℕ) where
  open ring use {contents, enqueue_all, dequeue_some}

  -- What the abstract queue has done by now.
  abbrev pub Did : DelayQueue → List (List Mbuf × ℕ) → Line R → Type 0
  Did q bursts s = Moves delay q bursts (as_queue ring config delay s)

  pub feed-dues :
      (r : Receiver R) (pkts : List Mbuf)
      → (dues (contents (feed ring r pkts).ring) ≡ dues (contents r.ring) ++ dues pkts)
        ⊎ (dues (contents (feed ring r pkts).ring) ≡ dues (contents r.ring))
  unfolding feed
  feed-dues r pkts = elim (enqueue_all r.ring pkts) [
    | inl (_, e) ↦ inl (ap dues e ∙ dues-append (contents r.ring) pkts)
    | inr (_, e) ↦ inr (ap dues e)
  ]

  receive-Did :
      (q : DelayQueue) (bursts : List (List Mbuf × ℕ)) (s : Line R) (pkts : List Mbuf) (now : ℕ)
      (r : Receiver R)
      → Did q bursts s
      → receive_round ring config delay pkts now s.receiver ≡ some r
      → Did q ((pkts, now) ∷ bursts) (record s { receiver = r })
  unfolding receive_round
  receive-Did q bursts s [] now r did e =
      rw (← some-injective _ _ e)
        (arrive [] [] [] now did (refl, refl) (sym (append-nil (dues (contents s.receiver.ring)))))
  receive-Did q bursts s (p ∷ pkts) now r did e =
      let before = s.receiver in
      let (a, e1, e2) = >>=-eq-some (lose config (p ∷ pkts) before.loss_state) _ e in
      let lost : Receiver R = record before {
        loss_state = a.loss_state;
        freed = before.freed ++ a.freed;
      } in
      let due = u64 (now + delay) in
      subst (λ (x : Receiver R). Did q ((p ∷ pkts, now) ∷ bursts) (record s { receiver = x }))
        (some-injective _ _ e2)
        (elim (feed-dues lost (stamp due a.accepted)) [
          | inl taken ↦
              arrive (p ∷ pkts) a.accepted a.freed now did
                (lose-IsSplit config (p ∷ pkts) before.loss_state a e1)
                (taken ∙ ap (λ ts. dues (contents before.ring) ++ ts) (dues-stamp due a.accepted))
          | inr refused ↦
              subst
                (λ ts.
                  Moves delay q ((p ∷ pkts, now) ∷ bursts)
                    (record { waiting = ts; delivered = departures s.sent }))
                (sym refused) (refuse (p ∷ pkts) now did)
        ])

  -- A round that is over has sent, in order and on time, all that it took out of the ring.
  pub transmit_round_sent :
      (r : R) (clock : List ℕ)
      → IsTagged (contents r)
      → (transmit_round ring r clock).1.0 ≡ none
      → let new = (transmit_round ring r clock).0 in
        All IsOnTime new × (contents r ≡ released new ++ contents (transmit_round ring r clock).2)
  unfolding transmit_round
  transmit_round_sent r clock tags e =
      let rel = transmit-Releases ring config delay r clock tags in
      let all_out : rel.left ≡ [] = ground arith in
      let back = contents (ring.dequeue_burst r burst_size).1 in
      rw rel.log (
        rel.on_time,
        (dequeue_some r burst_size).0
            ∙ ap (λ ps. ps ++ back)
                (rel.in_order
                  ∙ ap (λ ps. released rel.new ++ ps) all_out
                  ∙ append-nil (released rel.new)),
      )

  pub transmit-Did :
      (q : DelayQueue) (bursts : List (List Mbuf × ℕ)) (s : Line R) (clock : List ℕ)
      → Did q bursts s
      → IsSafe ring config delay s
      → (transmit_round ring s.receiver.ring clock).1.0 ≡ none
      → Did q bursts (record {
        receiver = record s.receiver { ring = (transmit_round ring s.receiver.ring clock).2 };
        sent = s.sent ++ (transmit_round ring s.receiver.ring clock).0;
      })
  transmit-Did q bursts s clock did safe e =
      let r = s.receiver.ring in
      let (new, _, r') = transmit_round ring r clock in
      let (on_time, in_ring) = transmit_round_sent r clock safe.tagged e in
      let split = ap dues in_ring ∙ dues-append (released new) (contents r') in
      rw (departures-append s.sent new) (
        deliver_releases delay new (dues (contents r')) (departures s.sent) on_time (
          subst
            (λ ts. Moves delay q bursts (record { waiting = ts; delivered = departures s.sent }))
            split did))

  -- The delay line refines an abstract queue: from a safe state, and however the rounds of the two
  -- loops interleave, all that they did is explained by moves of the queue on the same bursts and
  -- readings. So what survives the loss model waits in the order of its arrival, is due `delay`
  -- cycles after the reading of its burst, a burst that the ring refuses is refused as a whole,
  -- and packets leave from the front, one by one and none before it is due.
  pub Reach-Moves :
      {s t : Line R} (r : Reach ring config delay s t)
      → IsSafe ring config delay s
      → Moves delay
          (as_queue ring config delay s)
          (arrived_bursts ring config delay r)
          (as_queue ring config delay t)
  Reach-Moves here safe = stay
  Reach-Moves (next {t} r (receive pkts now r' few e)) safe =
      receive-Did _ (arrived_bursts ring config delay r) t pkts now r' (Reach-Moves r safe) e
  Reach-Moves (next {t} r (transmit clock e)) safe =
      transmit-Did _ (arrived_bursts ring config delay r) t clock (Reach-Moves r safe)
        (Reach-IsSafe ring config delay r safe) e
