-- ===== src/Moonem/Rate/Line.antt =====
-- The token bucket of src/moonem_sw.cpp and the transmitter on the two ends of one ring, as a step
-- relation over the rounds of the two loops, against the abstract queue.
pub mod Conformance
pub mod Tests
use mathlib.Core.Path.{subst}
use mathlib.Core.List.{append-nil}
use moon_gen_dpdk_v.Prelude.{
  ℕ, ◌+◌, ◌^◌, ◌≤◌, ◌<◌, ◌≡◌, refl, sym, ap, ◌∙◌, ◌⊎◌, inl, inr, none, List, [], ◌∷◌, ◌++◌, arith,
  length, u64, Bool-cases,
}
use moon_gen_dpdk_v.Double.{Double}
use moon_gen_dpdk_v.Dpdk.{Mbuf}
use moon_gen_dpdk_v.Moonem.Loss.{MoonemConfig, burst_size}
use moon_gen_dpdk_v.Moonem.Loss.Split.{IsSplit}
use moon_gen_dpdk_v.Moonem.Ring.{Ring}
use moon_gen_dpdk_v.Moonem.Delay.{Receiver, Release, stamp, transmit_round}
use moon_gen_dpdk_v.Moonem.Delay.Line.{Line, IsSafe, transmit-IsSafe}
use moon_gen_dpdk_v.Moonem.Delay.Fifo.{
  DelayQueue, Moves, stay, arrive, refuse, dues, dues-stamp, departures, as_queue,
}
use moon_gen_dpdk_v.Moonem.Delay.Fifo.Refines.{feed-dues, transmit-Did}
use moon_gen_dpdk_v.Moonem.Rate.{
  Sifted, RateReceiver, rate_loss, effective_packet_size, current_tokens, token_loop, sifted_round,
  token_round,
}
use moon_gen_dpdk_v.Moonem.Rate.Feeds.{token_round-Fed}

-- The receiver with its ring and its bucket, and all that the transmitter has sent.
pub record TokenLine (W R : Type 0) : Type 0 where
  pub bucket : RateReceiver W R
  pub sent : List Release

-- What the line is to its transmitter.
abbrev pub as_line : {W R : Type 0} → TokenLine W R → Line R
as_line s = record { receiver = s.bucket.receiver; sent = s.sent }

module _ {W R : Type 0} ⦃d : Double W⦄ (ring : Ring R) (config : MoonemConfig) (delay : ℕ)
    (rate : W) where
  open ring use {contents}

  -- A round of either loop. The transmitter's round is over only if it did not run out of readings.
  pub data Step (s : TokenLine W R) : TokenLine W R → Type 0 where
    receive :
        (pkts : List Mbuf) (now : ℕ)
        → length pkts ≤ burst_size
        → Step s (record s { bucket = token_round ring config delay rate pkts now s.bucket })
    transmit :
        (clock : List ℕ)
        → (transmit_round ring s.bucket.receiver.ring clock).1.0 ≡ none
        → Step s (record {
          bucket = record s.bucket {
            receiver = record s.bucket.receiver {
              ring = (transmit_round ring s.bucket.receiver.ring clock).2;
            };
          };
          sent = s.sent ++ (transmit_round ring s.bucket.receiver.ring clock).0;
        })

  pub data Reach (s : TokenLine W R) : TokenLine W R → Type 0 where
    here : Reach s s
    next : {t u : TokenLine W R} → Reach s t → Step t u → Reach s u

  -- The bursts that came in, newest first, with the readings of the cycle counter.
  abbrev pub arrived_bursts : {s t : TokenLine W R} → Reach s t → List (List Mbuf × ℕ)
  arrived_bursts here = []
  arrived_bursts (next r (receive pkts now few)) = (pkts, now) ∷ arrived_bursts r
  arrived_bursts (next r (transmit clock e)) = arrived_bursts r

  token_loop-IsSplit :
      (tokens : W) (random : ℕ) (pkts : List Mbuf)
      → let s = token_loop config tokens random pkts in IsSplit pkts s.accepted s.freed
  unfolding token_loop
  token_loop-IsSplit tokens random [] = (refl, refl)
  token_loop-IsSplit tokens random (p ∷ pkts) =
      let size = d.of_u64 (effective_packet_size p) in
      let (lost, random') = rate_loss config random in
      let poor = token_loop-IsSplit tokens random pkts in
      let paid = token_loop-IsSplit (d.sub tokens size) random' pkts in
      elim (Bool-cases (d.lt tokens size)) [
        | inl e ↦ rw e (inr (_, refl, poor))
        | inr e ↦ elim (Bool-cases lost) [
          | inl e' ↦ rw (e, e') (inr (_, refl, paid))
          | inr e' ↦ rw (e, e') (inl (_, refl, paid))
        ]
      ]

  sifted_round-dues :
      (r : RateReceiver W R) (timestamp : W) (s : Sifted W) (out : List Mbuf)
      → let r' = sifted_round ring r timestamp s out in
        (dues (contents r'.receiver.ring) ≡ dues (contents r.receiver.ring) ++ dues out)
        ⊎ (dues (contents r'.receiver.ring) ≡ dues (contents r.receiver.ring))
  unfolding sifted_round
  sifted_round-dues r timestamp s [] = inl (sym (append-nil (dues (contents r.receiver.ring))))
  sifted_round-dues r timestamp s (q ∷ out) =
      let kept : Receiver R = record r.receiver {
        loss_state = record r.receiver.loss_state { random = s.random };
        freed = r.receiver.freed ++ s.freed;
      } in
      feed-dues ring config delay kept (q ∷ out)

  receive-Moves :
      (q : DelayQueue) (bursts : List (List Mbuf × ℕ)) (s : TokenLine W R) (pkts : List Mbuf)
      (now : ℕ)
      → Moves delay q bursts (as_queue ring config delay (as_line s))
      → Moves delay q ((pkts, now) ∷ bursts) (
          as_queue ring config delay
            (as_line (record s { bucket = token_round ring config delay rate pkts now s.bucket })))
  unfolding token_round
  receive-Moves q bursts s [] now did =
      arrive [] [] [] now did (refl, refl)
        (sym (append-nil (dues (contents s.bucket.receiver.ring))))
  receive-Moves q bursts s (p ∷ pkts) now did =
      let r = s.bucket in
      let tokens = current_tokens config rate now r.previous_timestamp r.level in
      let random = r.receiver.loss_state.random in
      let a = token_loop config tokens random (p ∷ pkts) in
      let due = u64 (now + delay) in
      let before = dues (contents r.receiver.ring) in
      elim (sifted_round-dues r (d.of_u64 now) a (stamp due a.accepted)) [
        | inl taken ↦
            arrive (p ∷ pkts) a.accepted a.freed now did
              (token_loop-IsSplit tokens random (p ∷ pkts))
              (taken ∙ ap (λ ts. before ++ ts) (dues-stamp due a.accepted))
        | inr refused ↦
            subst
              (λ ts.
                Moves delay q ((p ∷ pkts, now) ∷ bursts)
                  (record { waiting = ts; delivered = departures s.sent }))
              (sym refused) (refuse (p ∷ pkts) now did)
      ]

  Step-IsSafe :
      {s t : TokenLine W R}
      → Step s t
      → IsSafe ring config delay (as_line s)
      → IsSafe ring config delay (as_line t)
  Step-IsSafe {s} (receive pkts now few) h = record {
    tagged =
        (token_round-Fed config ring delay rate pkts now s.bucket (omega arith) h.tagged).tagged;
    on_time = h.on_time;
  }
  Step-IsSafe {s} (transmit clock e) h = transmit-IsSafe ring config delay (as_line s) clock h

  pub Reach-IsSafe :
      {s t : TokenLine W R}
      → Reach s t
      → IsSafe ring config delay (as_line s)
      → IsSafe ring config delay (as_line t)
  Reach-IsSafe here h = h
  Reach-IsSafe (next r st) h = Step-IsSafe st (Reach-IsSafe r h)

  -- The line with a token bucket refines an abstract queue: from a ring of tagged packets and a log
  -- that is on time, and however the rounds of the two loops interleave, all that they did is
  -- explained by moves of the queue on the same bursts and readings. So what the bucket and the
  -- loss let through waits in the order of its arrival, is due `delay` cycles after the reading of
  -- its burst, and leaves from the front, one by one and none before it is due.
  pub Reach-Queued :
      {s t : TokenLine W R} (r : Reach s t)
      → IsSafe ring config delay (as_line s)
      → Moves delay
          (as_queue ring config delay (as_line s))
          (arrived_bursts r)
          (as_queue ring config delay (as_line t))
  Reach-Queued here safe = stay
  Reach-Queued (next {t} r (receive pkts now few)) safe =
      receive-Moves _ (arrived_bursts r) t pkts now (Reach-Queued r safe)
  Reach-Queued (next {t} r (transmit clock e)) safe =
      transmit-Did ring config delay _ (arrived_bursts r) (as_line t) clock (Reach-Queued r safe)
        (Reach-IsSafe r safe) e
