-- ===== src/Moonem/Delay/Fifo.antt =====
-- The delay line of src/moonem_sw.cpp as an abstract queue: packets wait in the order of their
-- arrival, each with the time that it is due, and leave one by one from the front.
pub mod Refines
use mathlib.Core.Path.{subst}
use mathlib.Core.List.{append-nil, append_assoc}
use mathlib.Core.Option.{some-injective}
use moon_gen_dpdk_v.Prelude.{
  ℕ, ◌+◌, ◌≤◌, ◌≡◌, refl, sym, ap, ◌∙◌, ◌⊎◌, inl, inr, none, some, List, [], ◌∷◌, ◌++◌, arith,
  length, All, u64, Bool-cases, true, false,
}
use moon_gen_dpdk_v.Dpdk.{Mbuf}
use moon_gen_dpdk_v.Moonem.Loss.{MoonemConfig, LossState, Applied}
use moon_gen_dpdk_v.Moonem.Loss.Split.{IsSplit, apply_loss-IsSplit, >>=-eq-some}
use moon_gen_dpdk_v.Moonem.Ring.{Ring}
use moon_gen_dpdk_v.Moonem.Delay.{
  Receiver, Release, lose, is_lossless, stamp, feed, receive_round, transmit_round,
}
use moon_gen_dpdk_v.Moonem.Delay.OnTime.{IsOnTime, released}
use moon_gen_dpdk_v.Moonem.Delay.Line.{
  Line, Step, receive, transmit, Reach, here, next, IsSafe, Reach-IsSafe, lossy,
}

-- A packet with a time: when it is due, or when it left.
pub record Timed : Type 0 where
  pub id : ℕ
  pub time : ℕ

pub record DelayQueue : Type 0 where
  pub waiting : List Timed
  pub delivered : List Timed

abbrev pub at_time : ℕ → List Mbuf → List Timed
at_time time [] = []
at_time time (p ∷ pkts) = record { id = p.id; time = time } ∷ at_time time pkts

module _ (delay : ℕ) where
  -- What the queue may do, with the bursts that arrived and the readings at their arrival, newest
  -- first. Of a burst some packets survive the loss model, which are due after the delay, or the
  -- queue refuses them all. The first packet may leave when it is due.
  pub data Moves (q : DelayQueue) : List (List Mbuf × ℕ) → DelayQueue → Type 0 where
    stay : Moves q [] q
    arrive :
        {q' : DelayQueue} {bursts : List (List Mbuf × ℕ)} {waiting : List Timed}
        (burst survivors casualties : List Mbuf) (now : ℕ)
        → Moves q bursts q'
        → IsSplit burst survivors casualties
        → waiting ≡ q'.waiting ++ at_time (u64 (now + delay)) survivors
        → Moves q ((burst, now) ∷ bursts) (record q' { waiting = waiting })
    refuse :
        {q' : DelayQueue} {bursts : List (List Mbuf × ℕ)} (burst : List Mbuf) (now : ℕ)
        → Moves q bursts q'
        → Moves q ((burst, now) ∷ bursts) q'
    deliver :
        {q' : DelayQueue} {bursts : List (List Mbuf × ℕ)} {rest : List Timed} (p : Timed) (now : ℕ)
        → Moves q bursts q'
        → q'.waiting ≡ p ∷ rest
        → p.time ≤ now
        → Moves q bursts
            (record { waiting = rest; delivered = q'.delivered ++ (record p { time = now } ∷ []) })

abbrev pub dues : List Mbuf → List Timed
dues [] = []
dues (p ∷ pkts) = record { id = p.id; time = p.timestamp } ∷ dues pkts

abbrev pub departures : List Release → List Timed
departures [] = []
departures (r ∷ rs) = at_time r.at r.pkts ++ departures rs

pub dues-append : (xs ys : List Mbuf) → dues (xs ++ ys) ≡ dues xs ++ dues ys
dues-append [] ys = refl
dues-append (x ∷ xs) ys = rw (dues-append xs ys) refl

pub departures-append :
    (xs ys : List Release) → departures (xs ++ ys) ≡ departures xs ++ departures ys
departures-append [] ys = refl
departures-append (x ∷ xs) ys = rw (departures-append xs ys, append_assoc) refl

pub dues-stamp : (time : ℕ) (pkts : List Mbuf) → dues (stamp time pkts) ≡ at_time time pkts
unfolding stamp
dues-stamp time [] = refl
dues-stamp time (p ∷ pkts) = rw (dues-stamp time pkts) refl

IsSplit-all : (pkts : List Mbuf) → IsSplit pkts pkts []
IsSplit-all [] = (refl, refl)
IsSplit-all (p ∷ pkts) = inl (pkts, refl, IsSplit-all pkts)

pub lose-IsSplit :
    (config : MoonemConfig) (pkts : List Mbuf) (s : LossState) (a : Applied)
    → lose config pkts s ≡ some a
    → IsSplit pkts a.accepted a.freed
unfolding lose
lose-IsSplit config pkts s a e = elim (Bool-cases (is_lossless config.loss_type)) [
  | inl same ↦
      subst (λ (x : Applied). IsSplit pkts x.accepted x.freed) (some-injective _ _ (rw same at e))
        (IsSplit-all pkts)
  | inr loses ↦ apply_loss-IsSplit config pkts s a (lossy config.loss_type loses) (rw loses at e)
]

module _ (delay : ℕ) {q : DelayQueue} {bursts : List (List Mbuf × ℕ)} where
  deliver_all :
      (now : ℕ) (pkts : List Mbuf) (back delivered : List Timed)
      → All (λ p. p.timestamp ≤ now) pkts
      → Moves delay q bursts (record { waiting = dues pkts ++ back; delivered = delivered })
      → Moves delay q bursts (record { waiting = back; delivered = delivered ++ at_time now pkts })
  deliver_all now [] back delivered due moves = rw (append-nil delivered) moves
  deliver_all now (p ∷ pkts) back delivered (due, dues') moves =
      let first : Timed = record { id = p.id; time = p.timestamp } in
      let left : Timed = record { id = p.id; time = now } in
      rw (← append_assoc delivered (left ∷ []) (at_time now pkts)) (
        deliver_all now pkts back (delivered ++ (left ∷ [])) dues'
          (deliver first now moves refl due))

  pub deliver_releases :
      (rs : List Release) (back delivered : List Timed)
      → All IsOnTime rs
      → Moves delay q bursts
          (record { waiting = dues (released rs) ++ back; delivered = delivered })
      → Moves delay q bursts (record { waiting = back; delivered = delivered ++ departures rs })
  deliver_releases [] back delivered due moves = rw (append-nil delivered) moves
  deliver_releases (r ∷ rs) back delivered (due, dues') moves =
      let split =
        ap (λ ts. ts ++ back) (dues-append r.pkts (released rs))
        ∙ append_assoc (dues r.pkts) (dues (released rs)) back in
      rw (← append_assoc delivered (at_time r.at r.pkts) (departures rs)) (
        deliver_releases rs back (delivered ++ at_time r.at r.pkts) dues'
          (deliver_all r.at r.pkts (dues (released rs) ++ back) delivered due (rw split at moves)))

module _ {R : Type 0} (ring : Ring R) (config : MoonemConfig) (delay : ℕ) where
  open ring use {contents, enqueue_all}

  abbrev pub as_queue : Line R → DelayQueue
  as_queue s = record { waiting = dues (contents s.receiver.ring); delivered = departures s.sent }

  -- The bursts that came in, newest first, with the readings of the cycle counter.
  abbrev pub arrived_bursts : {s t : Line R} → Reach ring config delay s t → List (List Mbuf × ℕ)
  arrived_bursts here = []
  arrived_bursts (next r (receive pkts now r' few e)) = (pkts, now) ∷ arrived_bursts r
  arrived_bursts (next r (transmit clock e)) = arrived_bursts r
