-- ===== src/Moonem/Delay/Liveness.antt =====
-- The transmitter of src/moonem_sw.cpp, as far as the counter runs on: every packet leaves.
use mathlib.Core.List.{append-nil}
use moon_gen_dpdk_v.Prelude.{
  ℕ, zero, suc, ◌+◌, ◌≤◌, ◌≡◌, refl, sym, ap, ◌∙◌, Bool-cases, inl, inr, Option, none, some, List,
  [], ◌∷◌, ◌++◌, arith, length, drop, length-drop, take, All, ltb, if◌then◌else◌,
}
use moon_gen_dpdk_v.Dpdk.{Mbuf}
use moon_gen_dpdk_v.Moonem.Loss.{burst_size}
use moon_gen_dpdk_v.Moonem.Ring.{Ring}
use moon_gen_dpdk_v.Moonem.Delay.{
  Release, Stopped, wait_until, min_macro, release_all, transmit_round, get_burst_size_dynfield,
}
use moon_gen_dpdk_v.Moonem.Delay.Tags.{IsTagged, IsTagged-front, IsPartTagged}
use moon_gen_dpdk_v.Moonem.Delay.OnTime.{
  released, release_all-Releases, IsPartTagged-drop, min_macro-le,
}

-- How many readings of the counter are `time` or later.
abbrev pub readings_from : ℕ → List ℕ → ℕ
readings_from time [] = 0
readings_from time (now ∷ later) = (if ltb now time then 0 else 1) + readings_from time later

-- The wait ends, and it uses up at most one of the late readings.
record Awaited (time last k : ℕ) (clock : List ℕ) : Type 0 where
  now : ℕ
  later : List ℕ
  read : wait_until time clock ≡ some (now, later)
  enough : k ≤ readings_from last later

wait_until-Awaited :
    (time last k : ℕ) (clock : List ℕ)
    → time ≤ last
    → suc k ≤ readings_from last clock
    → Awaited time last k clock
unfolding wait_until
wait_until-Awaited time last k [] h e = elim e [ ]
wait_until-Awaited time last k (now ∷ later) h e = elim (Bool-cases (ltb now time)) [
  | inl early ↦
      let rest = wait_until-Awaited time last k later h (ground arith) in
      record { now = rest.now; later = rest.later; read = rw early rest.read; enough = rest.enough }
  | inr due ↦ record { now = now; later = later; read = rw due refl; enough = ground arith }
]

abbrev pub IsDue : ℕ → Mbuf → Type 0
IsDue last p = p.timestamp ≤ last

All-drop : {A : Type 0} (P : A → Type 0) (n : ℕ) (xs : List A) → All P xs → All P (drop n xs)
All-drop P zero xs h = h
All-drop P (suc n) [] h = h
All-drop P (suc n) (x ∷ xs) (_, h) = All-drop P n xs h

release_all-ends :
    (fuel last : ℕ) (pkts : List Mbuf) (clock : List ℕ) (sent : List Release)
    → length pkts ≤ fuel
    → IsPartTagged pkts
    → All (IsDue last) pkts
    → length pkts ≤ readings_from last clock
    → (release_all fuel pkts clock sent).1.0 ≡ none
unfolding release_all get_burst_size_dynfield
release_all-ends zero last [] clock sent h tags due enough = refl
release_all-ends (suc fuel) last [] clock sent h tags due enough = refl
release_all-ends zero last (p ∷ pkts) clock sent h tags due enough = elim h [ ]
release_all-ends (suc fuel) last (p ∷ pkts) clock sent h (low, same, rest) (now_due, due) enough =
    let a = wait_until-Awaited p.timestamp last (length pkts) clock now_due enough in
    let n = min_macro p.burst_size (length (p ∷ pkts)) in
    let (_, _, pos) = min_macro-le p.burst_size (length (p ∷ pkts)) in
    let left = length-drop n (p ∷ pkts) in
    rw (a.read, release_all)
      (release_all-ends fuel last (drop n (p ∷ pkts)) a.later
        (sent ++ (record { at = a.now; pkts = take n (p ∷ pkts) } ∷ []))
        (omega (arith, left, pos low (omega arith)))
        (IsPartTagged-drop n (p ∷ pkts) (low, same, rest))
        (All-drop (IsDue last) n (p ∷ pkts) (now_due, due))
        (omega (arith, left, pos low (omega arith), a.enough)))

-- The round is over, and it released all the packets that it took, in order and on time.
pub record AllReleased (pkts : List Mbuf) (r : List Release × Option Stopped) : Type 0 where
  pub over : r.1 ≡ none
  pub all_out : released r.0 ≡ pkts

module _ {R : Type 0} (ring : Ring R) where
  -- From a ring of tagged packets, and if the counter still gives as many readings of `last` or
  -- later as packets are taken, where no packet taken is stamped later than `last`, a round of the
  -- transmitter comes to an end, and it has released all the packets it took, in order.
  pub transmit_round-AllReleased :
      (r : R) (last : ℕ) (clock : List ℕ)
      → IsTagged (ring.contents r)
      → All (IsDue last) (ring.dequeue_burst r burst_size).0
      → length (ring.dequeue_burst r burst_size).0 ≤ readings_from last clock
      → AllReleased
          (ring.dequeue_burst r burst_size).0
          ((transmit_round ring r clock).0, (transmit_round ring r clock).1.0)
  unfolding transmit_round
  transmit_round-AllReleased r last clock tags due enough =
      let got = (ring.dequeue_burst r burst_size).0 in
      let part = IsTagged-front got _ (rw (ring.dequeue_some r burst_size).0 at tags) in
      let rel = release_all-Releases (length got) got clock [] (omega arith) part in
      let over = release_all-ends (length got) last got clock [] (omega arith) part due enough in
      let nothing_left : rel.left ≡ [] = ground arith in
      record {
        over = over;
        all_out =
            ap released rel.log
            ∙ sym (append-nil (released rel.new))
            ∙ ap (λ qs. released rel.new ++ qs) (sym nothing_left)
            ∙ sym rel.in_order;
      }
