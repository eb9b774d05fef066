-- ===== src/Moonem/Delay/Tags.antt =====
-- The tags that the delay receiver of src/moonem_sw.cpp puts on packets, as an invariant of the ring.

use moon_gen_dpdk_v.Prelude.{
  ℕ, zero, suc, ◌-◌, ◌^◌, ◌≤◌, ◌<◌, ◌≡◌, refl, ap, List, [], ◌∷◌, ◌++◌, arith, length,
  length-append, take, All, u32,
}
use moon_gen_dpdk_v.Dpdk.{Mbuf}
use moon_gen_dpdk_v.Moonem.Delay.{stamp}

abbrev pub Same : ℕ → Mbuf → Type 0
Same time q = q.timestamp ≡ time

-- Each packet is tagged with a number of packets, itself and the next ones, that share its time.
abbrev pub IsTagged : List Mbuf → Type 0
IsTagged [] = Unit
IsTagged (p ∷ pkts) =
    (1 ≤ p.burst_size)
    × (p.burst_size ≤ length (p ∷ pkts))
    × All (Same p.timestamp) (take (p.burst_size - 1) pkts)
    × IsTagged pkts

-- The same of the front of a queue, where a burst may be cut off.
abbrev pub IsPartTagged : List Mbuf → Type 0
IsPartTagged [] = Unit
IsPartTagged (p ∷ pkts) =
    (1 ≤ p.burst_size) × All (Same p.timestamp) (take (p.burst_size - 1) pkts) × IsPartTagged pkts

take-append_le :
    {A : Type 0} (n : ℕ) (xs ys : List A) → n ≤ length xs → take n (xs ++ ys) ≡ take n xs
take-append_le zero xs ys h = refl
take-append_le (suc n) [] ys h = elim h [ ]
take-append_le (suc n) (x ∷ xs) ys h = ap (λ zs. x ∷ zs) (take-append_le n xs ys (omega arith))

All-take-append :
    (P : Mbuf → Type 0) (n : ℕ) (xs ys : List Mbuf) → All P (take n (xs ++ ys)) → All P (take n xs)
All-take-append P zero xs ys h = tt
All-take-append P (suc n) [] ys h = tt
All-take-append P (suc n) (x ∷ xs) ys (h, hs) = (h, All-take-append P n xs ys hs)

pub IsTagged-append : (xs ys : List Mbuf) → IsTagged xs → IsTagged ys → IsTagged (xs ++ ys)
IsTagged-append [] ys h k = k
IsTagged-append (x ∷ xs) ys (low, high, same, rest) k = (
  low,
  omega (arith, length-append xs ys),
  rw (take-append_le (x.burst_size - 1) xs ys (omega arith)) same,
  IsTagged-append xs ys rest k,
)

pub IsTagged-back : (xs ys : List Mbuf) → IsTagged (xs ++ ys) → IsTagged ys
IsTagged-back [] ys h = h
IsTagged-back (x ∷ xs) ys (_, _, _, rest) = IsTagged-back xs ys rest

pub IsTagged-front : (xs ys : List Mbuf) → IsTagged (xs ++ ys) → IsPartTagged xs
IsTagged-front [] ys h = tt
IsTagged-front (x ∷ xs) ys (low, _, same, rest) = (
  low,
  All-take-append (Same x.timestamp) (x.burst_size - 1) xs ys same,
  IsTagged-front xs ys rest,
)

stamp-Same : (time n : ℕ) (pkts : List Mbuf) → All (Same time) (take n (stamp time pkts))
unfolding stamp
stamp-Same time zero pkts = tt
stamp-Same time (suc n) [] = tt
stamp-Same time (suc n) (p ∷ pkts) = (refl, stamp-Same time n pkts)

pub length-stamp : (time : ℕ) (pkts : List Mbuf) → length (stamp time pkts) ≡ length pkts
unfolding stamp
length-stamp time [] = refl
length-stamp time (p ∷ pkts) = ap suc (length-stamp time pkts)

-- What the receiver stamps is tagged, for a burst whose size fits the field.
pub stamp-IsTagged :
    (time : ℕ) (pkts : List Mbuf) → length pkts < 2 ^ 32 → IsTagged (stamp time pkts)
unfolding stamp
stamp-IsTagged time [] h = tt
stamp-IsTagged time (p ∷ pkts) h = (
  omega arith,
  omega (arith, length-stamp time pkts),
  stamp-Same time (u32 (length (p ∷ pkts)) - 1) pkts,
  stamp-IsTagged time pkts (omega arith),
)
