-- ===== src/Crc/Load.antt =====
-- The packets that `RateLimiterCRC::send_packets` of src/crc-ratecontrol.cpp is given, and their spacing.

use moon_gen_dpdk_v.Prelude.{
  ℕ, ◌+◌, ◌*◌, ◌^◌, ◌≤◌, ◌<◌, ◌≡◌, refl, inl, inr, ◌⊎◌, Option, none, some, List, [], ◌∷◌, ◌++◌,
  arith, Bool, true, false, is_nil, length, All,
}
use moon_gen_dpdk_v.Dpdk.{Mbuf, wire_bytes}
use moon_gen_dpdk_v.Crc.{RateLimiterCrc}
use moon_gen_dpdk_v.Crc.Frames.{min_gap, IsSane, IsFiller, bad_bytes}

-- The packets of a burst that were not deleted.
abbrev pub kept : List (Option Mbuf) → List Mbuf
kept [] = []
kept (none ∷ pkts) = kept pkts
kept (some p ∷ pkts) = p ∷ kept pkts

-- Whether the burst ends in a packet that was not deleted.
abbrev pub last_kept : List (Option Mbuf) → Bool
last_kept [] = false
last_kept (none ∷ []) = false
last_kept (some p ∷ []) = true
last_kept (x ∷ y ∷ pkts) = last_kept (y ∷ pkts)

pub last_kept-deleted :
    (pkts : List (Option Mbuf)) → last_kept (none ∷ pkts) ≡ true → last_kept pkts ≡ true
last_kept-deleted [] e = e
last_kept-deleted (x ∷ pkts) e = e

pub last_kept-kept :
    (p : Mbuf) (pkts : List (Option Mbuf))
    → last_kept (some p ∷ pkts) ≡ true
    → (is_nil pkts ≡ true) ⊎ (last_kept pkts ≡ true)
last_kept-kept p [] e = inl refl
last_kept-kept p (x ∷ pkts) e = inr e

-- The frames `out` carry `load` in order, each packet behind fillers that take up its delay and the
-- bytes that were missing before it, but for less than a minimal gap; `m'` is missing at the end.
abbrev pub IsPaced : RateLimiterCrc → ℕ → List Mbuf → List Mbuf → ℕ → Type 0
IsPaced l m [] out m' = (out ≡ []) × (m' ≡ m)
IsPaced l m (p ∷ load) out m' =
    (fills : List Mbuf) × (rest : List Mbuf) × (m1 : ℕ) × (out ≡ fills ++ p ∷ rest)
    × All (IsFiller l) fills
    × (wire_bytes l.packet_overhead fills + m1 ≡ p.timestamp + m)
    × (m1 < min_gap l)
    × IsPaced l m1 load rest m'

-- Delays so small that adding the missing bytes does not wrap.
abbrev pub IsShort : RateLimiterCrc → Mbuf → Type 0
IsShort l p = p.timestamp + min_gap l ≤ 2 ^ 64

abbrev pub missing : RateLimiterCrc → ℕ → RateLimiterCrc
missing l m = record l { previous_missing_delay = m }

pub wire_bytes-fillers :
    (l : RateLimiterCrc) (sane : IsSane l) (fills : List Mbuf)
    → All (IsFiller l) fills
    → bad_bytes l.packet_overhead fills + 20 * length fills ≡ wire_bytes l.packet_overhead fills
wire_bytes-fillers l sane [] h = refl
wire_bytes-fillers l sane (p ∷ ps) (h, hs) = omega (arith, sane, wire_bytes-fillers l sane ps hs)

pub missing-IsSane : (l : RateLimiterCrc) (m : ℕ) → IsSane l → IsSane (missing l m)
missing-IsSane l m h = omega arith
