-- ===== src/Moonem/Delay/OnTime.antt =====
-- The transmitter of src/moonem_sw.cpp: when and in which order packets leave.
use mathlib.Core.List.{append-nil, append_assoc}
use moon_gen_dpdk_v.Prelude.{
  ℕ, zero, suc, ◌-◌, ◌≤◌, ◌<◌, ◌≡◌, refl, sym, ap, ◌∙◌, ◌⊎◌, inl, inr, Option, none, some,
  Option-cases, List, [], ◌∷◌, ◌++◌, arith, length, length-drop, take, drop, take-append-drop, All,
}
use moon_gen_dpdk_v.Dpdk.{Mbuf}
use moon_gen_dpdk_v.Moonem.Delay.{
  Release, Stopped, waiting, wait_until, min_macro, release_all, get_burst_size_dynfield,
}
use moon_gen_dpdk_v.Moonem.Delay.Tags.{Same, IsPartTagged}

-- No packet leaves before its time.
abbrev pub IsOnTime : Release → Type 0
IsOnTime r = All (λ p. p.timestamp ≤ r.at) r.pkts

abbrev pub released : List Release → List Mbuf
released [] = []
released (r ∷ rs) = r.pkts ++ released rs

pub released-append : (xs ys : List Release) → released (xs ++ ys) ≡ released xs ++ released ys
released-append [] ys = refl
released-append (x ∷ xs) ys = rw (released-append xs ys, append_assoc) refl

pub wait_until-le :
    (time : ℕ) (clock : List ℕ) (now : ℕ) (later : List ℕ)
    → wait_until time clock ≡ some (now, later)
    → (time ≤ now) × (length later < length clock)
unfolding wait_until
wait_until-le time [] now later e = cc
wait_until-le time (c ∷ clock) now later e = ground (arith, wait_until-le time clock now later)

pub IsPartTagged-drop : (n : ℕ) (pkts : List Mbuf) → IsPartTagged pkts → IsPartTagged (drop n pkts)
IsPartTagged-drop zero pkts h = h
IsPartTagged-drop (suc n) [] h = h
IsPartTagged-drop (suc n) (p ∷ pkts) (_, _, rest) = IsPartTagged-drop n pkts rest

-- What the loop did: the releases `new`, all on time, send a front part of the packets in order; all
-- of them, unless the readings ended while it waited.
pub record Releases (pkts : List Mbuf) (sent : List Release)
    (r : List Release × (Option Stopped × List ℕ)) : Type 0 where
  pub new : List Release
  pub log : r.0 ≡ sent ++ new
  pub on_time : All IsOnTime new
  pub left : List Mbuf
  pub in_order : pkts ≡ released new ++ left
  pub finished : ((r.1.0 ≡ none) × (left ≡ [])) ⊎ (r.1.0 ≡ some waiting)

-- The packets of a release share the time of the first.
take-on_time :
    (p : Mbuf) (pkts : List Mbuf) (n now : ℕ)
    → 1 ≤ p.burst_size
    → All (Same p.timestamp) (take (p.burst_size - 1) pkts)
    → n ≤ p.burst_size
    → p.timestamp ≤ now
    → All (λ q. q.timestamp ≤ now) (take n (p ∷ pkts))
take-on_time p pkts zero now low same small due = tt
take-on_time p pkts (suc n) now low same small due =
    (due, Same-on_time p.timestamp now (p.burst_size - 1) n pkts due (omega arith) same)
  where
    Same-on_time :
        (time now m n : ℕ) (qs : List Mbuf)
        → time ≤ now
        → n ≤ m
        → All (Same time) (take m qs)
        → All (λ q. q.timestamp ≤ now) (take n qs)
    Same-on_time time now m zero qs d h a = tt
    Same-on_time time now zero (suc n) qs d h a = elim h [ ]
    Same-on_time time now (suc m) (suc n) [] d h a = tt
    Same-on_time time now (suc m) (suc n) (q ∷ qs) d h (e, es) =
        (omega arith, Same-on_time time now m n qs d (omega arith) es)

pub min_macro-le :
    (a b : ℕ) → (min_macro a b ≤ a) × (min_macro a b ≤ b) × (1 ≤ a → 1 ≤ b → 1 ≤ min_macro a b)
min_macro-le a b = ground arith

pub release_all-Releases :
    (fuel : ℕ) (pkts : List Mbuf) (clock : List ℕ) (sent : List Release)
    → length pkts ≤ fuel
    → IsPartTagged pkts
    → Releases pkts sent (release_all fuel pkts clock sent)
unfolding release_all get_burst_size_dynfield
release_all-Releases zero [] clock sent h tags = record {
  new = [];
  log = sym (append-nil sent);
  on_time = tt;
  left = [];
  in_order = refl;
  finished = inl (refl, refl);
}
release_all-Releases (suc fuel) [] clock sent h tags = record {
  new = [];
  log = sym (append-nil sent);
  on_time = tt;
  left = [];
  in_order = refl;
  finished = inl (refl, refl);
}
release_all-Releases zero (p ∷ pkts) clock sent h tags = elim h [ ]
release_all-Releases (suc fuel) (p ∷ pkts) clock sent h (low, same, rest) =
    elim (Option-cases (wait_until p.timestamp clock)) [
      | inl e ↦
          rw (e, release_all)
            (record {
              new = [];
              log = sym (append-nil sent);
              on_time = tt;
              left = p ∷ pkts;
              in_order = refl;
              finished = inr refl;
            })
      | inr ((now, later), e) ↦
          let n = min_macro p.burst_size (length (p ∷ pkts)) in
          let (le_tag, le_length, pos) = min_macro-le p.burst_size (length (p ∷ pkts)) in
          let due = wait_until-le p.timestamp clock now later e in
          let one : Release = record { at = now; pkts = take n (p ∷ pkts) } in
          let ih =
            release_all-Releases fuel (drop n (p ∷ pkts)) later (sent ++ (one ∷ []))
              (omega (arith, length-drop n (p ∷ pkts), pos low (omega arith)))
              (IsPartTagged-drop n (p ∷ pkts) (low, same, rest)) in
          rw (e, release_all)
            (record {
              new = one ∷ ih.new;
              log = ih.log ∙ append_assoc sent (one ∷ []) ih.new;
              on_time = (take-on_time p pkts n now low same le_tag due.0, ih.on_time);
              left = ih.left;
              in_order =
                  sym (take-append-drop n (p ∷ pkts))
                  ∙ ap (λ qs. take n (p ∷ pkts) ++ qs) ih.in_order
                  ∙ sym (append_assoc (take n (p ∷ pkts)) (released ih.new) ih.left);
              finished = ih.finished;
            })
    ]
