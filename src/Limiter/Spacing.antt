-- ===== src/Limiter/Spacing.antt =====
-- When the packets of `main_loop_cbr` of src/software-rate-limiter.cpp leave: spacing, and restarts.
use mathlib.Core.List.{append-nil, append_assoc}
use moon_gen_dpdk_v.Prelude.{
  ℕ, ◌+◌, ◌^◌, ◌≤◌, ◌<◌, ◌≡◌, sym, ap, ◌∙◌, some, List, [], ◌∷◌, ◌++◌, arith, All,
}
use moon_gen_dpdk_v.Moonem.Delay.{wait_until}
use moon_gen_dpdk_v.Limiter.{Sent, World, Pacing}
use moon_gen_dpdk_v.Limiter.Loops.{restart}

-- Each packet was due at a cycle of its own, at least `id_cycles` behind that of the packet before.
abbrev pub IsSpaced : ℕ → ℕ → List Sent → ℕ → Type 0
IsSpaced id_cycles t [] t' = t ≤ t'
IsSpaced id_cycles t (s ∷ later) t' =
    (due : ℕ) × (t ≤ due) × (due ≤ s.at) × IsSpaced id_cycles (due + id_cycles) later t'

pub IsSpaced-from :
    (id_cycles t u : ℕ) (xs : List Sent) (t' : ℕ)
    → t ≤ u
    → IsSpaced id_cycles u xs t'
    → IsSpaced id_cycles t xs t'
IsSpaced-from id_cycles t u [] t' le h = omega arith
IsSpaced-from id_cycles t u (x ∷ xs) t' le (due, ge, at, h) = (due, omega arith, at, h)

IsSpaced-append :
    (id_cycles t : ℕ) (xs ys : List Sent) (t1 t2 : ℕ)
    → IsSpaced id_cycles t xs t1
    → IsSpaced id_cycles t1 ys t2
    → IsSpaced id_cycles t (xs ++ ys) t2
IsSpaced-append id_cycles t [] ys t1 t2 h k = IsSpaced-from id_cycles t t1 ys t2 h k
IsSpaced-append id_cycles t (x ∷ xs) ys t1 t2 (due, ge, at, h) k =
    (due, ge, at, IsSpaced-append id_cycles (due + id_cycles) xs ys t1 t2 h k)

-- The packet at place k leaves at the cycle `t + k * id_cycles` or later.
abbrev pub NoFaster : ℕ → ℕ → List Sent → Type 0
NoFaster id_cycles t [] = Unit
NoFaster id_cycles t (s ∷ later) = (t ≤ s.at) × NoFaster id_cycles (t + id_cycles) later

pub IsSpaced-NoFaster :
    (id_cycles t u : ℕ) (xs : List Sent) (t' : ℕ)
    → u ≤ t
    → IsSpaced id_cycles t xs t'
    → NoFaster id_cycles u xs
IsSpaced-NoFaster id_cycles t u [] t' le h = tt
IsSpaced-NoFaster id_cycles t u (x ∷ xs) t' le (due, ge, at, h) = (
  omega arith,
  IsSpaced-NoFaster id_cycles (due + id_cycles) (u + id_cycles) xs t' (omega arith) h,
)

-- Cycle counts so small that no sum wraps: a counter at 4 GHz reaches 2 ^ 62 in 36 years.
abbrev pub AreSmall : List ℕ → Type 0
AreSmall = All (λ c. c < 2 ^ 62)

pub wait_until-AreSmall :
    (time : ℕ) (clock : List ℕ) (now : ℕ) (later : List ℕ)
    → AreSmall clock
    → wait_until time clock ≡ some (now, later)
    → (now < 2 ^ 62) × AreSmall later
unfolding wait_until
wait_until-AreSmall time [] now later h e = cc
wait_until-AreSmall time (c ∷ clock) now later (h, hs) e =
    ground (arith, wait_until-AreSmall time clock now later hs)

pub restart-ge :
    {G : Type 0} (tsc_hz cur : ℕ) (s : Pacing G)
    → cur < 2 ^ 62
    → s.next_send < 2 ^ 63
    → (s.next_send ≤ (restart tsc_hz cur s).next_send) × ((restart tsc_hz cur s).next_send < 2 ^ 63)
unfolding restart
restart-ge tsc_hz cur s small small' = ground arith

abbrev pub IsTimely : World → ℕ → Type 0
IsTimely w next = AreSmall w.clock × (next < 2 ^ 63)

-- What a part of the loop does between two states of the world.
pub record Spaced (id_cycles : ℕ) (w : World) (next : ℕ) (w' : World) (next' : ℕ) : Type 0 where
  pub new : List Sent
  pub log : w'.sent ≡ w.sent ++ new
  pub spaced : IsSpaced id_cycles next new next'
  pub timely : IsTimely w' next'

pub Spaced-none :
    (id_cycles : ℕ) (w w' : World) (next next' : ℕ)
    → w'.sent ≡ w.sent
    → next ≤ next'
    → IsTimely w' next'
    → Spaced id_cycles w next w' next'
Spaced-none id_cycles w w' next next' same le timely = record {
  new = [];
  log = same ∙ sym (append-nil w.sent);
  spaced = le;
  timely = timely;
}

pub Spaced-later :
    (id_cycles : ℕ) (w w1 w2 : World) (t t1 t2 : ℕ)
    → Spaced id_cycles w t w1 t1
    → Spaced id_cycles w1 t1 w2 t2
    → Spaced id_cycles w t w2 t2
Spaced-later id_cycles w w1 w2 t t1 t2 h k = record {
  new = h.new ++ k.new;
  log = k.log ∙ ap (λ xs. xs ++ k.new) h.log ∙ append_assoc w.sent h.new k.new;
  spaced = IsSpaced-append id_cycles t h.new k.new t1 t2 h.spaced k.spaced;
  timely = k.timely;
}
