-- ===== src/Moonem/Loss/Markov.antt =====
-- The Markov chains behind `ge_drop` and `netem_drop` of src/moonem_common.h.

use moon_gen_dpdk_v.Prelude.{
  ℕ, zero, suc, ◌+◌, ◌^◌, ◌≤◌, ◌<◌, ◌≡◌, refl, ◌∙◌, Bool, true, false, not, ◌⊎◌, inl, inr, ◌↔◌,
  none, some, arith, ltb, leb, ◌==◌, if◌then◌else◌, Bool-cases, le→ltb, ltb→le, u64,
}
use moon_gen_dpdk_v.Moonem.Loss.{Parameters, LossState, wyhash64, ge_drop, netem_drop}

-- The two numbers that a packet draws.
abbrev pub first_draw : LossState → ℕ
first_draw s = (wyhash64 s.random).1

abbrev pub second_draw : LossState → ℕ
second_draw s = (wyhash64 (wyhash64 s.random).0).1

abbrev pub state_after_two : LossState → ℕ
state_after_two s = (wyhash64 (wyhash64 s.random).0).0

-- The Gilbert-Elliott chain with the parameters p, r, 1 - h and 1 - k: whether the link is good
-- after the step. It stays good unless the draw is below p, and turns good if the draw is below r.
abbrev pub ge_good : Bool → ℕ → ℕ → ℕ → Bool
ge_good true p r x = not (ltb x p)
ge_good false p r x = ltb x r

abbrev pub bit : Bool → ℕ
bit true = 1
bit false = 0

-- `ge_drop` reads in bounds and steps the chain by one draw; a second draw loses the packet with the
-- fourth parameter, 1 - k, if the link is now good, and with the third, 1 - h, if it is bad. The
-- stored state is 1 for a good link and 0 for a bad one.
pub ge_drop-chain :
    (s : LossState) (ps : Parameters)
    → let good = ge_good (not (s.state == 0)) ps.p0 ps.p1 (first_draw s) in
      ge_drop s ps
      ≡ some (
        ltb (second_draw s) (if good then ps.p3 else ps.p2),
        record { random = state_after_two s; state = bit good },
      )
unfolding ge_drop
ge_drop-chain s ps = ground arith

abbrev at : ℕ → ℕ → LossState
at random state = record { random = random; state = state }

netem-none :
    (random state : ℕ) (ps : Parameters)
    → state < 4
    → (netem_drop (at random state) ps ≡ none)
      ↔ ((state ≡ 3) ⊎ ((state ≡ 2) × (ps.p4 ≤ first_draw (at random state))))
unfolding netem_drop
netem-none random zero ps h = (λ e. ground arith, λ e. ground arith)
netem-none random (suc zero) ps h = (λ e. ground arith, λ e. ground arith)
netem-none random (suc (suc zero)) ps h = (λ e. ground arith, λ e. ground arith)
netem-none random (suc (suc (suc zero))) ps h = (λ e. inl refl, λ e. refl)
netem-none random (suc (suc (suc (suc state)))) ps h = absurd (omega arith)

-- In the four states of the chain, `netem_drop` reads outside of its five parameters exactly in
-- state q4, and in state q3 when the draw does not keep the state.
pub netem_drop-none :
    (s : LossState) (ps : Parameters)
    → s.state < 4
    → (netem_drop s ps ≡ none) ↔ ((s.state ≡ 3) ⊎ ((s.state ≡ 2) × (ps.p4 ≤ first_draw s)))
netem_drop-none s ps h = netem-none s.random s.state ps h

-- The states in which packets are lost, q3 and q4.
abbrev pub is_lossy : ℕ → Bool
is_lossy state = leb 2 state

netem-loss :
    (random state : ℕ) (ps : Parameters)
    → state < 4
    → (b : Bool) (s' : LossState) → netem_drop (at random state) ps ≡ some (b, s')
    → (s'.state < 4) × (b ≡ is_lossy s'.state)
unfolding netem_drop
netem-loss random zero ps h b s' e = ground arith
netem-loss random (suc zero) ps h b s' e = ground arith
netem-loss random (suc (suc zero)) ps h b s' e = ground arith
netem-loss random (suc (suc (suc zero))) ps h b s' e = cc
netem-loss random (suc (suc (suc (suc state)))) ps h b s' e = absurd (omega arith)

-- Where `netem_drop` reads in bounds, it leads from one of the four states to one of them, and drops
-- the packet exactly if the new state is q3 or q4.
pub netem_drop-loss :
    (s : LossState) (ps : Parameters) (b : Bool) (s' : LossState)
    → s.state < 4
    → netem_drop s ps ≡ some (b, s')
    → (s'.state < 4) × (b ≡ is_lossy s'.state)
netem_drop-loss s ps b s' h e = netem-loss s.random s.state ps h b s' e

netem-first :
    (random : ℕ) (ps : Parameters)
    → netem_drop (at random 0) ps ≡ (
        let s = at random 0 in
        let next = (wyhash64 random).0 in
        if ltb (first_draw s) ps.p0
        then some (false, at next 0)
        else some (true, at next (if ltb (first_draw s) (u64 (ps.p0 + ps.p1)) then 3 else 2)))
unfolding netem_drop
netem-first random ps = ground arith

-- In state q1 with parameters whose sum wraps, no draw leads to q4, the state of an isolated loss:
-- each draw keeps q1 or leads to q3.
pub netem_drop-wraps :
    (random : ℕ) (ps : Parameters)
    → ps.p0 < 2 ^ 64
    → ps.p1 < 2 ^ 64
    → 2 ^ 64 ≤ ps.p0 + ps.p1
    → (b : Bool) × (s' : LossState) × (netem_drop (record { random = random; state = 0 }) ps
        ≡ some (b, s'))
      × ((s'.state ≡ 0) ⊎ (s'.state ≡ 2))
netem_drop-wraps random ps h0 h1 wraps = elim (Bool-cases (ltb (first_draw (at random 0)) ps.p0)) [
  | inl stay ↦ (false, at (wyhash64 random).0 0, netem-first random ps ∙ rw stay refl, inl refl)
  | inr leave ↦ (
    true,
    at (wyhash64 random).0 2,
    netem-first random ps
        ∙ rw
            (
              leave,
              le→ltb (first_draw (at random 0)) (u64 (ps.p0 + ps.p1))
                  (omega (arith, ltb→le (first_draw (at random 0)) ps.p0 leave)),
            )
            refl,
    inr refl,
  )
]
