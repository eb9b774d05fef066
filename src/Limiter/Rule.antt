-- ===== src/Limiter/Rule.antt =====
-- The rule for the outer loops of src/software-rate-limiter.cpp: what holds of each round holds of
-- all of them.
use moon_gen_dpdk_v.Prelude.{◌≢◌, Bool, Bool-cases, inl, inr, List, [], ◌∷◌}
use moon_gen_dpdk_v.Limiter.{Ending, going, returned, cut, stale, crashed, Poll, loop, continue}

-- `Does l e l'`: from `l`, a part of the loop ends by `e` in `l'`. `Holds` is kept while it goes on.
pub record IsChain {L : Type 0} (Holds : L → Type 0) (Does : L → Ending → L → Type 0) : Type 0 where
  pub halt : (e : Ending) (l : L) → e ≢ going → Does l e l
  pub follow : (l l' l'' : L) (e : Ending) → Does l going l' → Does l' e l'' → Does l e l''
  pub keep : (l l' : L) → Holds l → Does l going l' → Holds l'

module _ {L : Type 0} (Holds : L → Type 0) (Does : L → Ending → L → Type 0)
    (chain : IsChain Holds Does) (round : Bool → L → Ending × L)
    (ok : (b : Bool) (l : L) → Holds l → Does l (round b l).0 (round b l).1) where
  continue-Does :
      (l : L) (x : Ending × L) (k : L → Ending × L)
      → Holds l
      → Does l x.0 x.1
      → ((l' : L) → Holds l' → Does l' (k l').0 (k l').1)
      → Does l (continue round x k).0 (continue round x k).1
  continue-Does l (going, l') k i h later =
      chain.follow l l' (k l').1 (k l').0 h (later l' (chain.keep l l' i h))
  continue-Does l (returned, l') k i h later = h
  continue-Does l (cut, l') k i h later = h
  continue-Does l (stale, l') k i h later = h
  continue-Does l (crashed, l') k i h later = h

  pub loop-Does :
      (polls : List Poll) (l : L) → Holds l → Does l (loop round polls l).0 (loop round polls l).1
  unfolding loop
  loop-Does [] l i = chain.halt cut l (λ e. cc)
  loop-Does (p ∷ polls) l i = elim (Bool-cases p.is_running) [
    | inl runs ↦ simp runs (
        continue-Does l (round p.ctl_running l) (loop round polls) i (ok p.ctl_running l i)
          (λ l' i'. loop-Does polls l' i'))
    | inr stops ↦ simp stops (chain.halt returned l (λ e. cc))
  ]
