-- ===== src/Moonem/Loss/Complete.antt =====
-- Whether `applyLoss` of src/moonem_common.h comes to an end, and what it makes of a burst.
use moon_gen_dpdk_v.Prelude.{
  ◌≡◌, ◌≢◌, refl, Bool, ◌⊎◌, inl, inr, Option, none, some, List, [], ◌∷◌, Option-cases,
}
use moon_gen_dpdk_v.Dpdk.{Mbuf}
use moon_gen_dpdk_v.Moonem.Loss.{
  LossType, no_loss, uniform, ge, netem, MoonemConfig, LossState, Applied, decide, loss_loop,
  drop_test, apply_loss, apply_loss_of, uniform_drop,
}
use moon_gen_dpdk_v.Moonem.Loss.Split.{IsSplit, apply_loss-IsSplit}
use moon_gen_dpdk_v.Moonem.Loss.Markov.{ge_drop-chain}

-- A test that reads in bounds from every state.
abbrev Answers : (LossState → Option (Bool × LossState)) → Type 0
Answers drop = (s : LossState) → (r : Bool × LossState) × (drop s ≡ some r)

loss_loop-total :
    (drop : LossState → Option (Bool × LossState)) (bufs : List Mbuf) (s : LossState)
    → Answers drop
    → (a : Applied) × (loss_loop drop bufs s ≡ some a)
unfolding loss_loop
loss_loop-total drop [] s answers = (record { accepted = []; freed = []; loss_state = s }, refl)
loss_loop-total drop (b ∷ bufs) s answers =
    let ((drops, s'), e) = answers s in
    let (a, e') = loss_loop-total drop bufs s' answers in (decide b drops a, rw e (rw e' refl))

uniform-Answers : (config : MoonemConfig) → Answers (drop_test config uniform)
unfolding uniform_drop
uniform-Answers config s = (_, refl)

ge-Answers : (config : MoonemConfig) → Answers (drop_test config ge)
ge-Answers config s = (_, ge_drop-chain s config.loss_model_parameters)

apply_loss-total :
    (config : MoonemConfig) (bufs : List Mbuf) (s : LossState)
    → config.loss_type ≢ netem
    → (a : Applied) × (apply_loss config bufs s ≡ some a)
unfolding apply_loss
apply_loss-total config bufs s other = by_type config.loss_type other
  where
    by_type : (t : LossType) → t ≢ netem → (a : Applied) × (apply_loss_of t config bufs s ≡ some a)
    by_type no_loss h = (_, refl)
    by_type uniform h = loss_loop-total (drop_test config uniform) bufs s (uniform-Answers config)
    by_type ge h = loss_loop-total (drop_test config ge) bufs s (ge-Answers config)
    by_type netem h = absurd (h refl)

is_netem : (t : LossType) → (t ≡ netem) ⊎ (t ≢ netem)
is_netem no_loss = inr (λ e. cc)
is_netem uniform = inr (λ e. cc)
is_netem ge = inr (λ e. cc)
is_netem netem = inl refl

-- With a loss type other than NONE, `applyLoss` passes on or frees each packet of any burst, none of
-- them twice, and keeps the order of those that it passes on and of those that it frees; the only
-- other end, a read out of bounds, needs the netem model.
pub apply_loss-IsSplit_or_netem :
    (config : MoonemConfig) (bufs : List Mbuf) (s : LossState)
    → config.loss_type ≢ no_loss
    → ((a : Applied) × (apply_loss config bufs s ≡ some a) × IsSplit bufs a.accepted a.freed)
      ⊎ ((config.loss_type ≡ netem) × (apply_loss config bufs s ≡ none))
apply_loss-IsSplit_or_netem config bufs s lossy = elim (Option-cases (apply_loss config bufs s)) [
  | inl out_of_bounds ↦ elim (is_netem config.loss_type) [
    | inl e ↦ inr (e, out_of_bounds)
    | inr other ↦ let (a, e) = apply_loss-total config bufs s other in cc
  ]
  | inr (a, e) ↦ inl (a, e, apply_loss-IsSplit config bufs s a lossy e)
]
