-- ===== src/Moonem/Loss/Split.antt =====
-- `applyLoss` of src/moonem_common.h: no packet is lost from sight, and the uniform model.
use Prim.Native.Nat.add
use mathlib.Core.Path.{subst}
use mathlib.Core.Option.{some-injective}
use moon_gen_dpdk_v.Prelude.{
  ℕ, suc, ◌+◌, ◌≡◌, ◌≢◌, refl, Bool, true, false, ◌⊎◌, inl, inr, Option, none, some, List, [], ◌∷◌,
  arith, ltb, Bool-cases, if◌then◌else◌, length,
}
use moon_gen_dpdk_v.Dpdk.{Mbuf}
use moon_gen_dpdk_v.Moonem.Loss.{
  LossType, no_loss, uniform, ge, netem, MoonemConfig, LossState, Applied, decide, loss_loop,
  drop_test, apply_loss, apply_loss_of, ◌>>=◌, uniform_drop, wyhash_mix,
}
use moon_gen_dpdk_v.Moonem.Loss.Hash.{after, after-suc, after-zero}

-- Each packet of `bufs` went to one of two lists, and both keep the order.
abbrev pub IsSplit : List Mbuf → List Mbuf → List Mbuf → Type 0
IsSplit [] xs ys = (xs ≡ []) × (ys ≡ [])
IsSplit (b ∷ bufs) xs ys =
    ((rest : List Mbuf) × (xs ≡ b ∷ rest) × IsSplit bufs rest ys)
    ⊎ ((rest : List Mbuf) × (ys ≡ b ∷ rest) × IsSplit bufs xs rest)

IsSplit-decide :
    (b : Mbuf) (bufs : List Mbuf) (drop : Bool) (a : Applied)
    → IsSplit bufs a.accepted a.freed
    → IsSplit (b ∷ bufs) (decide b drop a).accepted (decide b drop a).freed
IsSplit-decide b bufs true a h = inr (a.freed, refl, h)
IsSplit-decide b bufs false a h = inl (a.accepted, refl, h)

pub >>=-eq-some {ℓ κ} :
    {A : Type ℓ} {B : Type κ} (m : Option A) (f : A → Option B) {b : B}
    → (m >>= f) ≡ some b
    → (a : A) × (m ≡ some a) × (f a ≡ some b)
>>=-eq-some none f h = cc
>>=-eq-some (some a) f h = (a, refl, h)

loss_loop-IsSplit :
    (drop : LossState → Option (Bool × LossState)) (bufs : List Mbuf) (s : LossState) (a : Applied)
    → loss_loop drop bufs s ≡ some a
    → IsSplit bufs a.accepted a.freed
unfolding loss_loop
loss_loop-IsSplit drop [] s a e = ground arith
loss_loop-IsSplit drop (b ∷ bufs) s a e =
    let ((drops, s'), e1, e2) = >>=-eq-some (drop s) _ e in
    let (a', e3, e4) = >>=-eq-some (loss_loop drop bufs s') _ e2 in
    subst (λ (x : Applied). IsSplit (b ∷ bufs) x.accepted x.freed) (some-injective _ _ e4)
      (IsSplit-decide b bufs drops a' (loss_loop-IsSplit drop bufs s' a' e3))

-- Unless the loss type is NONE, and if it reads in bounds, `applyLoss` passes on or frees each
-- packet, none of them twice, and keeps the order of those that it passes on.
pub apply_loss-IsSplit :
    (config : MoonemConfig) (bufs : List Mbuf) (s : LossState) (a : Applied)
    → config.loss_type ≢ no_loss
    → apply_loss config bufs s ≡ some a
    → IsSplit bufs a.accepted a.freed
unfolding apply_loss
apply_loss-IsSplit config bufs s a lossy e = by_type config.loss_type lossy e
  where
    by_type :
        (t : LossType)
        → t ≢ no_loss
        → apply_loss_of t config bufs s ≡ some a
        → IsSplit bufs a.accepted a.freed
    by_type no_loss h e' = absurd (h refl)
    by_type uniform h e' = loss_loop-IsSplit (drop_test config uniform) bufs s a e'
    by_type ge h e' = loss_loop-IsSplit (drop_test config ge) bufs s a e'
    by_type netem h e' = loss_loop-IsSplit (drop_test config netem) bufs s a e'

-- The uniform model on its own: the packet at place i is lost if the number at place i of the
-- generator's sequence lies below the limit.
abbrev pub survivors : ℕ → ℕ → ℕ → List Mbuf → List Mbuf
survivors seed loss i [] = []
survivors seed loss i (b ∷ bufs) =
    let rest = survivors seed loss (suc i) bufs in
    if ltb (wyhash_mix (after (suc i) seed)) loss then rest else b ∷ rest

abbrev pub casualties : ℕ → ℕ → ℕ → List Mbuf → List Mbuf
casualties seed loss i [] = []
casualties seed loss i (b ∷ bufs) =
    let rest = casualties seed loss (suc i) bufs in
    if ltb (wyhash_mix (after (suc i) seed)) loss then b ∷ rest else rest

uniform_loop :
    (config : MoonemConfig) (seed i state : ℕ) (bufs : List Mbuf)
    → loss_loop (drop_test config uniform) bufs (record { random = after i seed; state = state })
      ≡ some (record {
        accepted = survivors seed config.loss i bufs;
        freed = casualties seed config.loss i bufs;
        loss_state = record { random = after (length bufs + i) seed; state = state };
      })
unfolding loss_loop uniform_drop
uniform_loop config seed i state [] = rw (add.zero i) refl
uniform_loop config seed i state (b ∷ bufs) =
    let places : length bufs + suc i ≡ suc (length bufs) + i = omega arith in
    rw (after-suc i seed, uniform_loop config seed (suc i) state bufs, places)
      (elim (Bool-cases (ltb (wyhash_mix (after (suc i) seed)) config.loss)) [
        | inl lost ↦ rw lost refl
        | inr kept ↦ rw kept refl
      ])

-- Under the uniform model `applyLoss` always returns: it passes on, in order, the packets whose
-- number in the generator's sequence is not below the limit, frees the others, and has drawn one
-- number for each packet.
pub apply_loss-uniform :
    (config : MoonemConfig) (bufs : List Mbuf) (s : LossState)
    → config.loss_type ≡ uniform
    → apply_loss config bufs s
      ≡ some (record {
        accepted = survivors s.random config.loss 0 bufs;
        freed = casualties s.random config.loss 0 bufs;
        loss_state = record { random = after (length bufs) s.random; state = s.state };
      })
unfolding apply_loss
apply_loss-uniform config bufs s e =
    let start = after-zero s.random in
    let drawn : length bufs + 0 ≡ length bufs = omega arith in
    let run = uniform_loop config s.random 0 s.state bufs in rw e (rw (start, drawn) at run)

pub IsSplit-length :
    (bufs xs ys : List Mbuf) → IsSplit bufs xs ys → length xs + length ys ≡ length bufs
IsSplit-length [] xs ys (e, e') = rw (e, e') (omega arith)
IsSplit-length (b ∷ bufs) xs ys (inl (rest, e, h)) =
    rw e (omega (arith, IsSplit-length bufs rest ys h))
IsSplit-length (b ∷ bufs) xs ys (inr (rest, e, h)) =
    rw e (omega (arith, IsSplit-length bufs xs rest h))
