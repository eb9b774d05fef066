-- ===== src/Moonem/Loss/Hash.antt =====
-- The generator `wyhash64` of src/moonem_common.h.
use moon_gen_dpdk_v.Prelude.{ℕ, zero, suc, ◌+◌, ◌-◌, ◌*◌, ◌%◌, ◌^◌, ◌<◌, ◌≡◌, refl, arith, u64}
use moon_gen_dpdk_v.Moonem.Loss.{wyhash_next}

-- The state after `n` numbers.
pub after : ℕ → ℕ → ℕ
after zero s = s
after (suc n) s = wyhash_next (after n s)

pub after-suc : (n s : ℕ) → wyhash_next (after n s) ≡ after (suc n) s
unfolding after
after-suc n s = refl

pub after-zero : (s : ℕ) → after 0 s ≡ s
unfolding after
after-zero s = refl

after-eq : (n s : ℕ) → s < 2 ^ 64 → after n s ≡ u64 (s + n * 0x60bee2bee120fc15)
unfolding after wyhash_next
after-eq zero s h = omega arith
after-eq (suc n) s h = omega (arith, after-eq n s h)

-- The generator has the full period: from every seed, 2 ^ 64 numbers are drawn before a state comes
-- back, and every 64-bit state is reached on the way.
pub after_period :
    (s : ℕ)
    → s < 2 ^ 64
    → ((i j : ℕ) → i < 2 ^ 64 → j < 2 ^ 64 → after i s ≡ after j s → i ≡ j)
      × ((t : ℕ) → t < 2 ^ 64 → (n : ℕ) × (n < 2 ^ 64) × (after n s ≡ t))
after_period s h = (
  λ i j p q e. omega (arith, after-eq i s h, after-eq j s h),
  λ t p.
      let n = (t + 2 ^ 64 - s) * 0x4718c01ea76cf33d % 2 ^ 64 in
      (n, omega arith, omega (arith, after-eq n s h)),
)
