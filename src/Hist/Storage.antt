-- ===== src/Hist/Storage.antt =====
-- What the map of src/histogram.cpp holds after a series of updates.
use moon_gen_dpdk_v.Prelude.{
  ℕ, ◌+◌, ◌≤◌, ◌<◌, ◌≡◌, refl, inl, inr, Bool, true, false, not, ◌||◌, Bool-cases, List, [], ◌∷◌,
  arith, if◌then◌else◌, All, u32,
}
use moon_gen_dpdk_v.Prelude.Int.{ℤ, pos_part, neg_part, ltb_ℤ}
use moon_gen_dpdk_v.Hist.{bump}

abbrev pub IsBelow : ℤ → ℤ → Type 0
IsBelow a b = pos_part a + neg_part b < pos_part b + neg_part a

abbrev pub same : ℤ → ℤ → Bool
same a b = not (ltb_ℤ a b || ltb_ℤ b a)

-- The keys stand in order, each once.
abbrev pub IsAscending : List (ℤ × ℕ) → Type 0
IsAscending [] = Unit
IsAscending ((k, n) ∷ rest) = All (λ e. IsBelow k e.0) rest × IsAscending rest

-- The value under a key, 0 without an entry.
abbrev pub lookup : ℤ → List (ℤ × ℕ) → ℕ
lookup key [] = 0
lookup key ((k, n) ∷ rest) = let later = lookup key rest in if same key k then n else later

bump-All :
    (j key : ℤ) (s : List (ℤ × ℕ))
    → IsBelow j key
    → All (λ e. IsBelow j e.0) s
    → All (λ e. IsBelow j e.0) (bump key s)
unfolding bump
bump-All j key [] h a = (h, tt)
bump-All j key ((k, n) ∷ rest) h (b, a) = ground (arith, bump-All j key rest h a)

All-IsBelow :
    (j k : ℤ) (s : List (ℤ × ℕ))
    → IsBelow j k
    → All (λ e. IsBelow k e.0) s
    → All (λ e. IsBelow j e.0) s
All-IsBelow j k [] h a = tt
All-IsBelow j k (e ∷ s) h (b, a) = (omega arith, All-IsBelow j k s h a)

pub bump-IsAscending : (key : ℤ) (s : List (ℤ × ℕ)) → IsAscending s → IsAscending (bump key s)
unfolding bump
bump-IsAscending key [] h = (tt, tt)
bump-IsAscending key ((k, n) ∷ rest) (a, h) = elim (Bool-cases (ltb_ℤ key k)) [
  | inl less ↦
      let below : IsBelow key k = ground arith in
      rw less ((below, All-IsBelow key k rest below a), (a, h))
  | inr not_less ↦ elim (Bool-cases (ltb_ℤ k key)) [
    | inl more ↦
        rw (not_less, more) (bump-All k key rest (ground arith) a, bump-IsAscending key rest h)
    | inr equal ↦ rw (not_less, equal) (a, h)
  ]
]

lookup-below :
    (key k : ℤ) (s : List (ℤ × ℕ))
    → pos_part key + neg_part k ≤ pos_part k + neg_part key
    → All (λ e. IsBelow k e.0) s
    → lookup key s ≡ 0
lookup-below key k [] h a = refl
lookup-below key k ((j, n) ∷ s) h (b, a) = ground (arith, lookup-below key k s h a)

same-shift : (key j k : ℤ) → ltb_ℤ j k ≡ false → ltb_ℤ k j ≡ false → same key k ≡ same key j
same-shift key j k h h' = ground arith

same-apart : (key j k : ℤ) → ltb_ℤ k j ≡ true → same key k ≡ true → same key j ≡ false
same-apart key j k h h' = ground arith

same-IsBelow : (key j k : ℤ) → ltb_ℤ j k ≡ true → same key j ≡ true → IsBelow key k
same-IsBelow key j k h h' = ground arith

-- What an entry in front, with its value for its key, makes of a look-up behind it.
bumped_later :
    (apart : Bool) (n r : ℕ) (found : Bool)
    → (apart ≡ true → found ≡ false)
    → (if apart then n else (if found then u32 (r + 1) else r))
      ≡ (let old = if apart then n else r in if found then u32 (old + 1) else old)
bumped_later true n r found h = rw (h refl) refl
bumped_later false n r found h = refl

bumped_here :
    (found : Bool) (n r : ℕ)
    → (if found then u32 (n + 1) else r)
      ≡ (let old = if found then n else r in if found then u32 (old + 1) else old)
bumped_here true n r = refl
bumped_here false n r = refl

bumped_new :
    (found : Bool) (old : ℕ)
    → (found ≡ true → old ≡ 0)
    → (if found then 1 else old) ≡ (if found then u32 (old + 1) else old)
bumped_new true old h = rw (h refl) refl
bumped_new false old h = refl

pub lookup-bump :
    (key j : ℤ) (s : List (ℤ × ℕ))
    → IsAscending s
    → lookup key (bump j s) ≡ (if same key j then u32 (lookup key s + 1) else lookup key s)
unfolding bump
lookup-bump key j [] h = bumped_new (same key j) 0 (λ e. refl)
lookup-bump key j ((k, n) ∷ rest) (a, h) = elim (Bool-cases (ltb_ℤ j k)) [
  | inl less ↦ rw less (
      bumped_new (same key j) (lookup key ((k, n) ∷ rest)) (λ e.
        let below = same-IsBelow key j k less e in
        lookup-below key key ((k, n) ∷ rest) (omega arith) (below, All-IsBelow key k rest below a)))
  | inr not_less ↦ elim (Bool-cases (ltb_ℤ k j)) [
    | inl more ↦
        rw (not_less, more, lookup-bump key j rest h)
          (bumped_later (same key k) n (lookup key rest) (same key j) (same-apart key j k more))
    | inr equal ↦
        rw (not_less, equal, same-shift key j k not_less equal)
          (bumped_here (same key j) n (lookup key rest))
  ]
]
