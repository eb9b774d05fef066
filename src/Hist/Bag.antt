-- ===== src/Hist/Bag.antt =====
-- The lines that src/histogram.cpp writes, as a function of the bag of the values: their order does
-- not matter, also where a value makes an update fail.
use mathlib.Core.List.{Permᴰ}
use mathlib.Core.List.Permᴰ.{nil, cons, swap, trans}
use mathlib.Core.Option
use mathlib.Core.Quot
use mathlib.Core.Quot.{Quot}
use native.Mathlib.Decide.{ℕ_discrete}
use moon_gen_dpdk_v.Prelude.{
  ℕ, ◌+◌, ◌/◌, ◌≡◌, refl, sym, ap, ◌∙◌, Option, none, some, List, [], ◌∷◌, arith, Bool-cases, inl,
  inr, true, false, leb, u32, if◌then◌else◌, Option-cases,
}
use moon_gen_dpdk_v.Prelude.Int.{ℤ, ltb_ℤ, pos, negsuc}
use moon_gen_dpdk_v.Double.{Double}
use moon_gen_dpdk_v.Hist.{
  Histogram, bucket, bump, create, update, update_all, measured, rows, ◌>>=◌,
}

-- Incomparable keys are the same key.
antisym_ℤ : (a b : ℤ) → ltb_ℤ a b ≡ false → ltb_ℤ b a ≡ false → a ≡ b
antisym_ℤ (pos a) (pos b) h k = ap pos (ground arith)
antisym_ℤ (pos a) (negsuc b) h k = ground arith
antisym_ℤ (negsuc a) (pos b) h k = ground arith
antisym_ℤ (negsuc a) (negsuc b) h k = ap negsuc (ground arith)

less_trans : (a b c : ℤ) → ltb_ℤ a b ≡ true → ltb_ℤ b c ≡ true → ltb_ℤ a c ≡ true
less_trans a b c h k = ground arith

less_equal :
    (a b c : ℤ) → ltb_ℤ a b ≡ true → ltb_ℤ b c ≡ false → ltb_ℤ c b ≡ false → ltb_ℤ a c ≡ true
less_equal a b c h k l = ground arith

less-asym : (a b : ℤ) → ltb_ℤ a b ≡ true → ltb_ℤ b a ≡ false
less-asym a b h = ground arith

bump_less :
    (key k : ℤ) (n : ℕ) (rest : List (ℤ × ℕ))
    → ltb_ℤ key k ≡ true
    → bump key ((k, n) ∷ rest) ≡ (key, 1) ∷ (k, n) ∷ rest
unfolding bump
bump_less key k n rest h = rw h refl

bump_more :
    (key k : ℤ) (n : ℕ) (rest : List (ℤ × ℕ))
    → ltb_ℤ k key ≡ true
    → bump key ((k, n) ∷ rest) ≡ (k, n) ∷ bump key rest
unfolding bump
bump_more key k n rest h = rw (less-asym k key h, h) refl

bump_equal :
    (key k : ℤ) (n : ℕ) (rest : List (ℤ × ℕ))
    → ltb_ℤ key k ≡ false
    → ltb_ℤ k key ≡ false
    → bump key ((k, n) ∷ rest) ≡ (k, u32 (n + 1)) ∷ rest
unfolding bump
bump_equal key k n rest h l = rw (h, l) refl

bump_nil : (key : ℤ) → bump key [] ≡ (key, 1) ∷ []
unfolding bump
bump_nil key = refl

bump_comm_less :
    (a b : ℤ) (s : List (ℤ × ℕ)) → ltb_ℤ a b ≡ true → bump a (bump b s) ≡ bump b (bump a s)
bump_comm_less a b [] h =
    rw (bump_nil b, bump_nil a, bump_less a b 1 [] h, bump_more b a 1 [] h, bump_nil b) refl
bump_comm_less a b ((k, n) ∷ rest) h = elim (Bool-cases (ltb_ℤ b k)) [
  | inl less ↦
      rw
        (
          bump_less b k n rest less,
          bump_less a k n rest (less_trans a b k h less),
          bump_less a b 1 ((k, n) ∷ rest) h,
          bump_more b a 1 ((k, n) ∷ rest) h,
          bump_less b k n rest less,
        )
        refl
  | inr not_less ↦ elim (Bool-cases (ltb_ℤ k b)) [
    | inr equal ↦
        let below = less_equal a b k h not_less equal in
        rw
          (
            bump_equal b k n rest not_less equal,
            bump_less a k n rest below,
            bump_less a k (u32 (n + 1)) rest below,
            bump_more b a 1 ((k, n) ∷ rest) h,
            bump_equal b k n rest not_less equal,
          )
          refl
    | inl more ↦ elim (Bool-cases (ltb_ℤ a k)) [
      | inl low ↦
          rw
            (
              bump_more b k n rest more,
              bump_less a k n rest low,
              bump_less a k n (bump b rest) low,
              bump_more b a 1 ((k, n) ∷ rest) h,
              bump_more b k n rest more,
            )
            refl
      | inr not_low ↦ elim (Bool-cases (ltb_ℤ k a)) [
        | inl high ↦
            rw
              (
                bump_more b k n rest more,
                bump_more a k n rest high,
                bump_more a k n (bump b rest) high,
                bump_more b k n (bump a rest) more,
                bump_comm_less a b rest h,
              )
              refl
        | inr here ↦
            rw
              (
                bump_more b k n rest more,
                bump_equal a k n rest not_low here,
                bump_equal a k n (bump b rest) not_low here,
                bump_more b k (u32 (n + 1)) rest more,
              )
              refl
      ]
    ]
  ]
]

-- Two increments commute, whatever the map holds.
bump_comm : (a b : ℤ) (s : List (ℤ × ℕ)) → bump a (bump b s) ≡ bump b (bump a s)
bump_comm a b s = elim (Bool-cases (ltb_ℤ a b)) [
  | inl less ↦ bump_comm_less a b s less
  | inr not_less ↦ elim (Bool-cases (ltb_ℤ b a)) [
    | inl more ↦ sym (bump_comm_less b a s more)
    | inr equal ↦ rw (antisym_ℤ a b not_less equal) refl
  ]
]

-- The map after a series of updates on the map `s`.
abbrev counted : ℕ → ℕ → List ℤ → List (ℤ × ℕ) → Option (List (ℤ × ℕ))
counted size half [] s = some s
counted size half (v ∷ vs) s = bucket size half v >>= λ key. counted size half vs (bump key s)

counted_swap :
    (size half : ℕ) (a b : ℤ) (vs : List ℤ) (s : List (ℤ × ℕ))
    → counted size half (a ∷ b ∷ vs) s ≡ counted size half (b ∷ a ∷ vs) s
counted_swap size half a b vs s = elim (Option-cases (bucket size half a)) [
  | inl failed ↦ elim (Option-cases (bucket size half b)) [
    | inl failed' ↦ rw (failed, failed') refl
    | inr (key', found') ↦ rw (failed, found') refl
  ]
  | inr (key, found) ↦ elim (Option-cases (bucket size half b)) [
    | inl failed' ↦ rw (found, failed') refl
    | inr (key', found') ↦ rw (found, found', bump_comm key' key s) refl
  ]
]

counted-Permᴰ :
    (size half : ℕ) (vs ws : List ℤ)
    → Permᴰ vs ws
    → (s : List (ℤ × ℕ)) → counted size half vs s ≡ counted size half ws s
counted-Permᴰ size half _ _ nil s = refl
counted-Permᴰ size half _ _ (cons {a} {b} {l₁} {l₂} e p) s =
    rw e (elim (Option-cases (bucket size half b)) [
      | inl failed ↦ rw failed refl
      | inr (key, found) ↦ rw found (counted-Permᴰ size half l₁ l₂ p (bump key s))
    ])
counted-Permᴰ size half _ _ (swap {a} {b} {a'} {b'} {l} e e') s =
    rw (e, e') (counted_swap size half b' a' l s)
counted-Permᴰ size half _ _ (trans p q) s =
    counted-Permᴰ size half _ _ p s ∙ counted-Permᴰ size half _ _ q s

-- The values, in no order.
abbrev pub Bag : Type 0
Bag = Quot (Permᴰ {A = ℤ})

Rows-set : IsSet (Option (List (ℤ × ℕ)))
Rows-set = hlevel ℕ_discrete

-- The lines that are written of a bag of values, by a map that is filled in any order.
pub written_of : ℕ → Bag → Option (List (ℤ × ℕ))
written_of size =
    if leb size 0
    then (λ bag. none)
    else Quot.lift Rows-set (λ vs. counted size (size / 2) vs [])
        (λ vs ws p. counted-Permᴰ size (size / 2) vs ws p [])

module _ {W : Type 0} ⦃d : Double W⦄ where
  update_all-counted :
      (vs : List ℤ) (h : Histogram W)
      → Option.map rows (update_all vs h) ≡ counted h.bucket_size h.bucket_half vs h.storage
  unfolding update_all update rows
  update_all-counted [] h = refl
  update_all-counted (v ∷ vs) h = elim (Option-cases (bucket h.bucket_size h.bucket_half v)) [
    | inl failed ↦ rw failed refl
    | inr (key, found) ↦
        rw found (update_all-counted vs (record (measured v h) { storage = bump key h.storage }))
  ]

-- What a histogram with this bucket size writes of the values, if no update fails.
abbrev pub written : (W : Type 0) → ⦃d : Double W⦄ → ℕ → List ℤ → Option (List (ℤ × ℕ))
written W size vs = Option.map rows (create {W = W} size >>= λ h. update_all vs h)

written-Bag :
    (W : Type 0) ⦃d : Double W⦄ (size : ℕ) (vs : List ℤ)
    → written W size vs ≡ written_of size (Quot.mk vs)
unfolding create written_of
written-Bag W size vs = elim (Bool-cases (leb size 0)) [
  | inl zero ↦ rw zero refl
  | inr positive ↦ rw positive (update_all-counted vs _)
]

-- The lines that are written are a function of the bag of the values: a histogram writes the same of
-- any two lists with the same values, each as often, in whatever order the updates come, and then
-- the updates of both fail or those of neither do.
pub written-written_of :
    (W : Type 0) ⦃d : Double W⦄ (size : ℕ) (vs ws : List ℤ)
    → Permᴰ vs ws
    → (written W size vs ≡ written_of size (Quot.mk vs))
      × (written W size ws ≡ written_of size (Quot.mk vs))
written-written_of W size vs ws p =
    (written-Bag W size vs, written-Bag W size ws ∙ sym (ap (written_of size) (Quot.sound p)))
