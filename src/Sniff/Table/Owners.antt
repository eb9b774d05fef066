-- ===== src/Sniff/Table/Owners.antt =====
-- The threads of src/moonsniff.cpp against the calls one after the other: what a thread that holds a
-- lock owns, and the steps that call and lock.
use mathlib.Core.Path.{subst}
use mathlib.Core.Option.{some-injective}
use moon_gen_dpdk_v.Prelude.{
  ℕ, ◌≡◌, ◌≢◌, refl, sym, ap, ◌∙◌, inl, inr, none, some, List, [], ◌∷◌, Bool-cases, ◌==◌,
}
use moon_gen_dpdk_v.Prelude.{sub_u64}
use moon_gen_dpdk_v.Prelude.Int.{ltb_ℤ, signed64}
use moon_gen_dpdk_v.Double.{Double}
use moon_gen_dpdk_v.Sniff.Table.{
  Entry, Moonsniff, Op, add, test, index, update, old_ts, step, test_for,
}
use moon_gen_dpdk_v.Sniff.Table.Locks.{
  Place, trying, called, locked, enter, holding, slot, put, Memory,
}
use moon_gen_dpdk_v.Sniff.Table.Midway.{IsMidway, put-cases, put_same, put_other, unput_none, final}

module _ {W : Type 0} ⦃d : Double W⦄ where
  pub step-hit_list :
      (now : Moonsniff W) (o : Op) → (step now o).hit_list ≡ update now.hit_list (slot o) (final o)
  unfolding step test_for
  step-hit_list now (add i t) = refl
  step-hit_list now (test i t) = elim (Bool-cases (old_ts i now == 0)) [
    | inl none_found ↦ rw none_found refl
    | inr found ↦ elim (Bool-cases (ltb_ℤ (signed64 (sub_u64 t (old_ts i now))) now.thresh)) [
      | inl below ↦ rw (found, below) refl
      | inr above ↦ rw (found, above) refl
    ]
  ]

module _ {W : Type 0} ⦃d : Double W⦄ (s : Moonsniff W) where
  -- The state after the calls of a history, one after the other.
  abbrev pub replay : List (Op × ℕ) → Moonsniff W
  replay [] = s
  replay ((o, old) ∷ history) = step (replay history) o

  -- What a call reads when it runs alone.
  abbrev pub Reads : Moonsniff W → Op → ℕ → Type 0
  Reads now (add i t) old = Unit
  Reads now (test i t) old = old ≡ old_ts i now

  abbrev pub IsSequential : List (Op × ℕ) → Type 0
  IsSequential [] = Unit
  IsSequential ((o, old) ∷ history) = Reads (replay history) o old × IsSequential history

  abbrev pub entry_of : List (Op × ℕ) → ℕ → Entry
  entry_of history j = (replay history).hit_list j

  -- A thread that is midway through a call owns the lock of its entry.
  abbrev pub Owns : Memory → ℕ → Place → Type 0
  Owns m n p =
      (o : Op)
      → holding p ≡ some o
      → (m.mtx (slot o) ≡ some n) × IsMidway p (entry_of m.history (slot o)) (m.hit_list (slot o))

  -- The list is that of the calls that unlocked, but for the entries that are locked.
  pub record IsAtomic (m : Memory) : Type 0 where
    pub sequential : IsSequential m.history
    pub free : (j : ℕ) → m.mtx j ≡ none → m.hit_list j ≡ entry_of m.history j
    pub owners : (n : ℕ) → Owns m n (m.threads n)

  -- Two threads that own locks do not share an entry.
  pub apart : (m : Memory) (n k i j : ℕ) → n ≢ k → m.mtx i ≡ some n → m.mtx j ≡ some k → i ≢ j
  apart m n k i j other e f g = other (some-injective _ _ (sym e ∙ ap m.mtx g ∙ f))

  pub free_apart : (m : Memory) (k i j : ℕ) → m.mtx i ≡ none → m.mtx j ≡ some k → i ≢ j
  free_apart m k i j e f g = cc (sym e ∙ ap m.mtx g ∙ f)

  pub call-IsAtomic : (m : Memory) (n : ℕ) (o : Op) → IsAtomic m → IsAtomic (called m n o)
  call-IsAtomic m n o h = record {
    sequential = h.sequential;
    free = h.free;
    owners = λ k.
        put-cases m.threads n (trying o) (Owns (called m n o) k) k (λ e c g. cc) (λ e. h.owners k);
  }

  entered :
      (m : Memory) (n : ℕ) (o : Op)
      → m.mtx (slot o) ≡ none
      → IsAtomic m
      → Owns (locked m n o) n (enter o)
  unfolding IsMidway
  entered m n (add i t) e h o g =
      subst
        (λ c.
          (put m.mtx (index i) (some n) (slot c) ≡ some n)
          × (m.hit_list (slot c) ≡ entry_of m.history (slot c)))
        (some-injective _ _ g)
        (put_same m.mtx (index i) (some n) (index i) refl, h.free (index i) e)
  entered m n (test i t) e h o g =
      subst
        (λ c.
          (put m.mtx (index i) (some n) (slot c) ≡ some n)
          × (m.hit_list (slot c) ≡ entry_of m.history (slot c)))
        (some-injective _ _ g)
        (put_same m.mtx (index i) (some n) (index i) refl, h.free (index i) e)

  kept :
      (m : Memory) (n k : ℕ) (o : Op)
      → m.mtx (slot o) ≡ none
      → n ≢ k
      → IsAtomic m
      → Owns (locked m n o) k (m.threads k)
  kept m n k o e other h c g =
      let (own, midway) = h.owners k c g in
      let clear = free_apart m k (slot o) (slot c) e own in
      (put_other m.mtx (slot o) (some n) (slot c) clear ∙ own, midway)

  pub lock-IsAtomic :
      (m : Memory) (n : ℕ) (o : Op) → m.mtx (slot o) ≡ none → IsAtomic m → IsAtomic (locked m n o)
  lock-IsAtomic m n o e h = record {
    sequential = h.sequential;
    free = λ j g. h.free j (unput_none m.mtx (slot o) n j g).1;
    owners = λ k.
        put-cases m.threads n (enter o) (Owns (locked m n o) k) k
          (λ same. subst (λ i. Owns (locked m n o) i (enter o)) same (entered m n o e h))
          (λ other. kept m n k o e other h);
  }
