-- ===== src/Sniff/Table/Midway.antt =====
-- A thread of src/moonsniff.cpp between lock and unlock: what it has made of its entry.
use mathlib.Core.Path.{subst}
use mathlib.Core.Option.{some-injective}
use moon_gen_dpdk_v.Prelude.{
  ℕ, ◌≡◌, ◌≢◌, refl, ap, ◌∙◌, inl, inr, Option, none, some, arith, Bool-cases, ◌==◌, if◌then◌else◌,
}
use moon_gen_dpdk_v.Sniff.Table.{Entry, Op, add, test, no_entry}
use moon_gen_dpdk_v.Sniff.Table.Locks.{
  Place, outside, trying, add_locked, add_stamped, add_written, test_locked, test_compared,
  test_read, test_unstamped, test_cleared, advance, finished, holding, put,
}

abbrev pub old_of : ℕ → Entry → ℕ
old_of i e = if e.identifier == i then e.timestamp else 0

-- What the thread at a place has made of the entry `a` that it locked: `e`.
unfoldable pub IsMidway : Place → Entry → Entry → Type 0
IsMidway outside a e = Unit
IsMidway (trying o) a e = Unit
IsMidway (add_locked i t) a e = e ≡ a
IsMidway (add_stamped i t) a e = e ≡ record a { timestamp = t }
IsMidway (add_written i t) a e = e ≡ record { timestamp = t; identifier = i }
IsMidway (test_locked i t) a e = e ≡ a
IsMidway (test_compared i t found) a e = (e ≡ a) × (found ≡ (a.identifier == i))
IsMidway (test_read i t old) a e = (e ≡ a) × (old ≡ old_of i a)
IsMidway (test_unstamped i t old) a e = (e ≡ record a { timestamp = 0 }) × (old ≡ old_of i a)
IsMidway (test_cleared i t old) a e = (e ≡ no_entry) × (old ≡ old_of i a)

-- A statement keeps the call, and what it makes of the entry is as the place says.
pub record Advanced (p q : Place) (a f : Entry) : Type 0 where
  pub same_call : holding q ≡ holding p
  pub midway : IsMidway q a f

-- The place and the entry that a statement gives.
by_result :
    (p : Place) (a : Entry) {r : Place × Entry} {q : Place} {f : Entry}
    → some r ≡ some (q, f)
    → Advanced p r.0 a r.1
    → Advanced p q a f
by_result p a h = subst (λ r. Advanced p r.0 a r.1) (some-injective _ _ h)

pub advance-Advanced :
    (p q : Place) (a e f : Entry) → advance p e ≡ some (q, f) → IsMidway p a e → Advanced p q a f
unfolding advance IsMidway
advance-Advanced outside q a e f h k = cc
advance-Advanced (trying o) q a e f h k = cc
advance-Advanced (add_locked i t) q a e f h k =
    by_result _ a h
      (record { same_call = refl; midway = ap {A = Entry} (λ x. record x { timestamp = t }) k })
advance-Advanced (add_stamped i t) q a e f h k =
    by_result _ a h
      (record { same_call = refl; midway = ap {A = Entry} (λ x. record x { identifier = i }) k })
advance-Advanced (add_written i t) q a e f h k = cc
advance-Advanced (test_locked i t) q a e f h k =
    by_result _ a h
      (record { same_call = refl; midway = (k, ap {A = Entry} (λ x. x.identifier == i) k) })
advance-Advanced (test_compared i t found) q a e f h (k, same) = by_result _ a h (record {
  same_call = refl;
  midway = (
    k,
    ap {A = Entry} (λ x. if found then x.timestamp else 0) k
        ∙ ap (λ b. if b then a.timestamp else 0) same,
  );
})
advance-Advanced (test_read i t old) q a e f h (k, same) = by_result _ a h (record {
  same_call = refl;
  midway = (ap {A = Entry} (λ x. record x { timestamp = 0 }) k, same);
})
advance-Advanced (test_unstamped i t old) q a e f h (k, same) = by_result _ a h (record {
  same_call = refl;
  midway = (ap {A = Entry} (λ x. record x { identifier = 0 }) k, same);
})
advance-Advanced (test_cleared i t old) q a e f h k = cc

module _ {A : Type 0} (f : ℕ → A) (i : ℕ) (a : A) where
  pub put-cases {ℓ} : (P : A → Type ℓ) (j : ℕ) → (i ≡ j → P a) → (i ≢ j → P (f j)) → P (put f i a j)
  put-cases P j same other = elim (Bool-cases (i == j)) [
    | inl e ↦ rw e (same (ground arith))
    | inr e ↦ rw e (other (ground arith))
  ]

  pub put_same : (j : ℕ) → i ≡ j → put f i a j ≡ a
  put_same j e = ground arith

  pub put_other : (j : ℕ) → i ≢ j → put f i a j ≡ f j
  put_other j e = ground arith

pub unput_none : (f : ℕ → Option ℕ) (i n j : ℕ) → put f i (some n) j ≡ none → (i ≢ j) × (f j ≡ none)
unput_none f i n j e = ground arith

pub unput_none_at : (f : ℕ → Option ℕ) (i j : ℕ) → i ≢ j → put f i none j ≡ none → f j ≡ none
unput_none_at f i j h e = ground arith

-- What a call that runs alone makes of its entry.
abbrev pub final : Op → Entry
final (add i t) = record { timestamp = t; identifier = i }
final (test i t) = no_entry

-- What a call reads of its entry.
unfoldable pub ReadsOf : Op → ℕ → Entry → Type 0
ReadsOf (add i t) old a = Unit
ReadsOf (test i t) old a = old ≡ old_of i a

-- A thread at `unlock`: its call, and what it made and read of the entry `a`.
pub record Finished (p : Place) (r : Op × ℕ) : Type 0 where
  pub held : holding p ≡ some r.0
  pub made : (a e : Entry) → IsMidway p a e → e ≡ final r.0
  pub read : (a e : Entry) → IsMidway p a e → ReadsOf r.0 r.1 a

pub finished-Finished : (p : Place) (r : Op × ℕ) → finished p ≡ some r → Finished p r
unfolding IsMidway ReadsOf
finished-Finished (add_written i t) r h =
    subst (Finished (add_written i t)) (some-injective _ _ h)
      (record { held = refl; made = λ a e k. k; read = λ a e k. tt })
finished-Finished (test_cleared i t old) r h =
    subst (Finished (test_cleared i t old)) (some-injective _ _ h)
      (record { held = refl; made = λ a e k. k.0; read = λ a e k. k.1 })
finished-Finished outside r h = cc
finished-Finished (trying o) r h = cc
finished-Finished (add_locked i t) r h = cc
finished-Finished (add_stamped i t) r h = cc
finished-Finished (test_locked i t) r h = cc
finished-Finished (test_compared i t found) r h = cc
finished-Finished (test_read i t old) r h = cc
finished-Finished (test_unstamped i t old) r h = cc
