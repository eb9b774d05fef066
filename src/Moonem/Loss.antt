-- ===== src/Moonem/Loss.antt =====
-- src/moonem_common.h: the random number generator, the three loss models and `applyLoss`.
-- `none` is a read outside of `loss_model_parameters`.
pub mod Hash
pub mod Markov
pub mod Split
pub mod Complete
pub mod Tests
use Prim.Native.Nat.{bit_xor}
use moon_gen_dpdk_v.Prelude.{
  ℕ, zero, suc, ◌+◌, ◌*◌, ◌/◌, ◌%◌, ◌^◌, Bool, true, false, not, ◌&&◌, ◌||◌, Option, none, some,
  List, [], ◌∷◌, ltb, leb, ◌==◌, if◌then◌else◌, u64,
}
use moon_gen_dpdk_v.Dpdk.{Mbuf}

pub data LossType : Type 0 where
  no_loss uniform ge netem : LossType

-- `uint64_t loss_model_parameters[5]`
pub record Parameters : Type 0 where
  pub p0 : ℕ
  pub p1 : ℕ
  pub p2 : ℕ
  pub p3 : ℕ
  pub p4 : ℕ

pub record MoonemConfig : Type 0 where
  pub delay : ℕ
  pub rate : ℕ
  pub capacity : ℕ
  pub loss_seed : ℕ
  pub loss_type : LossType
  pub loss : ℕ
  pub loss_model_parameters : Parameters

abbrev pub burst_size : ℕ
burst_size = 64

-- An access by index, with the bounds of the array.
abbrev pub parameter : Parameters → ℕ → Option ℕ
parameter ps zero = some ps.p0
parameter ps (suc zero) = some ps.p1
parameter ps (suc (suc zero)) = some ps.p2
parameter ps (suc (suc (suc zero))) = some ps.p3
parameter ps (suc (suc (suc (suc zero)))) = some ps.p4
parameter ps (suc (suc (suc (suc (suc _))))) = none

-- `*state += 0x60bee2bee120fc15`
unfoldable pub wyhash_next : ℕ → ℕ
wyhash_next state = u64 (state + 0x60bee2bee120fc15)

-- `(tmp >> 64) ^ tmp` of a 128-bit product, stored in 64 bits.
unfoldable pub fold_product : ℕ → ℕ → ℕ
fold_product a b = let tmp = a * b % 2 ^ 128 in u64 (bit_xor (tmp / 2 ^ 64) tmp)

unfoldable pub wyhash_mix : ℕ → ℕ
unfolding fold_product
wyhash_mix state = fold_product (fold_product state 0xa3b195354a39b70d) 0x1b03738712fad5c9

-- The new state and the number.
unfoldable pub wyhash64 : ℕ → ℕ × ℕ
unfolding wyhash_next wyhash_mix
wyhash64 state = let next = wyhash_next state in (next, wyhash_mix next)

-- `loss_state[0]` and `loss_state[1]`
pub record LossState : Type 0 where
  pub random : ℕ
  pub state : ℕ

infixl 5 ◌>>=◌
abbrev pub ◌>>=◌ {ℓ κ} : {A : Type ℓ} {B : Type κ} → Option A → (A → Option B) → Option B
none >>= f = none
some a >>= f = f a

-- Whether the packet is dropped, and the new state.
unfoldable pub ge_drop : LossState → Parameters → Option (Bool × LossState)
unfolding wyhash64
ge_drop s ps =
    let (random1, x) = wyhash64 s.random in
    let (random2, y) = wyhash64 random1 in
    parameter ps 0 >>= λ p. parameter ps 1 >>= λ r.
    if (not (s.state == 0) && ltb x p) || (s.state == 0 && leb r x)
    then (parameter ps 2 >>= λ h. some (ltb y h, record { random = random2; state = 0 }))
    else (parameter ps 3 >>= λ k. some (ltb y k, record { random = random2; state = 1 }))

unfoldable pub netem_drop : LossState → Parameters → Option (Bool × LossState)
unfolding wyhash64
netem_drop s ps =
    let drop12_keep34 = ltb s.state 2 in
    let (random1, x) = wyhash64 s.random in
    parameter ps (s.state * 2) >>= λ stay.
    if ltb x stay
    then some (not drop12_keep34, record { random = random1; state = s.state })
    else (parameter ps (s.state * 2 + 1) >>= λ keep_link_state. some (
      drop12_keep34,
      record {
        random = random1;
        state = bit_xor s.state (if ltb x (u64 (stay + keep_link_state)) then 3 else 2);
      },
    ))

unfoldable pub uniform_drop : LossState → ℕ → Option (Bool × LossState)
unfolding wyhash64
uniform_drop s loss =
    let (random1, x) = wyhash64 s.random in
    some (ltb x loss, record { random = random1; state = s.state })

-- `bufs_send[0..accept_index)`, the packets that were freed, and the state behind the last packet.
pub record Applied : Type 0 where
  pub accepted : List Mbuf
  pub freed : List Mbuf
  pub loss_state : LossState

abbrev pub decide : Mbuf → Bool → Applied → Applied
decide buf drop a =
    if drop then record a { freed = buf ∷ a.freed } else record a { accepted = buf ∷ a.accepted }

-- The loops of `applyLoss`, each with its own test.
unfoldable pub loss_loop :
    (LossState → Option (Bool × LossState)) → List Mbuf → LossState → Option Applied
loss_loop drop [] s = some (record { accepted = []; freed = []; loss_state = s })
loss_loop drop (buf ∷ bufs) s =
    drop s >>= λ (b, s'). loss_loop drop bufs s' >>= λ a. some (decide buf b a)

abbrev pub drop_test : MoonemConfig → LossType → LossState → Option (Bool × LossState)
drop_test config no_loss s = some (true, s)
drop_test config uniform s = uniform_drop s config.loss
drop_test config ge s = ge_drop s config.loss_model_parameters
drop_test config netem s = netem_drop s config.loss_model_parameters

-- `case NONE` returns 0 at once: no packet is accepted, and none is freed.
abbrev apply_loss_of : LossType → MoonemConfig → List Mbuf → LossState → Option Applied
apply_loss_of no_loss config bufs s = some (record { accepted = []; freed = []; loss_state = s })
apply_loss_of uniform config bufs s = loss_loop (drop_test config uniform) bufs s
apply_loss_of ge config bufs s = loss_loop (drop_test config ge) bufs s
apply_loss_of netem config bufs s = loss_loop (drop_test config netem) bufs s

unfoldable pub apply_loss : MoonemConfig → List Mbuf → LossState → Option Applied
unfolding loss_loop
apply_loss config bufs s = apply_loss_of config.loss_type config bufs s
