-- ===== src/Bech32/Polymod.antt =====
-- The polymod loop: what a change in the low bits does to it, and its range.
use Prim.Native.Nat.{bit_and, bit_xor}
use dashcash_wallet.Prelude.{
  ℕ, ◌+◌, ◌*◌, ◌/◌, ◌%◌, ◌^◌, ◌≤◌, ◌<◌, ◌≡◌, refl, sym, ap, ◌∙◌, inl, inr, Bool-cases, List, [],
  ◌∷◌, ◌++◌, All, arith, ◌==◌, length, replicate,
}
use dashcash_wallet.Bits.{
  xor-zero, xor_comm, xor_assoc, xor-lt, xor_low, xor_append, xor_high, and_mask,
}
use dashcash_wallet.Bech32.{gen, add_generators, polymod_step, polymod_from}
use native.Mathlib.Nat.{div-add-mod', pow-suc, one-le-pow}

-- The generators are added whatever the low bits are.
add_generators-xor :
    (b i : ℕ) (gs : List ℕ) (chk y : ℕ)
    → add_generators b i gs (bit_xor chk y) ≡ bit_xor (add_generators b i gs chk) y
unfolding add_generators
add_generators-xor b i [] chk y = refl
add_generators-xor b i (g ∷ gs) chk y = elim (Bool-cases (bit_and b (2 ^ i) == 0)) [
  | inl e ↦ rw e (add_generators-xor b (i + 1) gs chk y)
  | inr e ↦ rw e (
      ap (add_generators b (i + 1) gs)
        (xor_assoc chk y g ∙ ap (bit_xor chk) (xor_comm y g) ∙ sym (xor_assoc chk g y))
      ∙ add_generators-xor b (i + 1) gs (bit_xor chk g) y)
]

add_generators-lt :
    (b i : ℕ) (gs : List ℕ) (chk : ℕ)
    → All (λ g. g < 2 ^ 40) gs
    → chk < 2 ^ 40
    → add_generators b i gs chk < 2 ^ 40
unfolding add_generators
add_generators-lt b i [] chk small h = h
add_generators-lt b i (g ∷ gs) chk small h = elim (Bool-cases (bit_and b (2 ^ i) == 0)) [
  | inl e ↦ rw e (add_generators-lt b (i + 1) gs chk small.1 h)
  | inr e ↦
      rw e (add_generators-lt b (i + 1) gs (bit_xor chk g) small.1 (xor-lt 40 chk g h small.0))
]

and_low35 : (chk : ℕ) → bit_and chk 0x07ffffffff ≡ chk % 2 ^ 35
and_low35 chk = and_mask 35 chk

pub polymod_step-lt : (chk v : ℕ) → v < 2 ^ 40 → polymod_step chk v < 2 ^ 40
unfolding polymod_step gen
polymod_step-lt chk v h = rw (and_low35 chk) (
    add_generators-lt (chk / 2 ^ 35) 0 gen _ (omega arith)
      (xor-lt 40 (chk % 2 ^ 35 * 2 ^ 5) v (omega arith) h))

pub polymod_from-lt :
    (chk : ℕ) (vs : List ℕ) → chk < 2 ^ 40 → All (λ v. v < 32) vs → polymod_from chk vs < 2 ^ 40
unfolding polymod_from
polymod_from-lt chk [] h small = h
polymod_from-lt chk (v ∷ vs) h small =
    polymod_from-lt (polymod_step chk v) vs (polymod_step-lt chk v (omega arith)) small.1

pub polymod_from-append :
    (chk : ℕ) (vs ws : List ℕ) → polymod_from chk (vs ++ ws) ≡ polymod_from (polymod_from chk vs) ws
unfolding polymod_from
polymod_from-append chk [] ws = refl
polymod_from-append chk (v ∷ vs) ws = polymod_from-append (polymod_step chk v) vs ws

-- Exclusive or with less than 2 ^ 35 stays below bit 35.
xor_split35 : (c x : ℕ) → x < 2 ^ 35 → bit_xor c x ≡ c / 2 ^ 35 * 2 ^ 35 + bit_xor (c % 2 ^ 35) x
xor_split35 c x h =
    let whole : c / 2 ^ 35 * 2 ^ 35 + c % 2 ^ 35 ≡ c = div-add-mod' c (2 ^ 35) in
    ap (λ n. bit_xor n x) (sym whole) ∙ xor_low 35 (c / 2 ^ 35) (c % 2 ^ 35) x (omega arith) h

xor_group :
    (a x v : ℕ) → v < 32 → bit_xor (bit_xor a x * 2 ^ 5) v ≡ bit_xor (a * 2 ^ 5) (x * 2 ^ 5 + v)
xor_group a x v h = xor_append 5 (bit_xor a x) v h ∙ sym (xor_high 5 a x v h)

-- A round after a change `x` in the low bits: the change moves up and takes the value in.
pub polymod_step-xor :
    (c x v : ℕ)
    → x < 2 ^ 35
    → v < 32
    → polymod_step (bit_xor c x) v ≡ bit_xor (polymod_step c 0) (x * 2 ^ 5 + v)
unfolding polymod_step
polymod_step-xor c x v h k =
    let low : bit_xor (c % 2 ^ 35) x < 2 ^ 35 = xor-lt 35 (c % 2 ^ 35) x (omega arith) h in
    let top : bit_xor c x / 2 ^ 35 ≡ c / 2 ^ 35 = omega (arith, xor_split35 c x h) in
    let rest : bit_and (bit_xor c x) 0x07ffffffff ≡ bit_xor (c % 2 ^ 35) x =
      omega (arith, and_low35 (bit_xor c x), xor_split35 c x h) in
    rw (top, rest, and_low35 c, xor_group (c % 2 ^ 35) x v k, xor-zero (c % 2 ^ 35 * 2 ^ 5))
      (add_generators-xor (c / 2 ^ 35) 0 gen (c % 2 ^ 35 * 2 ^ 5) (x * 2 ^ 5 + v))

-- Groups of five bits, highest first, as one number that starts with `x`.
abbrev pub pack : ℕ → List ℕ → ℕ
pack x [] = x
pack x (v ∷ vs) = pack (x * 2 ^ 5 + v) vs

group_fits : (x v p : ℕ) → v < 32 → (x + 1) * (p * 32) ≤ 2 ^ 40 → (x * 2 ^ 5 + v + 1) * p ≤ 2 ^ 40
group_fits x v p h k = grind arith

group_small : (x p : ℕ) → 0 < p → (x + 1) * (p * 32) ≤ 2 ^ 40 → x < 2 ^ 35
group_small x p h k = grind arith

-- The loop over the checksum's values is the loop over zeros, changed by those values.
pub polymod_from-xor :
    (vs : List ℕ) (c x : ℕ)
    → All (λ v. v < 32) vs
    → (x + 1) * 32 ^ length vs ≤ 2 ^ 40
    → polymod_from (bit_xor c x) vs ≡ bit_xor (polymod_from c (replicate (length vs) 0)) (pack x vs)
unfolding polymod_from
polymod_from-xor [] c x small h = refl
polymod_from-xor (v ∷ vs) c x small h =
    let p = 32 ^ length vs in
    let bound : (x + 1) * (p * 32) ≤ 2 ^ 40 = rw (← pow-suc 32 (length vs)) h in
    rw
      (polymod_step-xor c x v (group_small x p (one-le-pow (length vs) 32 (omega arith)) bound)
        small.0)
      (polymod_from-xor vs (polymod_step c 0) (x * 2 ^ 5 + v) small.1
        (group_fits x v p small.0 bound))
