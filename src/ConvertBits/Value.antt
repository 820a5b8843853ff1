-- ===== src/ConvertBits/Value.antt =====
-- `ConvertBits` of util/bech32.go and numbers: groups of `w` bits, read one after the other, are
-- the digits of a number, which the loops keep.
use Prim.Native.Nat.{bit_or}
use native.Mathlib.Nat.{add-mul, div-add-mod', mod-eq_of_lt, pow-le-pow_right}
use dashcash_wallet.Bits.Append.{or_append}
use dashcash_wallet.ConvertBits.{Regroup, close_group}
use dashcash_wallet.ConvertBits.Shifts.{append-lt, append_twice, pow_pos, power, top_bits-lt}
use dashcash_wallet.Prelude.{
  ℕ, ◌+◌, ◌*◌, ◌/◌, ◌%◌, ◌^◌, ◌≤◌, ◌<◌, ◌≡◌, refl, ap, ◌∙◌, arith, Bool-cases, ◌==◌, ==_iff, inl,
  inr, List, [], ◌∷◌, ◌++◌, All, All-append, length, length-append,
}

-- The number whose bits are those of `a` and then the groups of `w` bits.
abbrev pub joined : ℕ → ℕ → List ℕ → ℕ
joined w a [] = a
joined w a (v ∷ vs) = joined w (a * 2 ^ w + v) vs

pub joined-append :
    (w a : ℕ) (vs : List ℕ) (v : ℕ) → joined w a (vs ++ v ∷ []) ≡ joined w a vs * 2 ^ w + v
joined-append w a [] v = refl
joined-append w a (u ∷ vs) v = joined-append w (a * 2 ^ w + u) vs v

-- All bits collected, as a number, and how many they are.
abbrev pub total : ℕ → Regroup → ℕ
total w r = joined w 0 r.regrouped * 2 ^ r.filled_bits + r.next_byte

abbrev pub size : ℕ → Regroup → ℕ
size w r = length r.regrouped * w + r.filled_bits

-- The groups fit in `w` bits, and the one that is being filled in what is filled of it.
abbrev pub IsBelow : ℕ → Regroup → Type 0
IsBelow w r = All (λ v. v < 2 ^ w) r.regrouped × (r.next_byte < 2 ^ r.filled_bits)

-- `r'` holds the bits of `r` and then the `e` bits of `v`.
abbrev pub Appends : ℕ → ℕ → ℕ → Regroup → Regroup → Type 0
Appends w e v r r' = (total w r' ≡ total w r * 2 ^ e + v) × (size w r' ≡ size w r + e)

-- Between the rounds no group is full.
abbrev pub IsOpen : ℕ → Regroup → Type 0
IsOpen w r = IsBelow w r × (r.filled_bits < w)

pub close_group_full :
    (w : ℕ) (r : Regroup)
    → 1 ≤ w
    → IsBelow w r
    → r.filled_bits ≡ w
    → IsOpen w (close_group w r) × Appends w 0 0 r (close_group w r)
unfolding close_group
close_group_full w r one h full =
    let fits : r.next_byte < 2 ^ w = omega (arith, h.1, power full) in
    rw ((==_iff r.filled_bits w).1 full, joined-append w 0 r.regrouped r.next_byte)
      (
        (
          (All-append (λ v. v < 2 ^ w) r.regrouped (r.next_byte ∷ []) h.0 (fits, tt), omega arith),
          omega arith,
        ),
        (
          omega (arith, ap (λ (t : ℕ). joined w 0 r.regrouped * t) (power full)),
          omega (
            arith,
            full,
            ap (λ (t : ℕ). t * w) (length-append r.regrouped (r.next_byte ∷ [])),
            add-mul (length r.regrouped) 1 w,
          ),
        ),
      )

close_group_lem :
    (w : ℕ) (r : Regroup)
    → 1 ≤ w
    → IsBelow w r
    → r.filled_bits ≤ w
    → IsOpen w (close_group w r) × Appends w 0 0 r (close_group w r)
unfolding close_group
close_group_lem w r one h k = elim (Bool-cases (r.filled_bits == w)) [
  | inl full ↦ close_group_full w r one h ((==_iff r.filled_bits w).0 full)
  | inr part ↦ rw part ((h, ground arith), (omega arith, omega arith))
]

-- Bits go behind the ones of the group that is being filled.
next_byte_lem :
    (n f e v : ℕ) → n < 2 ^ f → v < 2 ^ e → f + e ≤ 8 → bit_or (n * 2 ^ e % 256) v ≡ n * 2 ^ e + v
next_byte_lem n f e v h k room =
    let small : n * 2 ^ e < 256 = omega (
      arith,
      append-lt f e n 0 h (pow_pos e),
      pow-le-pow_right {n = 2} (omega arith) {i = f + e} {j = 8} room,
    ) in
    rw (mod-eq_of_lt small) (or_append e n v k)

-- A round, but for the bits that it takes from the byte.
abbrev pub filled : ℕ → ℕ → ℕ → Regroup → Regroup
filled w e v r =
    close_group w (record r {
      next_byte = bit_or (r.next_byte * 2 ^ e % 256) v;
      filled_bits = r.filled_bits + e;
    })

filled-Appends :
    (w e v : ℕ) (r : Regroup)
    → 1 ≤ w
    → w ≤ 8
    → v < 2 ^ e
    → r.filled_bits + e ≤ w
    → IsOpen w r
    → IsOpen w (filled w e v r) × Appends w e v r (filled w e v r)
filled-Appends w e v r one eight k room h =
    let n = r.next_byte in
    let f = r.filled_bits in
    let next : bit_or (n * 2 ^ e % 256) v ≡ n * 2 ^ e + v =
      next_byte_lem n f e v h.0.1 k (omega arith) in
    let below : bit_or (n * 2 ^ e % 256) v < 2 ^ (f + e) = rw next (append-lt f e n v h.0.1 k) in
    let closed =
      close_group_lem w (record r { next_byte = bit_or (n * 2 ^ e % 256) v; filled_bits = f + e })
        one (h.0.0, below) room in
    (
      closed.0,
      (
        omega (arith, closed.1.0, next, append_twice f e (joined w 0 r.regrouped) n v),
        omega (arith, closed.1.1),
      ),
    )

Appends-trans :
    (w e q v l : ℕ) (r s t : Regroup)
    → Appends w e v r s
    → Appends w q l s t
    → Appends w (e + q) (v * 2 ^ q + l) r t
Appends-trans w e q v l r s t h k =
    (k.0 ∙ ap (λ n. n * 2 ^ q + l) h.0 ∙ append_twice e q (total w r) v l, omega (arith, h.1, k.1))

-- What a function of the loops does to a group of `e` bits with the value `v`.
abbrev pub Takes : ℕ → ℕ → ℕ → Regroup → Regroup → Type 0
Takes w e v r r' = IsOpen w r' × Appends w e v r r'

pub Takes-nothing : (w x : ℕ) (r : Regroup) → IsOpen w r → x < 2 ^ 0 → Takes w 0 x r r
Takes-nothing w x r h k = (h, (omega arith, omega arith))

-- A round takes `e` bits of the `e + q` at the upper end of a byte, and leaves `q`.
pub round_lem :
    (w e q d x : ℕ) (r rest : Regroup)
    → 1 ≤ w
    → w ≤ 8
    → e + q + d ≡ 8
    → x < 2 ^ (e + q)
    → r.filled_bits + e ≤ w
    → IsOpen w r
    → (IsOpen w (filled w e (x / 2 ^ q) r) → Takes w q (x % 2 ^ q) (filled w e (x / 2 ^ q) r) rest)
    → Takes w (e + q) x r rest
round_lem w e q d x r rest one eight whole h room open_r next =
    let step =
      filled-Appends w e (x / 2 ^ q) r one eight (top_bits-lt e q d x whole h) room open_r in
    let after = next step.0 in
    let split : x / 2 ^ q * 2 ^ q + x % 2 ^ q ≡ x = div-add-mod' x (2 ^ q) in
    let both = Appends-trans w e q (x / 2 ^ q) (x % 2 ^ q) r _ rest step.1 after.1 in
    (after.0, (both.0 ∙ ap (λ n. total w r * 2 ^ (e + q) + n) split, both.1))
