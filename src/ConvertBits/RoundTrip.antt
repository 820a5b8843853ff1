-- ===== src/ConvertBits/RoundTrip.antt =====
-- `ConvertBits` of util/bech32.go there and back: to smaller groups with padding, and from them.
use native.Mathlib.Nat.{add-mul, mod-eq_of_lt, pow-le-pow_right}
use mathlib.Core.Path.{subst}
use dashcash_wallet.ConvertBits.{
  Regroup, close_group, convert_bits, extract_bits, pad_group, regroup,
}
use dashcash_wallet.ConvertBits.Shifts.{append-lt, append_twice, pow_pos, power, quotient_unique}
use dashcash_wallet.ConvertBits.Extract.{extract_bits-Takes}
use dashcash_wallet.ConvertBits.Value.{Appends, close_group_full, IsOpen, joined, size, total}
use dashcash_wallet.Prelude.{
  ℕ, ◌+◌, ◌-◌, ◌*◌, ◌%◌, ◌^◌, ◌≤◌, ◌<◌, ◌≡◌, refl, sym, ap, ◌∙◌, arith, Bool-cases, ◌==◌, ==_refl,
  inl, inr, List, [], ◌∷◌, All, length, ltb, true, false, some, ◌&&◌, ◌||◌, not,
}

-- All groups of a list go in, one after the other.
abbrev pub Collects : ℕ → ℕ → List ℕ → Regroup → Regroup → Type 0
Collects v w bytes r r' =
    IsOpen w r'
    × (total w r' ≡ joined v (total w r) bytes)
    × (size w r' ≡ size w r + length bytes * v)

module _ (v w : ℕ) (v_some : 1 ≤ v) (v_byte : v ≤ 8) (w_some : 1 ≤ w) (w_byte : w ≤ 8) where
  regroup-Collects :
      (bytes : List ℕ) (r : Regroup)
      → All (λ b. b < 2 ^ v) bytes
      → IsOpen w r
      → Collects v w bytes r (regroup v w bytes r)
  unfolding regroup
  regroup-Collects [] r h o = (o, refl, omega arith)
  regroup-Collects (b ∷ bytes) r h o =
      let small : b * 2 ^ (8 - v) < 256 = omega (
        arith,
        append-lt v (8 - v) b 0 h.0 (pow_pos (8 - v)),
        power {a = v + (8 - v)} {b = 8} (omega arith),
      ) in
      let step = extract_bits-Takes w v w_some w_byte v b r (omega arith) v_byte h.0 o in
      let rest = regroup-Collects bytes _ h.1 step.0 in
      subst (λ c. Collects v w (b ∷ bytes) r (regroup v w bytes (extract_bits v w c v r)))
        (sym (mod-eq_of_lt small))
        (
          rest.0,
          rest.1 ∙ ap (λ n. joined v n bytes) step.1.0,
          omega (arith, rest.2, step.1.1, add-mul 1 (length bytes) v),
        )

joined_unique :
    (w a b : ℕ) (xs ys : List ℕ)
    → All (λ x. x < 2 ^ w) xs
    → All (λ y. y < 2 ^ w) ys
    → length xs ≡ length ys
    → joined w a xs ≡ joined w b ys
    → (a ≡ b) × (xs ≡ ys)
joined_unique w a b [] [] h k len e = (e, refl)
joined_unique w a b [] (y ∷ ys) h k len e = absurd (omega (arith, len))
joined_unique w a b (x ∷ xs) [] h k len e = absurd (omega (arith, len))
joined_unique w a b (x ∷ xs) (y ∷ ys) h k len e =
    let rest =
      joined_unique w (a * 2 ^ w + x) (b * 2 ^ w + y) xs ys h.1 k.1 (omega (arith, len)) e in
    let head = quotient_unique (2 ^ w) a b x y h.0 k.0 rest.0 in (head.0, rw (head.1, rest.1) refl)

-- Padding fills the last group with zeros.
pad_group_lem :
    (w : ℕ) (r : Regroup)
    → w ≤ 8
    → IsOpen w r
    → (p : ℕ) × (p < w)
      × IsOpen w (pad_group w true r)
      × ((pad_group w true r).filled_bits ≡ 0)
      × Appends w p 0 r (pad_group w true r)
unfolding pad_group close_group
pad_group_lem w r byte o = elim (Bool-cases (ltb 0 r.filled_bits)) [
  | inl part ↦
      let f = r.filled_bits in
      let n = r.next_byte in
      let p = w - f in
      let shifted = n * 2 ^ p % 256 in
      let fill : 2 ^ (f + p) ≡ 2 ^ w = power (omega arith) in
      let room = append-lt f p n 0 o.0.1 (pow_pos p) in
      let byte_size : 2 ^ w ≤ 2 ^ 8 = pow-le-pow_right {n = 2} (omega arith) {i = w} {j = 8} byte in
      let kept : shifted ≡ n * 2 ^ p = mod-eq_of_lt (omega (arith, room, fill, byte_size)) in
      let full =
        close_group_full w (record r { next_byte = shifted; filled_bits = w }) (omega arith)
          (o.0.0, omega (arith, kept, room, fill)) refl in
      let closed = rw (close_group, ==_refl w) at full in
      let j = joined w 0 r.regrouped in
      rw part (
        p,
        ground arith,
        closed.0,
        refl,
        (
          omega (arith, closed.1.0, kept, append_twice f p j n 0, ap (λ (t : ℕ). j * t) fill),
          omega (arith, closed.1.1),
        ),
      )
  | inr empty ↦ rw empty (0, ground arith, o, ground arith, (omega arith, omega arith))
]

-- `groups` of `w` bits hold the bits of `bytes`, which have `v` bits each, and then `p` zeros.
abbrev pub IsPadded : ℕ → ℕ → ℕ → List ℕ → List ℕ → Type 0
IsPadded v w p bytes groups =
    (p < w)
    × All (λ g. g < 2 ^ w) groups
    × (length groups * w ≡ length bytes * v + p)
    × (joined w 0 groups ≡ joined v 0 bytes * 2 ^ p)

abbrev start : Regroup
start = record { regrouped = []; next_byte = 0; filled_bits = 0 }

accepted :
    (r : Regroup)
    → r.filled_bits ≤ 4
    → r.next_byte ≡ 0
    → (ltb 0 r.filled_bits && (ltb 4 r.filled_bits || not (r.next_byte == 0))) ≡ false
accepted r h k = ground arith

in_range :
    (v w : ℕ)
    → 1 ≤ v
    → v ≤ 8
    → 1 ≤ w
    → w ≤ 8
    → (ltb v 1 || (ltb 8 v || (ltb w 1 || ltb 8 w))) ≡ false
in_range v w a b c d = ground arith

-- Where the sizes of the groups are from 1 to 8, and the bytes fit in theirs, the rounds of the
-- inner loop are enough: ConvertBits with padding returns groups, which hold all the bits of the
-- bytes, in their order, and then fewer zeros than a group has bits.
pub convert_bits-IsPadded :
    (bytes : List ℕ) (v w : ℕ)
    → 1 ≤ v
    → v ≤ 8
    → 1 ≤ w
    → w ≤ 8
    → All (λ b. b < 2 ^ v) bytes
    → (groups : List ℕ) × (p : ℕ) × (convert_bits bytes v w true ≡ some groups)
      × IsPadded v w p bytes groups
unfolding convert_bits
convert_bits-IsPadded bytes v w a b c d h =
    let whole = regroup-Collects v w a b c d bytes start h ((tt, omega arith), omega arith) in
    let r = regroup v w bytes start in
    let (p, small, o, none_left, more) = pad_group_lem w r d whole.0 in
    let q = pad_group w true r in
    let empty : q.next_byte ≡ 0 = omega (arith, o.0.1, power none_left) in
    (
      q.regrouped,
      p,
      rw (in_range v w a b c d, accepted q (omega arith) empty) refl,
      (
        small,
        o.0.0,
        omega (arith, more.1, whole.2, none_left),
        omega (
          arith,
          more.0,
          empty,
          ap (λ (t : ℕ). joined w 0 q.regrouped * t) (power none_left),
          ap (λ (t : ℕ). t * 2 ^ p) whole.1,
        ),
      ),
    )

-- The zeros behind the bits of the bytes do not fill a group of `v` bits, so they stay over.
module _ (v w p : ℕ) (bytes groups : List ℕ) where
  regroup-IsPadded :
      1 ≤ w
      → w ≤ v
      → v ≤ 8
      → All (λ b. b < 2 ^ v) bytes
      → IsPadded v w p bytes groups
      → ((regroup w v groups start).regrouped ≡ bytes)
        × ((regroup w v groups start).filled_bits ≡ p)
        × ((regroup w v groups start).next_byte ≡ 0)
  regroup-IsPadded a b c h k =
      let whole =
        regroup-Collects w v a (omega arith) (omega arith) c groups start k.1
          ((tt, omega arith), omega arith) in
      let r = regroup w v groups start in
      let sizes =
        quotient_unique v (length r.regrouped) (length bytes) r.filled_bits p whole.0.1
          (omega (arith, k.0)) (omega (arith, whole.2, k.2)) in
      let n = joined v 0 r.regrouped in
      let values =
        quotient_unique (2 ^ p) n (joined v 0 bytes) r.next_byte 0
          (omega (arith, whole.0.0.1, power sizes.1)) (pow_pos p)
          (omega (arith, whole.1, k.3, ap (λ (t : ℕ). n * t) (power sizes.1))) in
      ((joined_unique v 0 0 r.regrouped bytes whole.0.0.0 h sizes.0 values.0).1, sizes.1, values.1)

-- Where `w` is from 1 to 5, `v` is at least `w` and at most 8, and the values fit in `v` bits, then
-- ConvertBits from `v` to `w` bits with padding succeeds, with groups that hold the bits of the
-- values and then fewer than `w` zeros, and ConvertBits back without padding returns the values.
pub convert_bits-convert_bits :
    (bytes : List ℕ) (v w : ℕ)
    → 1 ≤ w
    → w ≤ 5
    → w ≤ v
    → v ≤ 8
    → All (λ b. b < 2 ^ v) bytes
    → (groups : List ℕ) × (p : ℕ) × (convert_bits bytes v w true ≡ some groups)
      × IsPadded v w p bytes groups
      × (convert_bits groups w v false ≡ some bytes)
unfolding convert_bits pad_group
convert_bits-convert_bits bytes v w a b c d h =
    let (groups, p, made, k) = convert_bits-IsPadded bytes v w (omega arith) d a (omega arith) h in
    let (same, over, empty) = regroup-IsPadded v w p bytes groups a c d h k in
    (
      groups,
      p,
      made,
      k,
      rw
          (
            in_range w v a (omega arith) (omega arith) d,
            accepted (regroup w v groups start) (omega (arith, over, k.0)) empty,
          )
          (ap some same),
    )
