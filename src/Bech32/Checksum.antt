-- ===== src/Bech32/Checksum.antt =====
-- The checksum of util/bech32.go is the one completion that its own verification accepts.
use Prim.Native.Nat.{bit_and, bit_xor}
use native.Mathlib.Nat.{div-div-eq-div-mul, pow-suc}
use dashcash_wallet.Prelude.{
  ℕ, zero, suc, ◌+◌, ◌*◌, ◌/◌, ◌%◌, ◌^◌, ◌<◌, ◌≡◌, ◌↔◌, refl, sym, ap, ◌∙◌, true, List, [], ◌∷◌,
  ◌++◌, append_assoc, All, All-append, arith, ==_iff, length, replicate,
}
use dashcash_wallet.Bits.{xor-zero, zero-xor, xor_assoc, xor_self, xor-lt, and_mask}
use dashcash_wallet.Text.{Bytes}
use dashcash_wallet.Bech32.{
  polymod_from, bech32_polymod, hrp_expand, checksum_groups, bech32_checksum, verify_checksum,
}
use dashcash_wallet.Bech32.Polymod.{pack, polymod_from-lt, polymod_from-append, polymod_from-xor}

-- Values that fit five bits.
abbrev pub Fits : List ℕ → Type 0
Fits = All (λ v. v < 32)

low5 : (a : ℕ) → bit_and a 31 % 256 ≡ a % 32
low5 a = omega (arith, and_mask 5 a)

shift_group : (k p : ℕ) → p / 2 ^ (5 * suc k) ≡ p / 2 ^ (5 * k) / 32
shift_group k p =
    let e : 5 * suc k ≡ suc (suc (suc (suc (suc (5 * k))))) = omega arith in
    let power : 2 ^ (5 * suc k) ≡ 2 ^ (5 * k) * 32 = rw e (simp pow-suc (omega arith)) in
    rw (power, ← div-div-eq-div-mul p (2 ^ (5 * k)) 32) refl

-- Printing a number in groups and packing them gives the number back, and the other way round.
pack-checksum_groups : (k p : ℕ) → pack (p / 2 ^ (5 * k)) (checksum_groups p k) ≡ p
unfolding checksum_groups
pack-checksum_groups zero p = omega arith
pack-checksum_groups (suc k) p =
    let e : p / 2 ^ (5 * suc k) * 2 ^ 5 + bit_and (p / 2 ^ (5 * k)) 31 % 256 ≡ p / 2 ^ (5 * k) =
      omega (arith, low5 (p / 2 ^ (5 * k)), shift_group k p) in
    ap (λ n. pack n (checksum_groups p k)) e ∙ pack-checksum_groups k p

checksum_groups-Fits : (k p : ℕ) → Fits (checksum_groups p k)
unfolding checksum_groups
checksum_groups-Fits zero p = tt
checksum_groups-Fits (suc k) p = (omega (arith, low5 (p / 2 ^ (5 * k))), checksum_groups-Fits k p)

length-checksum_groups : (k p : ℕ) → length (checksum_groups p k) ≡ k
unfolding checksum_groups
length-checksum_groups zero p = refl
length-checksum_groups (suc k) p = ap suc (length-checksum_groups k p)

pack-div : (vs : List ℕ) (x : ℕ) → Fits vs → pack x vs / 2 ^ (5 * length vs) ≡ x
pack-div [] x h = omega arith
pack-div (v ∷ vs) x h =
    omega (
      arith,
      shift_group (length vs) (pack (x * 2 ^ 5 + v) vs),
      pack-div vs (x * 2 ^ 5 + v) h.1,
      h.0,
    )

checksum_groups-pack :
    (vs : List ℕ) (x : ℕ) → Fits vs → checksum_groups (pack x vs) (length vs) ≡ vs
unfolding checksum_groups
checksum_groups-pack [] x h = refl
checksum_groups-pack (v ∷ vs) x h =
    let head : bit_and (pack (x * 2 ^ 5 + v) vs / 2 ^ (5 * length vs)) 31 % 256 ≡ v = omega (
      arith,
      low5 (pack (x * 2 ^ 5 + v) vs / 2 ^ (5 * length vs)),
      pack-div vs (x * 2 ^ 5 + v) h.1,
      h.0,
    ) in
    rw head (ap (λ l. v ∷ l) (checksum_groups-pack vs (x * 2 ^ 5 + v) h.1))

hrp_expand-Fits : (hrp : Bytes) → Fits (hrp_expand hrp)
unfolding hrp_expand
hrp_expand-Fits [] = omega arith
hrp_expand-Fits (c ∷ hrp) = (omega (arith, and_mask 5 c), hrp_expand-Fits hrp)

-- The state of the loop before the eight values of the checksum.
before : Bytes → Bytes → ℕ
before hrp bytes = polymod_from 1 (hrp_expand hrp ++ bytes)

-- The checksum as a number.
target : Bytes → Bytes → ℕ
target hrp bytes = bit_xor (polymod_from (before hrp bytes) (replicate 8 0)) 1

checksum_lem :
    (hrp bytes : Bytes) → bech32_checksum hrp bytes ≡ checksum_groups (target hrp bytes) 8
unfolding bech32_checksum bech32_polymod target before
checksum_lem hrp bytes =
    ap (λ n. checksum_groups (bit_xor n 1) 8)
      (polymod_from-append 1 (hrp_expand hrp ++ bytes) (replicate 8 0))

target-lt : (hrp bytes : Bytes) → Fits bytes → target hrp bytes < 2 ^ 40
unfolding target before
target-lt hrp bytes h =
    xor-lt 40 _ 1
      (polymod_from-lt _ (replicate 8 0)
        (polymod_from-lt 1 (hrp_expand hrp ++ bytes) (omega arith)
          (All-append (λ v. v < 32) (hrp_expand hrp) bytes (hrp_expand-Fits hrp) h))
        (omega arith))
      (omega arith)

-- What the verification computes, for any eight values behind the data.
polymod_completed :
    (hrp bytes sum : Bytes)
    → Fits sum
    → length sum ≡ 8
    → bech32_polymod (hrp_expand hrp ++ (bytes ++ sum))
      ≡ bit_xor (polymod_from (before hrp bytes) (replicate 8 0)) (pack 0 sum)
unfolding bech32_polymod before
polymod_completed hrp bytes sum h len =
    let c = polymod_from 1 (hrp_expand hrp ++ bytes) in
    ap (polymod_from 1) (sym (append_assoc (hrp_expand hrp) bytes sum))
    ∙ polymod_from-append 1 (hrp_expand hrp ++ bytes) sum
    ∙ ap (λ n. polymod_from n sum) (sym (xor-zero c))
    ∙ polymod_from-xor sum c 0 h (rw len (omega arith))
    ∙ ap (λ n. bit_xor (polymod_from c (replicate n 0)) (pack 0 sum)) len

xor_cancel : (a b : ℕ) → bit_xor a (bit_xor a b) ≡ b
xor_cancel a b = sym (xor_assoc a a b) ∙ ap (λ n. bit_xor n b) (xor_self a) ∙ zero-xor b

pack-target :
    (hrp bytes : Bytes) → Fits bytes → pack 0 (bech32_checksum hrp bytes) ≡ target hrp bytes
pack-target hrp bytes h =
    let zero_high : target hrp bytes / 2 ^ (5 * 8) ≡ 0 = omega (arith, target-lt hrp bytes h) in
    ap (pack 0) (checksum_lem hrp bytes)
    ∙ ap (λ n. pack n (checksum_groups (target hrp bytes) 8)) (sym zero_high)
    ∙ pack-checksum_groups 8 (target hrp bytes)

pub bech32_checksum-Fits : (hrp bytes : Bytes) → Fits (bech32_checksum hrp bytes)
bech32_checksum-Fits hrp bytes =
    rw (checksum_lem hrp bytes) (checksum_groups-Fits 8 (target hrp bytes))

pub length-bech32_checksum : (hrp bytes : Bytes) → length (bech32_checksum hrp bytes) ≡ 8
length-bech32_checksum hrp bytes =
    ap length (checksum_lem hrp bytes) ∙ length-checksum_groups 8 (target hrp bytes)

-- Behind any data of 5-bit values, the checksum of the data verifies, and no other eight values do.
pub verify_checksum-bech32_checksum :
    (hrp bytes sum : Bytes)
    → Fits bytes
    → Fits sum
    → length sum ≡ 8
    → (verify_checksum hrp (bytes ++ sum) ≡ true) ↔ (sum ≡ bech32_checksum hrp bytes)
unfolding verify_checksum
verify_checksum-bech32_checksum hrp bytes sum h k len = (unique, accepted)
  where
    last : ℕ
    last = polymod_from (before hrp bytes) (replicate 8 0)

    accepted : sum ≡ bech32_checksum hrp bytes → verify_checksum hrp (bytes ++ sum) ≡ true
    accepted e = (==_iff _ 1).1 (
        polymod_completed hrp bytes sum k len
        ∙ ap (λ s. bit_xor last (pack 0 s)) e
        ∙ ap (bit_xor last) (pack-target hrp bytes h)
        ∙ (unfold target in xor_cancel last 1))

    packed : bit_xor last (pack 0 sum) ≡ 1 → pack 0 sum ≡ target hrp bytes
    packed e = unfold target in sym (xor_cancel last (pack 0 sum)) ∙ ap (bit_xor last) e

    unique : verify_checksum hrp (bytes ++ sum) ≡ true → sum ≡ bech32_checksum hrp bytes
    unique v =
        let e : pack 0 sum ≡ target hrp bytes =
          packed (sym (polymod_completed hrp bytes sum k len) ∙ (==_iff _ 1).0 v) in
        sym (checksum_groups-pack sum 0 k)
        ∙ ap (λ n. checksum_groups (pack 0 sum) n) len
        ∙ ap (λ n. checksum_groups n 8) e
        ∙ sym (checksum_lem hrp bytes)
