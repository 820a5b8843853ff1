-- ===== src/ConvertBits.antt =====
-- `ConvertBits` of util/bech32.go, which regroups the bits of bytes. A byte is a number below 256,
-- and a shift to the left drops what leaves the byte.
mod Shifts
mod Value
mod Extract
pub mod RoundTrip
mod Tests
use Prim.Native.Nat.{bit_or}
use dashcash_wallet.Prelude.{
  ℕ, zero, suc, ◌+◌, ◌-◌, ◌*◌, ◌/◌, ◌%◌, ◌^◌, Bool, ◌&&◌, ◌||◌, not, Option, none, some, List, [],
  ◌∷◌, ◌++◌, ltb, ◌==◌, if◌then◌else◌,
}
use dashcash_wallet.Text.{Bytes}

-- The variables of the loops.
pub record Regroup : Type 0 where
  pub regrouped : Bytes
  pub next_byte : ℕ
  pub filled_bits : ℕ

-- A group that may be full.
unfoldable pub close_group : ℕ → Regroup → Regroup
close_group to_bits r =
    if r.filled_bits == to_bits
    then record { regrouped = r.regrouped ++ r.next_byte ∷ []; next_byte = 0; filled_bits = 0 }
    else r

-- The inner loop. Each round takes a bit or more, so that as many rounds as bits are enough.
unfoldable pub extract_bits : ℕ → ℕ → ℕ → ℕ → Regroup → Regroup
extract_bits zero to_bits b rem_from_bits r = r
extract_bits (suc fuel) to_bits b rem_from_bits r =
    let rem_to_bits = to_bits - r.filled_bits in
    let to_extract = if ltb rem_to_bits rem_from_bits then rem_to_bits else rem_from_bits in
    let next_byte = bit_or (r.next_byte * 2 ^ to_extract % 256) (b / 2 ^ (8 - to_extract)) in
    let filled =
      close_group to_bits
        (record r { next_byte = next_byte; filled_bits = r.filled_bits + to_extract }) in
    let rest =
      extract_bits fuel to_bits (b * 2 ^ to_extract % 256) (rem_from_bits - to_extract) filled in
    if rem_from_bits == 0 then r else rest

unfoldable pub regroup : ℕ → ℕ → Bytes → Regroup → Regroup
regroup from_bits to_bits [] r = r
regroup from_bits to_bits (b ∷ bytes) r =
    regroup from_bits to_bits bytes
      (extract_bits from_bits to_bits (b * 2 ^ (8 - from_bits) % 256) from_bits r)

unfoldable pub pad_group : ℕ → Bool → Regroup → Regroup
pad_group to_bits pad r =
    if pad && ltb 0 r.filled_bits
    then record {
      regrouped = r.regrouped ++ (r.next_byte * 2 ^ (to_bits - r.filled_bits) % 256) ∷ [];
      next_byte = 0;
      filled_bits = 0;
    }
    else r

-- `ConvertBits`; `none` is an error.
unfoldable pub convert_bits : Bytes → ℕ → ℕ → Bool → Option Bytes
convert_bits bytes from_bits to_bits pad =
    let start : Regroup = record { regrouped = []; next_byte = 0; filled_bits = 0 } in
    let r = pad_group to_bits pad (regroup from_bits to_bits bytes start) in
    if ltb from_bits 1 || (ltb 8 from_bits || (ltb to_bits 1 || ltb 8 to_bits))
    then none
    else if ltb 0 r.filled_bits && (ltb 4 r.filled_bits || not (r.next_byte == 0))
    then none
    else some r.regrouped
