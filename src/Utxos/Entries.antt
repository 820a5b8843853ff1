-- ===== src/Utxos/Entries.antt =====
-- The entries of the store: what `createUtxo` writes for an output, the loops read back.
use mathlib.Core.Path.{ap₂}
use dashcash_wallet.Prelude.{
  ℕ, ◌%◌, ◌^◌, ◌<◌, ◌≡◌, refl, ap, none, some, [], ◌∷◌, ◌++◌, arith, length, take-append,
  drop-append_cons, ◌==◌, Bool-cases, inl, inr,
}
use dashcash_wallet.Prelude.Int.{ℤ, pos, InInt64}
use dashcash_wallet.Text.{Bytes, index_byte}
use dashcash_wallet.Decimal.{format_int, format_uint, int_value, parse_int}
use dashcash_wallet.Decimal.RoundTrip.{parse_int-format_int, parse_int32-format_uint}
use dashcash_wallet.Utxos.{Utxo, read_out, read_utxo, split_at, utxo_key, utxo_val}

-- An output as the chain has them: no separators in its texts, an index of at most 31 bits and a
-- value that is an amount.
pub record IsOutput (u : Utxo) (n : ℕ) : Type 0 where
  pub hash : index_byte u.hash b'/' ≡ none
  pub index : u.index < 2 ^ 31
  pub address : index_byte u.address b':' ≡ none
  pub value : u.value ≡ pos n
  pub fits : n < 2 ^ 63

abbrev pub entry_of : Utxo → Bytes × Bytes
entry_of u = (utxo_key u.hash u.index, utxo_val u.address u.value)

index_byte-append :
    (s t : Bytes) (c : ℕ) → index_byte s c ≡ none → index_byte (s ++ (c ∷ t)) c ≡ some (length s)
unfolding index_byte
index_byte-append [] t c h = ground arith
index_byte-append (x ∷ s) t c h = elim (Bool-cases (x == c)) [
  | inl same ↦ ground arith
  | inr other ↦
      let later : index_byte s c ≡ none = ground arith in
      let rest = index_byte-append s t c later in ground arith
]

-- The split at the separator gives back the two texts around it.
pub split_at-append :
    (c : ℕ) (s t : Bytes) → index_byte s c ≡ none → split_at c (s ++ (c ∷ t)) ≡ some (s, t)
unfolding split_at
split_at-append c s t h =
    rw (split_at, index_byte-append s t c h)
      (ap₂ (λ l r. some (l, r)) (take-append s (c ∷ t) (length s) refl) (drop-append_cons s t c))

pub read_out-utxo_val :
    (address : Bytes) (value : ℤ)
    → index_byte address b':' ≡ none
    → InInt64 value
    → read_out (utxo_val address value)
      ≡ some (record { address = address; amount = value; script = [] })
unfolding read_out utxo_val
read_out-utxo_val address value h k =
    rw (read_out, split_at-append b':' address (format_int value) h, parse_int-format_int value k)

pub read_utxo-entry_of :
    (u : Utxo) (n : ℕ) → IsOutput u n → read_utxo (entry_of u).0 (entry_of u).1 ≡ some u
unfolding read_utxo utxo_key utxo_val
read_utxo-entry_of u n h =
    rw
      (
        read_utxo,
        split_at-append b'/' u.hash (format_uint u.index) h.hash,
        split_at-append b':' u.address (format_int u.value) h.address,
        parse_int32-format_uint u.index h.index,
      )
      (ap₂ (λ i z. some (record u { index = i; value = z })) (small_index u.index h.index)
        (value u.value n h.value h.fits))
  where
    small_index : (i : ℕ) → i < 2 ^ 31 → i % 2 ^ 64 % 2 ^ 32 ≡ i
    small_index i h = omega arith

    value : (z : ℤ) (n : ℕ) → z ≡ pos n → n < 2 ^ 63 → int_value (parse_int 64 (format_int z)) ≡ z
    value z n e k = ap int_value (parse_int-format_int z (rw e (k, omega arith)))
