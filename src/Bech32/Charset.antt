-- ===== src/Bech32/Charset.antt =====
-- The alphabet of util/bech32.go: printing values and reading characters are inverse, and every
-- character is printable, lowercase and no separator.
use dashcash_wallet.Prelude.{
  ℕ, zero, suc, ◌≤◌, ◌<◌, ◌≡◌, ◌⊎◌, refl, sym, ap, ◌∙◌, inl, inr, Bool, true, false, ◌&&◌, not,
  Option, none, some, List, [], ◌∷◌, arith, Option-cases, length, get_elem?, All, leb, ◌==◌,
}
use dashcash_wallet.Text.{Bytes, index_byte, lower_byte}
use dashcash_wallet.Bech32.{charset, Decoded, DecodeError, ok, err, to_bytes, to_chars}
use dashcash_wallet.Bech32.Checksum.{Fits}

pub Decoded-cases :
    {A : Type 0} (d : Decoded A) → ((e : DecodeError) × (d ≡ err e)) ⊎ ((a : A) × (d ≡ ok a))
Decoded-cases (err e) = inl (e, refl)
Decoded-cases (ok a) = inr (a, refl)

-- A character that passes the checks of `Decode` and is not its separator.
pub record IsPlain (c : ℕ) : Type 0 where
  pub low : 33 ≤ c
  pub high : c ≤ 126
  pub lowercase : lower_byte c ≡ c
  pub separator : (c == b':') ≡ false

is_index : Option ℕ → ℕ → Bool
is_index none v = false
is_index (some i) v = i == v

is_plain : ℕ → Bool
is_plain c = leb 33 c && (leb c 126 && (lower_byte c == c && not (c == b':')))

char_fits : ℕ → ℕ → Bool
unfolding is_index index_byte is_plain lower_byte
char_fits c v = is_index (index_byte charset c) v && is_plain c

-- What the table says of the value `v`.
entry_fits : Option ℕ → ℕ → Bool
unfolding char_fits
entry_fits none v = false
entry_fits (some c) v = char_fits c v

-- What the table says of every value below a bound.
entries_fit : ℕ → Bool
unfolding entry_fits
entries_fit zero = true
entries_fit (suc bound) = entries_fit bound && entry_fits (get_elem? charset bound) bound

entries_fit-below :
    (bound v : ℕ) → v < bound → entries_fit bound ≡ true → entry_fits (get_elem? charset v) v ≡ true
unfolding entries_fit
entries_fit-below zero v k h = absurd (omega arith)
entries_fit-below (suc bound) v k h = ground (arith, entries_fit-below bound v)

table : entries_fit 32 ≡ true
unfolding entries_fit entry_fits charset
table = refl

&&-true : (a b : Bool) → a && b ≡ true → (a ≡ true) × (b ≡ true)
&&-true a b h = ground arith

is_plain→IsPlain : (c : ℕ) → is_plain c ≡ true → IsPlain c
unfolding is_plain
is_plain→IsPlain c h = ground arith

get_elem?-lt : (xs : List ℕ) (i c : ℕ) → get_elem? xs i ≡ some c → i < length xs
get_elem?-lt [] i c h = ground arith
get_elem?-lt (x ∷ xs) zero c h = omega arith
get_elem?-lt (x ∷ xs) (suc i) c h = omega (arith, get_elem?-lt xs i c h)

is_index→eq : (o : Option ℕ) (v : ℕ) → is_index o v ≡ true → o ≡ some v
unfolding is_index
is_index→eq none v h = ground arith
is_index→eq (some i) v h = ground arith

index_byte→get_elem? : (xs : Bytes) (c i : ℕ) → index_byte xs c ≡ some i → get_elem? xs i ≡ some c
unfolding index_byte
index_byte→get_elem? [] c i h = ground arith
index_byte→get_elem? (x ∷ xs) c zero h = ground arith
index_byte→get_elem? (x ∷ xs) c (suc i) h = ground (arith, index_byte→get_elem? xs c i)

module _ (v c : ℕ) (at : get_elem? charset v ≡ some c) where
  pub value_fits : v < 32
  unfolding charset
  value_fits = get_elem?-lt charset v c at

  entry : char_fits c v ≡ true
  unfolding entry_fits
  entry = ap (λ o. entry_fits o v) (sym at) ∙ entries_fit-below 32 v value_fits table

  pub index-charset : index_byte charset c ≡ some v
  unfolding char_fits
  index-charset = is_index→eq (index_byte charset c) v (&&-true _ _ entry).0

  pub charset-IsPlain : IsPlain c
  unfolding char_fits
  charset-IsPlain = is_plain→IsPlain c (&&-true _ _ entry).1

to_chars-cons :
    (v : ℕ) (vs cs : Bytes)
    → to_chars (v ∷ vs) ≡ some cs
    → (c : ℕ) × (rest : Bytes) × (get_elem? charset v ≡ some c)
      × (to_chars vs ≡ some rest)
      × (cs ≡ c ∷ rest)
unfolding to_chars
to_chars-cons v vs cs h = elim (Option-cases (get_elem? charset v)) [
  | inl e ↦ ground arith
  | inr (c, e) ↦ elim (Option-cases (to_chars vs)) [
    | inl k ↦ ground arith
    | inr (rest, k) ↦ (c, rest, e, k, ground arith)
  ]
]

to_bytes-cons :
    (c v : ℕ) (cs vs : Bytes)
    → index_byte charset c ≡ some v
    → to_bytes cs ≡ ok vs
    → to_bytes (c ∷ cs) ≡ ok (v ∷ vs)
unfolding to_bytes
to_bytes-cons c v cs vs h k = ground arith

to_chars_cons :
    (c v : ℕ) (cs vs : Bytes)
    → get_elem? charset v ≡ some c
    → to_chars vs ≡ some cs
    → to_chars (v ∷ vs) ≡ some (c ∷ cs)
unfolding to_chars
to_chars_cons c v cs vs h k = ground arith

to_bytes-inversion :
    (c : ℕ) (cs vs : Bytes)
    → to_bytes (c ∷ cs) ≡ ok vs
    → (v : ℕ) × (rest : Bytes) × (index_byte charset c ≡ some v)
      × (to_bytes cs ≡ ok rest)
      × (vs ≡ v ∷ rest)
unfolding to_bytes
to_bytes-inversion c cs vs h = elim (Option-cases (index_byte charset c)) [
  | inl e ↦ ground arith
  | inr (v, e) ↦ elim (Decoded-cases (to_bytes cs)) [
    | inl (e', k) ↦ ground arith
    | inr (rest, k) ↦ (v, rest, e, k, ground arith)
  ]
]

-- What `toChars` prints, `toBytes` reads back.
pub to_bytes-to_chars :
    (vs cs : Bytes)
    → to_chars vs ≡ some cs
    → (to_bytes cs ≡ ok vs) × Fits vs × All IsPlain cs × (length cs ≡ length vs)
unfolding to_chars to_bytes
to_bytes-to_chars [] [] h = (refl, tt, tt, refl)
to_bytes-to_chars [] (c ∷ cs) h = ground arith
to_bytes-to_chars (v ∷ vs) cs h =
    let (c, rest, at, printed, e) = to_chars-cons v vs cs h in
    let (read, fits, plain, len) = to_bytes-to_chars vs rest printed in
    rw e (
      to_bytes-cons c v rest vs (index-charset v c at) read,
      (value_fits v c at, fits),
      (charset-IsPlain v c at, plain),
      ap suc len,
    )

-- What `toBytes` reads, `toChars` prints.
pub to_chars-to_bytes : (cs vs : Bytes) → to_bytes cs ≡ ok vs → (to_chars vs ≡ some cs) × Fits vs
unfolding to_chars to_bytes
to_chars-to_bytes [] [] h = (refl, tt)
to_chars-to_bytes [] (v ∷ vs) h = ground arith
to_chars-to_bytes (c ∷ cs) vs h =
    let (v, rest, found, read, e) = to_bytes-inversion c cs vs h in
    let at : get_elem? charset v ≡ some c = index_byte→get_elem? charset c v found in
    let (printed, fits) = to_chars-to_bytes cs rest read in
    rw e (to_chars_cons c v cs rest at printed, (value_fits v c at, fits))

-- Every value of five bits has a character.
charset-some : (v : ℕ) → v < 32 → (c : ℕ) × (get_elem? charset v ≡ some c)
unfolding entry_fits
charset-some v h =
    let fits = entries_fit-below 32 v h table in
    elim (Option-cases (get_elem? charset v)) [ inl e ↦ ground arith | inr (c, e) ↦ (c, e) ]

pub to_chars-Fits : (vs : Bytes) → Fits vs → (cs : Bytes) × (to_chars vs ≡ some cs)
unfolding to_chars
to_chars-Fits [] h = ([], refl)
to_chars-Fits (v ∷ vs) h =
    let (c, e) = charset-some v h.0 in
    let (cs, rest) = to_chars-Fits vs h.1 in (c ∷ cs, to_chars_cons c v cs vs e rest)
