-- ===== src/Bech32/RoundTrip.antt =====
-- `Encode` and `Decode` of util/bech32.go are inverse on the texts of valid length.
use mathlib.Core.Path.{ap₂}
use dashcash_wallet.Prelude.{
  ℕ, zero, suc, ◌+◌, ◌-◌, ◌≤◌, ◌≡◌, refl, sym, ap, ◌∙◌, inl, inr, true, none, some, List, [], ◌∷◌,
  ◌++◌, arith, Option-cases, length, take, drop, length-append, take-append, drop-append_cons,
  take-append-drop, length-drop, All, All-append,
}
use dashcash_wallet.Text.{Bytes, bytes_eq, bytes_eq_refl, last_index_byte, lower_byte, to_lower}
use dashcash_wallet.Bech32.{
  ok, to_bytes, to_chars, bech32_checksum, verify_checksum, encode, decode, decode_lower,
  decode_parts, first_unprintable,
}
use dashcash_wallet.Bech32.Checksum.{
  Fits, verify_checksum-bech32_checksum, bech32_checksum-Fits, length-bech32_checksum,
}
use dashcash_wallet.Bech32.Charset.{IsPlain, Decoded-cases, to_bytes-to_chars, to_chars-to_bytes}

-- The characters that a human-readable part may hold: printable, and no capital.
pub record IsHrpChar (c : ℕ) : Type 0 where
  pub low : 33 ≤ c
  pub high : c ≤ 126
  pub lowercase : lower_byte c ≡ c

colon-IsHrpChar : IsHrpChar b':'
unfolding lower_byte
colon-IsHrpChar = record { low = omega arith; high = omega arith; lowercase = refl }

All-prefix : (xs ys : List ℕ) → Fits (xs ++ ys) → Fits xs
All-prefix [] ys h = tt
All-prefix (x ∷ xs) ys h = (h.0, All-prefix xs ys h.1)

All-suffix : (xs ys : List ℕ) → Fits (xs ++ ys) → Fits ys
All-suffix [] ys h = h
All-suffix (x ∷ xs) ys h = All-suffix xs ys h.1

plain-IsHrpChar : (cs : Bytes) → All IsPlain cs → All IsHrpChar cs
plain-IsHrpChar [] h = tt
plain-IsHrpChar (c ∷ cs) h =
    (record { low = h.0.low; high = h.0.high; lowercase = h.0.lowercase }, plain-IsHrpChar cs h.1)

first_unprintable-none : (s : Bytes) → All IsHrpChar s → first_unprintable s ≡ none
unfolding first_unprintable
first_unprintable-none [] h = refl
first_unprintable-none (c ∷ s) h =
    let low = h.0.low in let high = h.0.high in ground (arith, first_unprintable-none s h.1)

to_lower-eq : (s : Bytes) → All IsHrpChar s → to_lower s ≡ s
to_lower-eq [] h = refl
to_lower-eq (c ∷ s) h = cc (h.0.lowercase, to_lower-eq s h.1)

last_index_byte-none : (s : Bytes) → All IsPlain s → last_index_byte s b':' ≡ none
unfolding last_index_byte
last_index_byte-none [] h = refl
last_index_byte-none (c ∷ s) h =
    let other = h.0.separator in ground (arith, last_index_byte-none s h.1)

-- The last separator stands behind the human-readable part.
pub last_index_byte-append :
    (hrp chars : Bytes)
    → All IsPlain chars
    → last_index_byte (hrp ++ (b':' ∷ chars)) b':' ≡ some (length hrp)
unfolding last_index_byte
last_index_byte-append [] chars h = rw (last_index_byte-none chars h)
last_index_byte-append (c ∷ hrp) chars h = rw (last_index_byte-append hrp chars h)

-- The stages of `Decode`, each where its checks pass.
decode_checked :
    (s : Bytes)
    → 10 ≤ length s
    → length s ≤ 90
    → first_unprintable s ≡ none
    → to_lower s ≡ s
    → decode s ≡ decode_lower s
unfolding decode
decode_checked s long short printable lower =
    let case : bytes_eq s (to_lower s) ≡ true = rw lower (bytes_eq_refl s) in
    rw (printable, case, lower) (ground arith)

decode_split :
    (s : Bytes) (one : ℕ)
    → last_index_byte s b':' ≡ some one
    → 1 ≤ one
    → one + 9 ≤ length s
    → decode_lower s ≡ decode_parts s (take one s) (drop (one + 1) s)
unfolding decode_lower
decode_split s one at first room = rw (at, decode_lower) (ground arith)

decode_summed :
    (s hrp chars decoded : Bytes)
    → to_bytes chars ≡ ok decoded
    → verify_checksum hrp decoded ≡ true
    → decode_parts s hrp chars ≡ ok (hrp, take (length decoded - 8) decoded)
unfolding decode_parts
decode_summed s hrp chars decoded read sum = rw (read, sum, decode_parts)

encode-inversion :
    (hrp bytes s : Bytes)
    → encode hrp bytes ≡ some s
    → (chars : Bytes) × (to_chars (bytes ++ bech32_checksum hrp bytes) ≡ some chars)
      × (s ≡ hrp ++ (b':' ∷ chars))
unfolding encode
encode-inversion hrp bytes s h =
    elim (Option-cases (to_chars (bytes ++ bech32_checksum hrp bytes))) [
      | inl e ↦ ground arith
      | inr (chars, e) ↦ (chars, e, ground arith)
    ]

completed :
    (hrp bytes : Bytes)
    → Fits bytes
    → verify_checksum hrp (bytes ++ bech32_checksum hrp bytes) ≡ true
completed hrp bytes fits =
    (verify_checksum-bech32_checksum hrp bytes (bech32_checksum hrp bytes) fits
        (bech32_checksum-Fits hrp bytes) (length-bech32_checksum hrp bytes)).1
      refl

-- A text that `Encode` makes from a printable lowercase human-readable part, at most 90 characters
-- long, is decoded to the same part and data.
pub decode-encode :
    (hrp bytes s : Bytes)
    → 1 ≤ length hrp
    → All IsHrpChar hrp
    → length hrp + length bytes ≤ 81
    → encode hrp bytes ≡ some s
    → decode s ≡ ok (hrp, bytes)
decode-encode hrp bytes s some_part lower short h =
    let (chars, printed, e) = encode-inversion hrp bytes s h in
    let (read, fits, plain, len) =
      to_bytes-to_chars (bytes ++ bech32_checksum hrp bytes) chars printed in
    let sum_len : length (bytes ++ bech32_checksum hrp bytes) ≡ length bytes + 8 =
      length-append bytes (bech32_checksum hrp bytes)
      ∙ ap (λ n. length bytes + n) (length-bech32_checksum hrp bytes) in
    let text_len : length (hrp ++ (b':' ∷ chars)) ≡ length hrp + length bytes + 9 =
      omega (arith, length-append hrp (b':' ∷ chars), len, sum_len) in
    let text : All IsHrpChar (hrp ++ (b':' ∷ chars)) =
      All-append IsHrpChar hrp (b':' ∷ chars) lower
        (colon-IsHrpChar, plain-IsHrpChar chars plain) in
    let front : take (length hrp) (hrp ++ (b':' ∷ chars)) ≡ hrp =
      take-append hrp (b':' ∷ chars) (length hrp) refl in
    let back : drop (length hrp + 1) (hrp ++ (b':' ∷ chars)) ≡ chars =
      drop-append_cons hrp chars b':' in
    let payload : take (length (bytes ++ bech32_checksum hrp bytes) - 8)
          (bytes ++ bech32_checksum hrp bytes)
        ≡ bytes =
      take-append bytes (bech32_checksum hrp bytes) _ (omega (arith, sum_len)) in
    rw e (
      decode_checked (hrp ++ (b':' ∷ chars)) (omega (arith, text_len)) (omega (arith, text_len))
        (first_unprintable-none _ text) (to_lower-eq _ text)
      ∙ decode_split (hrp ++ (b':' ∷ chars)) (length hrp) (last_index_byte-append hrp chars plain)
          some_part (omega (arith, text_len))
      ∙ ap₂ (decode_parts (hrp ++ (b':' ∷ chars))) front back
      ∙ decode_summed _ hrp chars _ read (completed hrp bytes (All-prefix bytes _ fits))
      ∙ ap (λ d. ok (hrp, d)) payload)

-- The other direction.
last_index_byte-split :
    (s : Bytes) (c i : ℕ) → last_index_byte s c ≡ some i → take i s ++ (c ∷ drop (i + 1) s) ≡ s
unfolding last_index_byte
last_index_byte-split [] c i h = ground arith
last_index_byte-split (x ∷ s) c zero h =
    let same : x ≡ c = ground arith in ap (λ y. y ∷ s) (sym same)
last_index_byte-split (x ∷ s) c (suc i) h =
    let later : last_index_byte s c ≡ some i = ground arith in
    let e : suc i + 1 ≡ suc (i + 1) = omega arith in
    rw e (ap (λ l. x ∷ l) (last_index_byte-split s c i later))

record Split (s hrp bytes : Bytes) : Type 0 where
  one : ℕ
  decoded : Bytes
  at : last_index_byte s b':' ≡ some one
  room : one + 9 ≤ length s
  part : hrp ≡ take one s
  read : to_bytes (drop (one + 1) s) ≡ ok decoded
  sum : verify_checksum hrp decoded ≡ true
  payload : bytes ≡ take (length decoded - 8) decoded

decode_parts-inversion :
    (s hrp chars hrp' bytes : Bytes)
    → decode_parts s hrp chars ≡ ok (hrp', bytes)
    → (decoded : Bytes) × (to_bytes chars ≡ ok decoded)
      × (verify_checksum hrp decoded ≡ true)
      × (hrp' ≡ hrp)
      × (bytes ≡ take (length decoded - 8) decoded)
unfolding decode_parts
decode_parts-inversion s hrp chars hrp' bytes h = elim (Decoded-cases (to_bytes chars)) [
  | inl (e, k) ↦ ground arith
  | inr (decoded, k) ↦ (decoded, k, ground arith, ground arith, ground arith)
]

decode_lower-Split : (s hrp bytes : Bytes) → decode_lower s ≡ ok (hrp, bytes) → Split s hrp bytes
unfolding decode_lower
decode_lower-Split s hrp bytes h = elim (Option-cases (last_index_byte s b':')) [
  | inl none_found ↦ ground arith
  | inr (one, at) ↦
      let room : one + 9 ≤ length s = ground arith in
      let parts : decode_parts s (take one s) (drop (one + 1) s) ≡ ok (hrp, bytes) = ground arith in
      let (decoded, read, sum, part, payload) =
        decode_parts-inversion s (take one s) (drop (one + 1) s) hrp bytes parts in
      record {
        one = one;
        decoded = decoded;
        at = at;
        room = room;
        part = part;
        read = read;
        sum = rw part sum;
        payload = payload;
      }
]

decode-lower :
    (s hrp bytes : Bytes) → decode s ≡ ok (hrp, bytes) → decode_lower (to_lower s) ≡ ok (hrp, bytes)
unfolding decode
decode-lower s hrp bytes h = ground arith

-- What the parts of an accepted text say of its checksum.
module _ (s hrp bytes : Bytes) (p : Split s hrp bytes) where
  open p use {one, decoded, at, room, part, read, sum, payload}

  abbrev tail_sum : Bytes
  tail_sum = drop (length decoded - 8) decoded

  whole : bytes ++ tail_sum ≡ decoded
  whole = ap (λ b. b ++ tail_sum) payload ∙ take-append-drop (length decoded - 8) decoded

  decoded-Fits : Fits (bytes ++ tail_sum)
  decoded-Fits = rw whole (to_chars-to_bytes (drop (one + 1) s) decoded read).1

  length-tail_sum : length tail_sum ≡ 8
  length-tail_sum =
      let printed = (to_chars-to_bytes (drop (one + 1) s) decoded read).0 in
      omega (
        arith,
        room,
        length-drop (length decoded - 8) decoded,
        length-drop (one + 1) s,
        (to_bytes-to_chars decoded (drop (one + 1) s) printed).3,
      )

  tail_eq : tail_sum ≡ bech32_checksum hrp bytes
  tail_eq =
      (verify_checksum-bech32_checksum hrp bytes tail_sum (All-prefix bytes tail_sum decoded-Fits)
          (All-suffix bytes tail_sum decoded-Fits) length-tail_sum).0
        (ap (verify_checksum hrp) whole ∙ sum)

  encode-Split : encode hrp bytes ≡ some s
  unfolding encode
  encode-Split =
      let printed : to_chars (bytes ++ bech32_checksum hrp bytes) ≡ some (drop (one + 1) s) =
        ap (λ t. to_chars (bytes ++ t)) (sym tail_eq)
        ∙ ap to_chars whole
        ∙ (to_chars-to_bytes (drop (one + 1) s) decoded read).0 in
      rw printed (
        ap (λ h. some (h ++ (b':' ∷ drop (one + 1) s))) part
        ∙ ap some (last_index_byte-split s b':' one at))

-- `Decode` accepts no second spelling of an address: whatever it accepts is, in lowercase, what
-- `Encode` makes of the parts that it returns.
pub encode-decode :
    (s hrp bytes : Bytes) → decode s ≡ ok (hrp, bytes) → encode hrp bytes ≡ some (to_lower s)
encode-decode s hrp bytes h =
    encode-Split (to_lower s) hrp bytes
      (decode_lower-Split (to_lower s) hrp bytes (decode-lower s hrp bytes h))
