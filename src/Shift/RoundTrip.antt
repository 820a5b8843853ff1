-- ===== src/Shift/RoundTrip.antt =====
-- An amount that is shown with `LeftShift` and sent back is read by `RightShift` as it was.
use dashcash_wallet.Prelude.{
  ℕ, zero, suc, ◌+◌, ◌-◌, ◌^◌, ◌<◌, ◌≡◌, refl, sym, ap, ◌∙◌, inl, inr, false, some, [], ◌∷◌, ◌++◌,
  arith, All-append, length, length-append, length-drop, length-replicate, take, drop, replicate,
  take-append-drop, leb→le, Bool-cases, leb,
}
use dashcash_wallet.Text.{Bytes}
use dashcash_wallet.Decimal.{
  scan_digits, parse_uint, parse_int, parsed, signed, format_uint, format_int,
}
use dashcash_wallet.Decimal.RoundTrip.{
  IsDigits, format_uint-IsDigits, format_uint-ne-nil, parse_int-digits, parse_int-format_int,
}
use dashcash_wallet.Prelude.Int.{pos}
use dashcash_wallet.Shift.{left_shift, left_shift_whole, right_shift, trim_zeros}
use dashcash_wallet.Shift.Trims.{
  scan_digits-zeros, digits-Trims, index_byte-none, index_byte-append, moved-exact,
}

-- What `LeftShift` makes of a text of digits: its digits behind zeros, with the point before the
-- last `size` of them.
record Shifted (size : ℕ) (s t : Bytes) : Type 0 where
  front : Bytes
  back : Bytes
  zeros : ℕ
  shape : t ≡ front ++ (b'.' ∷ back)
  places : length back ≡ size
  front_digits : IsDigits front
  all : front ++ back ≡ replicate zeros b'0' ++ s

take-IsDigits : (n : ℕ) (bs : Bytes) → IsDigits bs → IsDigits (take n bs)
take-IsDigits zero bs h = tt
take-IsDigits (suc n) [] h = tt
take-IsDigits (suc n) (c ∷ bs) h = (h.0, take-IsDigits n bs h.1)

replicate-IsDigits : (n : ℕ) → IsDigits (replicate n b'0')
replicate-IsDigits zero = tt
replicate-IsDigits (suc n) = (omega arith, replicate-IsDigits n)

left_shift_whole-Shifted :
    (s : Bytes) (size : ℕ) → IsDigits s → Shifted size s (left_shift_whole s size)
unfolding left_shift_whole
left_shift_whole-Shifted s size h = elim (Bool-cases (leb (length s) size)) [
  | inl short ↦ record {
    front = b'0' ∷ [];
    back = replicate (size - length s) b'0' ++ s;
    zeros = suc (size - length s);
    shape = rw short;
    places = omega (
      arith,
      length-append (replicate (size - length s) b'0') s,
      length-replicate {A = ℕ} (size - length s) b'0',
      leb→le (length s) size short,
    );
    front_digits = omega arith;
    all = refl;
  }
  | inr long ↦ record {
    front = take (length s - size) s;
    back = drop (length s - size) s;
    zeros = 0;
    shape = rw long;
    places =
        let lt : size < length s = ground arith in omega (arith, length-drop (length s - size) s);
    front_digits = take-IsDigits (length s - size) s h;
    all = take-append-drop (length s - size) s;
  }
]

left_shift-whole :
    (s : Bytes) (size : ℕ)
    → IsDigits s
    → 0 < length s
    → 0 < size
    → left_shift s size ≡ left_shift_whole s size
unfolding left_shift
left_shift-whole s size h k l = rw (index_byte-none s h, left_shift) (ground arith)

right_shift-point :
    (front back : Bytes) (size : ℕ)
    → IsDigits front
    → 0 < size
    → length back ≡ size
    → right_shift (front ++ (b'.' ∷ back)) size ≡ trim_zeros (front ++ back)
unfolding right_shift
right_shift-point front back size h k len =
    let text : length (front ++ (b'.' ∷ back)) ≡ length front + suc (length back) =
      length-append front (b'.' ∷ back) in
    rw (index_byte-append front back h, right_shift, moved-exact front back size len) (ground arith)

parse_uint-scan_digits :
    (limit : ℕ) (cs : Bytes) → 0 < length cs → parse_uint limit cs ≡ scan_digits limit 0 cs
unfolding parse_uint
parse_uint-scan_digits limit [] h = absurd (omega arith)
parse_uint-scan_digits limit (c ∷ cs) h = refl

right_shift_undoes :
    (s t : Bytes) (size : ℕ)
    → IsDigits s
    → 0 < length s
    → 0 < size
    → Shifted size s t
    → (u : Bytes) × (right_shift t size ≡ some u)
      × IsDigits u
      × (0 < length u)
      × ((limit : ℕ) → parse_uint limit u ≡ parse_uint limit s)
right_shift_undoes s t size h k l p =
    let digits : IsDigits (replicate p.zeros b'0' ++ s) =
      All-append _ (replicate p.zeros b'0') s (replicate-IsDigits p.zeros) h in
    let len : 0 < length (replicate p.zeros b'0' ++ s) =
      omega (arith, length-append (replicate p.zeros b'0') s) in
    let (u, trims) = digits-Trims (replicate p.zeros b'0' ++ s) digits len in
    (
      u,
      ap (λ b. right_shift b size) p.shape
          ∙ right_shift-point p.front p.back size p.front_digits l p.places
          ∙ ap trim_zeros p.all
          ∙ trims.trimmed,
      trims.digits,
      trims.kept,
      λ limit.
          parse_uint-scan_digits limit u trims.kept
          ∙ trims.same limit
          ∙ scan_digits-zeros limit p.zeros s
          ∙ sym (parse_uint-scan_digits limit s k),
    )

-- An amount that fits an int64, printed, shifted left to be shown and right to be read, is read by
-- strconv.ParseInt as the same amount, whatever the number of places (at least one).
pub right_shift-left_shift :
    (n size : ℕ)
    → n < 2 ^ 63
    → 0 < size
    → (t : Bytes) × (right_shift (left_shift (format_uint n) size) size ≡ some t)
      × (parse_int 64 t ≡ parsed (pos n))
unfolding format_int
right_shift-left_shift n size fits some_places =
    let s : Bytes = format_uint n in
    let digits = format_uint-IsDigits n in
    let (t, shifted, t_digits, t_len, same) =
      right_shift_undoes s (left_shift_whole s size) size digits (format_uint-ne-nil n) some_places
        (left_shift_whole-Shifted s size digits) in
    (
      t,
      ap (λ b. right_shift b size)
            (left_shift-whole s size digits (format_uint-ne-nil n) some_places)
          ∙ shifted,
      parse_int-digits 64 t t_digits t_len
          ∙ ap (signed 64 false) (same (2 ^ 64 - 1))
          ∙ sym (parse_int-digits 64 s digits (format_uint-ne-nil n))
          ∙ parse_int-format_int (pos n) (fits, omega arith),
    )
