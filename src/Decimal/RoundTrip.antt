-- ===== src/Decimal/RoundTrip.antt =====
-- What the program prints as a number, it reads back as that number.
use mathlib.Core.Logic.{ite, dite, if_pos, if_neg}
use mathlib.Core.WellFounded
use mathlib.Core.WellFounded.{Acc, Acc-prop}
use native.Mathlib.Decide.{dec_lt}
use dashcash_wallet.Prelude.{
  ℕ, suc, ◌+◌, ◌-◌, ◌*◌, ◌/◌, ◌%◌, ◌^◌, ◌≤◌, ◌<◌, ◌≡◌, refl, ap, ◌∙◌, true, false, some, [], ◌∷◌,
  ◌++◌, arith, All, All-append, length, length-append,
}
use dashcash_wallet.Prelude.Int.{ℤ, pos, negsuc, InInt64}
use dashcash_wallet.Prelude.Order.{lt_wf}
use dashcash_wallet.Text.{Bytes}
use dashcash_wallet.Decimal.{
  print_acc, format_uint, format_int, scanned, scan_digits, parse_uint, parsed, signed, parse_int,
  big_digits, big_of_text, scan_big,
}

print_acc_step :
    (n : ℕ) (w : Acc ◌<◌ n) (w' : Acc ◌<◌ (n / 10))
    → print_acc n w
      ≡ ite (dec_lt 9 n) (print_acc (n / 10) w' ++ (b'0' + n % 10) ∷ []) ((b'0' + n) ∷ [])
unfolding print_acc
print_acc_step n (Acc.intro _ smaller) w' = λ i.
    dite (dec_lt 9 n)
      (λ h.
        print_acc (n / 10) (Acc-prop (smaller (n / 10) (omega arith)) w' i) ++ (b'0' + n % 10) ∷ [])
      (λ _. (b'0' + n) ∷ [])

format_uint_step :
    (n : ℕ)
    → format_uint n
      ≡ ite (dec_lt 9 n) (format_uint (n / 10) ++ (b'0' + n % 10) ∷ []) ((b'0' + n) ∷ [])
unfolding format_uint
format_uint_step n = print_acc_step n (lt_wf.apply n) (lt_wf.apply (n / 10))

-- A print is made of digits, and is not empty.
abbrev pub IsDigits : Bytes → Type 0
IsDigits = All (λ c. (b'0' ≤ c) × (c ≤ b'9'))

format_uint_large : (n : ℕ) → 9 < n → format_uint n ≡ format_uint (n / 10) ++ (b'0' + n % 10) ∷ []
format_uint_large n h =
    format_uint_step n
    ∙ if_pos (dec_lt 9 n) h (format_uint (n / 10) ++ (b'0' + n % 10) ∷ []) ((b'0' + n) ∷ [])

pub format_uint_small : (n : ℕ) → n ≤ 9 → format_uint n ≡ (b'0' + n) ∷ []
format_uint_small n h =
    let small : ¬ (9 < n) = omega arith in
    format_uint_step n
    ∙ if_neg (dec_lt 9 n) small (format_uint (n / 10) ++ (b'0' + n % 10) ∷ []) ((b'0' + n) ∷ [])

pub format_uint-IsDigits : (n : ℕ) → IsDigits (format_uint n)
format_uint-IsDigits n = WellFounded.induction lt_wf {C = λ k. IsDigits (format_uint k)} n λ k ih.
    elim (dec_lt 9 k) [
      | yes h ↦
          rw (format_uint_large k h)
            (All-append _ (format_uint (k / 10)) _ (ih (k / 10) (omega arith)) (omega arith))
      | no h ↦ rw (format_uint_small k (omega arith)) (omega arith)
    ]

pub format_uint-ne-nil : (n : ℕ) → 0 < length (format_uint n)
format_uint-ne-nil n = elim (dec_lt 9 n) [
  | yes h ↦ omega (
    arith,
    ap length (format_uint_large n h),
    length-append (format_uint (n / 10)) ((b'0' + n % 10) ∷ []),
  )
  | no h ↦ rw (format_uint_small n (omega arith)) (omega arith)
]

scan_digits-append :
    (limit n d m : ℕ) (cs : Bytes)
    → d ≤ 9
    → m * 10 + d ≤ limit
    → scan_digits limit n cs ≡ scanned m
    → scan_digits limit n (cs ++ (b'0' + d) ∷ []) ≡ scanned (m * 10 + d)
unfolding scan_digits
scan_digits-append limit n d m [] h k e = ground arith
scan_digits-append limit n d m (c ∷ cs) h k e =
    ground (arith, scan_digits-append limit (n * 10 + (c - b'0')) d m cs)

scan_digits-small :
    (limit n : ℕ) → n ≤ 9 → n ≤ limit → scan_digits limit 0 ((b'0' + n) ∷ []) ≡ scanned n
unfolding scan_digits
scan_digits-small limit n h k = ground arith

scan_digits-format_uint :
    (limit n : ℕ) → n ≤ limit → scan_digits limit 0 (format_uint n) ≡ scanned n
scan_digits-format_uint limit n =
    WellFounded.induction lt_wf
      {C = λ k. k ≤ limit → scan_digits limit 0 (format_uint k) ≡ scanned k} n
      λ k ih fits. elim (dec_lt 9 k) [
        | yes h ↦
            let whole : k / 10 * 10 + k % 10 ≡ k = omega arith in
            rw (format_uint_large k h) (
              scan_digits-append limit 0 (k % 10) (k / 10) (format_uint (k / 10)) (omega arith)
                (omega arith) (ih (k / 10) (omega arith) (omega arith))
              ∙ ap scanned whole)
        | no h ↦
            rw (format_uint_small k (omega arith)) (scan_digits-small limit k (omega arith) fits)
      ]

parse_uint-scan_digits :
    (limit : ℕ) (cs : Bytes) → 0 < length cs → parse_uint limit cs ≡ scan_digits limit 0 cs
unfolding parse_uint
parse_uint-scan_digits limit [] h = absurd (omega arith)
parse_uint-scan_digits limit (c ∷ cs) h = refl

-- Every number up to the limit is read back from its print.
pub parse_uint-format_uint :
    (limit n : ℕ) → n ≤ limit → parse_uint limit (format_uint n) ≡ scanned n
parse_uint-format_uint limit n h =
    parse_uint-scan_digits limit (format_uint n) (format_uint-ne-nil n)
    ∙ scan_digits-format_uint limit n h

-- A text of digits is read with no sign.
pub parse_int-digits :
    (bits : ℕ) (cs : Bytes)
    → IsDigits cs
    → 0 < length cs
    → parse_int bits cs ≡ signed bits false (parse_uint (2 ^ bits - 1) cs)
unfolding parse_int
parse_int-digits bits [] h k = absurd (omega arith)
parse_int-digits bits (c ∷ cs) h k = let low = h.0.0 in ground arith

parse_int-minus :
    (bits : ℕ) (cs : Bytes)
    → parse_int bits (b'-' ∷ cs) ≡ signed bits true (parse_uint (2 ^ bits - 1) cs)
unfolding parse_int
parse_int-minus bits cs = refl

-- Every int64 is read back from its print.
pub parse_int-format_int : (z : ℤ) → InInt64 z → parse_int 64 (format_int z) ≡ parsed z
unfolding format_int signed
parse_int-format_int (pos n) h =
    parse_int-digits 64 (format_uint n) (format_uint-IsDigits n) (format_uint-ne-nil n)
    ∙ ap (signed 64 false) (parse_uint-format_uint (2 ^ 64 - 1) n (omega arith))
    ∙ ground arith
parse_int-format_int (negsuc n) h =
    parse_int-minus 64 (format_uint (suc n))
    ∙ ap (signed 64 true) (parse_uint-format_uint (2 ^ 64 - 1) (suc n) (omega arith))
    ∙ ground arith

-- A number that fits an int32 is read back as one.
pub parse_int32-format_uint : (n : ℕ) → n < 2 ^ 31 → parse_int 32 (format_uint n) ≡ parsed (pos n)
unfolding signed
parse_int32-format_uint n h =
    parse_int-digits 32 (format_uint n) (format_uint-IsDigits n) (format_uint-ne-nil n)
    ∙ ap (signed 32 false) (parse_uint-format_uint (2 ^ 32 - 1) n (omega arith))
    ∙ ground arith

scan_big-scan_digits :
    (limit n m : ℕ) (cs : Bytes) → scan_digits limit n cs ≡ scanned m → scan_big n cs ≡ some m
unfolding scan_digits scan_big
scan_big-scan_digits limit n m [] e = ground arith
scan_big-scan_digits limit n m (c ∷ cs) e =
    ground (arith, scan_big-scan_digits limit (n * 10 + (c - b'0')) m cs)

big_digits-format_uint : (n : ℕ) (cs : Bytes) → cs ≡ format_uint n → big_digits cs ≡ some n
unfolding big_digits
big_digits-format_uint n [] e =
    let some_digit = format_uint-ne-nil n in absurd (omega (arith, ap length e))
big_digits-format_uint n (c ∷ cs) e =
    scan_big-scan_digits n 0 n (c ∷ cs)
      (ap (scan_digits n 0) e ∙ scan_digits-format_uint n n (omega arith))

-- big.Int reads a print of a natural number as that number.
pub big_of_text-format_uint : (n : ℕ) → big_of_text (format_uint n) ≡ some (pos n)
unfolding big_of_text
big_of_text-format_uint n = go (format_uint n) (format_uint-IsDigits n) refl
  where
    go : (cs : Bytes) → IsDigits cs → cs ≡ format_uint n → big_of_text cs ≡ some (pos n)
    go [] h e = let some_digit = format_uint-ne-nil n in absurd (omega (arith, ap length e))
    go (c ∷ cs) h e =
        let read = big_digits-format_uint n (c ∷ cs) e in let low = h.0.0 in ground arith

pub format_uint-one : format_uint 1 ≡ b'1' ∷ []
format_uint-one = format_uint_small 1 (omega arith)
