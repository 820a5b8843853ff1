-- ===== src/Shift/Trims.antt =====
-- How the zeros at the head of an amount and its point are taken off.
use dashcash_wallet.Prelude.{
  ℕ, zero, suc, ◌+◌, ◌-◌, ◌<◌, ◌≡◌, refl, ◌∙◌, inl, inr, true, false, none, some, [], ◌∷◌, ◌++◌,
  append-nil, arith, Option-cases, length, length-append, length-drop, drop, replicate, take-append,
  drop-append_cons, le→leb, get_elem?, leb, ◌==◌,
}
use dashcash_wallet.Text.{Bytes, index_byte}
use dashcash_wallet.Decimal.{scan_digits}
use dashcash_wallet.Decimal.RoundTrip.{IsDigits}
use dashcash_wallet.Shift.{moved, trim_zeros, cut_at, first_nonzero}

-- Zeros at the head do not change the number.
pub scan_digits-zeros :
    (limit k : ℕ) (cs : Bytes)
    → scan_digits limit 0 (replicate k b'0' ++ cs) ≡ scan_digits limit 0 cs
unfolding scan_digits
scan_digits-zeros limit zero cs = refl
scan_digits-zeros limit (suc k) cs = ground (arith, scan_digits-zeros limit k cs)

-- Trimming a text of digits gives a text of the same number, and not an empty one.
pub record Trims (bs cs : Bytes) : Type 0 where
  pub trimmed : trim_zeros bs ≡ some cs
  pub kept : 0 < length cs
  pub digits : IsDigits cs
  pub same : (limit : ℕ) → scan_digits limit 0 cs ≡ scan_digits limit 0 bs

first_nonzero-drop :
    (bs : Bytes) (stop limit : ℕ)
    → first_nonzero bs ≡ some stop
    → scan_digits limit 0 (drop stop bs) ≡ scan_digits limit 0 bs
unfolding first_nonzero scan_digits
first_nonzero-drop [] stop limit h = ground arith
first_nonzero-drop (c ∷ bs) zero limit h = refl
first_nonzero-drop (c ∷ bs) (suc stop) limit h = ground (arith, first_nonzero-drop bs stop limit)

first_nonzero-lt : (bs : Bytes) (stop : ℕ) → first_nonzero bs ≡ some stop → stop < length bs
unfolding first_nonzero
first_nonzero-lt [] stop h = ground arith
first_nonzero-lt (c ∷ bs) zero h = omega arith
first_nonzero-lt (c ∷ bs) (suc stop) h =
    let later : first_nonzero bs ≡ some stop = ground arith in
    omega (arith, first_nonzero-lt bs stop later)

get_elem?-IsDigits :
    (bs : Bytes) (i : ℕ)
    → IsDigits bs
    → i < length bs
    → (c : ℕ) × (get_elem? bs i ≡ some c) × ((c == b'.') ≡ false)
get_elem?-IsDigits [] i h k = absurd (omega arith)
get_elem?-IsDigits (c ∷ bs) zero h k = (c, refl, let low = h.0.0 in ground arith)
get_elem?-IsDigits (c ∷ bs) (suc i) h k = get_elem?-IsDigits bs i h.1 (omega arith)

drop-IsDigits : (n : ℕ) (bs : Bytes) → IsDigits bs → IsDigits (drop n bs)
drop-IsDigits zero bs h = h
drop-IsDigits (suc n) [] h = tt
drop-IsDigits (suc n) (c ∷ bs) h = drop-IsDigits n bs h.1

cut_at-digit :
    (bs : Bytes) (stop c : ℕ)
    → get_elem? bs stop ≡ some c
    → (c == b'.') ≡ false
    → cut_at bs stop ≡ some (drop stop bs)
unfolding cut_at
cut_at-digit bs stop c h k = rw (h, k, cut_at)

trim_zeros-none : (bs : Bytes) → first_nonzero bs ≡ none → trim_zeros bs ≡ some bs
unfolding trim_zeros
trim_zeros-none bs e = rw (e, trim_zeros)

trim_zeros-some :
    (bs : Bytes) (stop : ℕ) → first_nonzero bs ≡ some stop → trim_zeros bs ≡ cut_at bs stop
unfolding trim_zeros
trim_zeros-some bs stop e = rw (e, trim_zeros)

pub digits-Trims : (bs : Bytes) → IsDigits bs → 0 < length bs → (cs : Bytes) × Trims bs cs
digits-Trims bs h k = elim (Option-cases (first_nonzero bs)) [
  | inl e ↦
      (bs, record { trimmed = trim_zeros-none bs e; kept = k; digits = h; same = λ limit. refl })
  | inr (stop, e) ↦
      let (c, at, digit) = get_elem?-IsDigits bs stop h (first_nonzero-lt bs stop e) in
      (
        drop stop bs,
        record {
          trimmed = trim_zeros-some bs stop e ∙ cut_at-digit bs stop c at digit;
          kept = omega (arith, first_nonzero-lt bs stop e, length-drop stop bs);
          digits = drop-IsDigits stop bs h;
          same = λ limit. first_nonzero-drop bs stop limit e;
        },
      )
]

pub index_byte-none : (bs : Bytes) → IsDigits bs → index_byte bs b'.' ≡ none
unfolding index_byte
index_byte-none [] h = refl
index_byte-none (c ∷ bs) h = let low = h.0.0 in ground (arith, index_byte-none bs h.1)

pub index_byte-append :
    (front bs : Bytes)
    → IsDigits front
    → index_byte (front ++ (b'.' ∷ bs)) b'.' ≡ some (length front)
unfolding index_byte
index_byte-append [] bs h = refl
index_byte-append (c ∷ front) bs h =
    let low = h.0.0 in ground (arith, index_byte-append front bs h.1)

-- A text with its point `size` places before the end loses the point.
pub moved-exact :
    (front back : Bytes) (size : ℕ)
    → length back ≡ size
    → moved (front ++ (b'.' ∷ back)) size (length front) ≡ front ++ back
unfolding moved
moved-exact front back size h =
    let len : length (front ++ (b'.' ∷ back)) ≡ length front + suc (length back) =
      length-append front (b'.' ∷ back) in
    let reaches : leb (length (front ++ (b'.' ∷ back)) - 1) (length front + size) ≡ true =
      le→leb _ _ (omega (arith, len)) in
    let none_missing : length front + size + 1 - length (front ++ (b'.' ∷ back)) ≡ 0 =
      omega (arith, len) in
    rw
      (
        take-append front (b'.' ∷ back) (length front) refl,
        drop-append_cons front back b'.',
        reaches,
        none_missing,
      )
      (append-nil (front ++ back))
