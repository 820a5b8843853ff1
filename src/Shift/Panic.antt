-- ===== src/Shift/Panic.antt =====
-- Where `RightShift` of util/util.go panics.
use dashcash_wallet.Prelude.{
  ℕ, zero, suc, ◌+◌, ◌-◌, ◌<◌, ◌≡◌, ◌≢◌, ◌↔◌, refl, sym, ap, ◌∙◌, inl, inr, true, false, none, some,
  [], ◌∷◌, ◌++◌, arith, Option-cases, Bool-cases, length, take, drop, replicate, get_elem?, leb,
  ◌==◌, ==_iff,
}
use mathlib.Core.Path.{ap₂}
use dashcash_wallet.Text.{Bytes, index_byte}
use dashcash_wallet.Shift.{right_shift, moved, trim_zeros, cut_at, first_nonzero}

-- A text whose first byte is a point makes the trimming slice from -1.
trim_point : (bs : Bytes) → trim_zeros (b'.' ∷ bs) ≡ none
unfolding trim_zeros first_nonzero cut_at
trim_point bs = refl

first_nonzero-get :
    (bs : Bytes) (stop : ℕ) → first_nonzero bs ≡ some stop → (c : ℕ) × (get_elem? bs stop ≡ some c)
unfolding first_nonzero
first_nonzero-get [] stop h = ground arith
first_nonzero-get (c ∷ bs) zero h = (c, refl)
first_nonzero-get (c ∷ bs) (suc stop) h = first_nonzero-get bs stop (ground arith)

trim_nonzero :
    (c : ℕ) (bs : Bytes) → (c == b'.') ≡ false → (c == b'0') ≡ false → trim_zeros (c ∷ bs) ≢ none
unfolding trim_zeros first_nonzero cut_at
trim_nonzero c bs h k = ground arith

trim_zero : (bs : Bytes) → trim_zeros (b'0' ∷ bs) ≢ none
unfolding trim_zeros first_nonzero cut_at
trim_zero bs = elim (Option-cases (first_nonzero bs)) [
  | inl e ↦ ground arith
  | inr (stop, e) ↦ let (c, at) = first_nonzero-get bs stop e in ground arith
]

-- Any other text is trimmed.
trim_no_point : (c : ℕ) (bs : Bytes) → (c == b'.') ≡ false → trim_zeros (c ∷ bs) ≢ none
trim_no_point c bs h = elim (Bool-cases (c == b'0')) [
  | inl zero_byte ↦ let e : c ≡ b'0' = (==_iff c b'0').0 zero_byte in rw e (trim_zero bs)
  | inr other ↦ trim_nonzero c bs h other
]

take_pos : (n c : ℕ) (xs : Bytes) → 0 < n → take n (c ∷ xs) ≡ c ∷ take (n - 1) xs
take_pos zero c xs h = absurd (omega arith)
take_pos (suc n) c xs h = let e : suc n - 1 ≡ n = omega arith in rw e

moved_head :
    (c : ℕ) (rest : Bytes) (size index : ℕ)
    → get_elem? (moved (c ∷ rest) size (suc index)) 0 ≡ some c
unfolding moved
moved_head c rest size index =
    let body : Bytes = take index rest ++ drop (suc index + 1) (c ∷ rest) in
    elim (Bool-cases (leb (suc (length rest) - 1) (suc index + size))) [
      | inl e ↦ rw e
      | inr e ↦ rw (e, take_pos (suc index + size) c body (omega arith))
    ]

moved_second :
    (c : ℕ) (rest : Bytes) (size : ℕ)
    → 0 < size
    → get_elem? (moved (b'.' ∷ c ∷ rest) size 0) 0 ≡ some c
unfolding moved
moved_second c rest size h = elim (Bool-cases (leb (suc (suc (length rest)) - 1) (0 + size))) [
  | inl e ↦ rw e
  | inr e ↦ rw (e, take_pos (0 + size) c rest (omega arith))
]

moved_point : (size : ℕ) → 0 < size → moved (b'.' ∷ []) size 0 ≡ replicate (0 + size + 1 - 1) b'0'
unfolding moved
moved_point size h = ground arith

trim_replicate : (k : ℕ) → trim_zeros (replicate k b'0') ≢ none
trim_replicate zero = unfold trim_zeros first_nonzero in ground arith
trim_replicate (suc k) = trim_zero (replicate k b'0')

trim_head :
    (bs : Bytes) (c : ℕ) → get_elem? bs 0 ≡ some c → (c == b'.') ≡ false → trim_zeros bs ≢ none
trim_head [] c h k = ground arith
trim_head (x ∷ bs) c h k =
    let e : x ≡ c = ground arith in trim_no_point x bs (ap (λ n. n == b'.') e ∙ k)

trim_head_point : (bs : Bytes) → get_elem? bs 0 ≡ some b'.' → trim_zeros bs ≡ none
trim_head_point [] h = ground arith
trim_head_point (x ∷ bs) h =
    let e : x ≡ b'.' = ground arith in ap (λ n. trim_zeros (n ∷ bs)) e ∙ trim_point bs

right_shift-none_found :
    (s : Bytes) (size : ℕ) → index_byte s b'.' ≡ none → right_shift s size ≢ none
unfolding right_shift
right_shift-none_found s size h = ground arith

right_shift-found :
    (s : Bytes) (size index : ℕ)
    → 0 < length s
    → 0 < size
    → index_byte s b'.' ≡ some index
    → right_shift s size ≡ trim_zeros (moved s size index)
unfolding right_shift
right_shift-found s size index h k e = ground arith

index_byte-head : (c : ℕ) (rest : Bytes) → (c == b'.') ≡ true → index_byte (c ∷ rest) b'.' ≡ some 0
unfolding index_byte
index_byte-head c rest h = rw h

index_byte-tail :
    (c index : ℕ) (rest : Bytes)
    → index_byte (c ∷ rest) b'.' ≡ some (suc index)
    → (c == b'.') ≡ false
unfolding index_byte
index_byte-tail c index rest h = ground arith

index_byte-zero : (c : ℕ) (rest : Bytes) → index_byte (c ∷ rest) b'.' ≡ some 0 → c ≡ b'.'
unfolding index_byte
index_byte-zero c rest h = ground arith

-- The texts that begin with two points.
abbrev pub TwoPoints : Bytes → Type 0
TwoPoints s = (rest : Bytes) × (s ≡ b'.' ∷ b'.' ∷ rest)

panics_only :
    (s : Bytes) (size index : ℕ)
    → 0 < size
    → index_byte s b'.' ≡ some index
    → trim_zeros (moved s size index) ≡ none
    → TwoPoints s
panics_only [] size index h e k = unfold index_byte in ground arith
panics_only (c ∷ rest) size (suc index) h e k =
    absurd (trim_head _ c (moved_head c rest size index) (index_byte-tail c index rest e) k)
panics_only (c ∷ []) size zero h e k =
    let point : moved (c ∷ []) size 0 ≡ replicate (0 + size + 1 - 1) b'0' =
      ap (λ n. moved (n ∷ []) size 0) (index_byte-zero c [] e) ∙ moved_point size h in
    absurd (trim_replicate (0 + size + 1 - 1) (ap trim_zeros (sym point) ∙ k))
panics_only (c ∷ d ∷ rest) size zero h e k =
    let point = index_byte-zero c (d ∷ rest) e in
    let head : get_elem? (moved (c ∷ d ∷ rest) size 0) 0 ≡ some d =
      ap (λ n. get_elem? (moved (n ∷ d ∷ rest) size 0) 0) point ∙ moved_second d rest size h in
    elim (Bool-cases (d == b'.')) [
      | inl two ↦ (rest, ap₂ (λ m n. m ∷ n ∷ rest) point ((==_iff d b'.').0 two))
      | inr one ↦ absurd (trim_head (moved (c ∷ d ∷ rest) size 0) d head one k)
    ]

only : (s : Bytes) (size : ℕ) → 0 < size → right_shift s size ≡ none → TwoPoints s
only [] size h e = unfold right_shift in ground arith
only (c ∷ cs) size h e = elim (Option-cases (index_byte (c ∷ cs) b'.')) [
  | inl k ↦ absurd (right_shift-none_found (c ∷ cs) size k e)
  | inr (index, k) ↦
      panics_only (c ∷ cs) size index h k
        (sym (right_shift-found (c ∷ cs) size index (omega arith) h k) ∙ e)
]

-- With at least one place, `RightShift` panics on the texts that begin with two points, and on no
-- others.
pub right_shift-panic :
    (s : Bytes) (size : ℕ) → 0 < size → (right_shift s size ≡ none) ↔ TwoPoints s
right_shift-panic s size h = (only s size h, when)
  where
    when : TwoPoints s → right_shift s size ≡ none
    when (rest, e) =
        ap (λ t. right_shift t size) e
        ∙ right_shift-found (b'.' ∷ b'.' ∷ rest) size 0 (omega arith) h
            (index_byte-head b'.' (b'.' ∷ rest) refl)
        ∙ trim_head_point _ (moved_second b'.' rest size h)
