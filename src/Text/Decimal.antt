-- ===== src/Text/Decimal.antt =====
-- `std::to_string` of a number that is not negative, and the reading of decimal digits.
use bot_cock_pit.Prelude.{
  ℕ, zero, suc, ◌+◌, ◌-◌, ◌*◌, ◌/◌, ◌%◌, ◌<◌, ◌≡◌, refl, ◌∙◌, ◌≢◌, ◌&&◌, Bool, [], ◌∷◌, ◌++◌, arith,
  All, leb, ltb, if◌then◌else◌, if-both, Bool-cases, inl, inr, true, false,
}
use bot_cock_pit.Text.{Text}

abbrev digit : ℕ → ℕ
digit n = b'0' + n % 10

-- The digits of `n`, in front of `rest`; `n` rounds are enough.
print_from : ℕ → ℕ → Text → Text
print_from zero n rest = rest
print_from (suc fuel) n rest =
    let more = print_from fuel (n / 10) (digit n ∷ rest) in
    if ltb n 10 then digit n ∷ rest else more

unfoldable pub to_string : ℕ → Text
unfolding print_from
to_string n = print_from (suc n) n []

abbrev pub is_digit : ℕ → Bool
is_digit c = leb b'0' c && leb c b'9'

-- Decimal digits at the front, read onto `acc`, and what stands behind them.
unfoldable pub read_from : ℕ → Text → ℕ × Text
read_from acc [] = (acc, [])
read_from acc (c ∷ s) =
    let (n, rest) = read_from (acc * 10 + (c - b'0')) s in
    if is_digit c then (n, rest) else (acc, c ∷ s)

print_from-append :
    (fuel n : ℕ) (a b : Text) → print_from fuel n (a ++ b) ≡ print_from fuel n a ++ b
unfolding print_from
print_from-append zero n a b = refl
print_from-append (suc fuel) n a b = ground (arith, print_from-append fuel (n / 10) (digit n ∷ a) b)

read_from-digit :
    (acc k n : ℕ) (rest : Text)
    → acc * 10 + n % 10 ≡ k
    → read_from acc (digit n ∷ rest) ≡ read_from k rest
unfolding read_from
read_from-digit acc k n rest h =
    let e : acc * 10 + (digit n - b'0') ≡ k = omega arith in
    let d : is_digit (digit n) ≡ true = ground arith in rw (e, d)

read_from-print_from :
    (fuel n : ℕ) (rest : Text) → n < fuel → read_from 0 (print_from fuel n rest) ≡ read_from n rest
unfolding print_from
read_from-print_from zero n rest h = absurd (omega arith)
read_from-print_from (suc fuel) n rest h = elim (Bool-cases (ltb n 10)) [
  | inl small ↦ rw (small, print_from) (read_from-digit 0 n n rest (ground arith))
  | inr large ↦
      rw (large, print_from)
        (read_from-print_from fuel (n / 10) (digit n ∷ rest) (ground arith)
          ∙ read_from-digit (n / 10) n n rest (omega arith))
]

-- A printed number is read back, whatever follows that is no digit.
pub read_from-to_string :
    (n : ℕ) (rest : Text) → read_from 0 (to_string n ++ rest) ≡ read_from n rest
unfolding to_string
read_from-to_string n rest =
    rw (← print_from-append (suc n) n [] rest) (read_from-print_from (suc n) n rest (omega arith))

print_from-All :
    (P : ℕ → Type 0) (fuel n : ℕ) (rest : Text)
    → ((d : ℕ) → P (digit d))
    → All P rest
    → All P (print_from fuel n rest)
unfolding print_from
print_from-All P zero n rest h r = r
print_from-All P (suc fuel) n rest h r = elim (Bool-cases (ltb n 10)) [
  | inl small ↦ rw (small, print_from) (h n, r)
  | inr large ↦ rw (large, print_from) (print_from-All P fuel (n / 10) (digit n ∷ rest) h (h n, r))
]

-- A printed number has no byte outside `0` to `9`.
pub to_string-All : (c n : ℕ) → is_digit c ≡ false → All (λ d. d ≢ c) (to_string n)
unfolding to_string
to_string-All c n h = print_from-All (λ d. d ≢ c) (suc n) n [] (λ d. ground arith) tt

-- A text that begins with a digit.
record IsNumeral (s : Text) : Type 0 where
  head : ℕ
  tail : Text
  digit_head : is_digit head ≡ true
  parts : s ≡ head ∷ tail

print_from-IsNumeral :
    (fuel n d : ℕ) (rest : Text) → is_digit d ≡ true → IsNumeral (print_from fuel n (d ∷ rest))
unfolding print_from
print_from-IsNumeral zero n d rest h = record {
  head = d;
  tail = rest;
  digit_head = h;
  parts = refl;
}
print_from-IsNumeral (suc fuel) n d rest h =
    if-both IsNumeral (ltb n 10)
      (record { head = digit n; tail = d ∷ rest; digit_head = ground arith; parts = refl })
      (print_from-IsNumeral fuel (n / 10) (digit n) (d ∷ rest) (ground arith))

to_string-IsNumeral : (n : ℕ) → IsNumeral (to_string n)
unfolding to_string print_from
to_string-IsNumeral n =
    if-both IsNumeral (ltb n 10)
      (record { head = digit n; tail = []; digit_head = ground arith; parts = refl })
      (print_from-IsNumeral n (n / 10) (digit n) [] (ground arith))

-- A printed number begins with a digit.
pub to_string-cons : (n : ℕ) → (d : ℕ) × (t : Text) × (is_digit d ≡ true) × (to_string n ≡ d ∷ t)
to_string-cons n = let h = to_string-IsNumeral n in (h.head, h.tail, h.digit_head, h.parts)
