-- ===== src/Base/Decimal.antt =====
-- Numbers in decimal, as asprintf(3) with "%lld" prints them and strtonum(3) reads them.
use gameoftrees.Base.{
  ℕ, zero, suc, ◌+◌, ◌-◌, ◌*◌, ◌/◌, ◌%◌, ◌≤◌, ◌<◌, ◌≡◌, refl, Bool, true, false, ◌&&◌, ◌||◌, not,
  [], ◌∷◌, Bytes, Option, none, some, arith, All, ltb, leb, ◌==◌, if◌then◌else◌, length, Bool-cases,
  inl, inr, ap, ◌∙◌,
}

-- isspace(3) in the C locale
abbrev pub is_blank : ℕ → Bool
is_blank c = c == 0x20 || (leb 9 c && leb c 13)

abbrev pub skip_blanks : Bytes → Bytes
skip_blanks [] = []
skip_blanks (c ∷ s) = let rest = skip_blanks s in if is_blank c then rest else c ∷ s

abbrev pub is_digit : ℕ → Bool
is_digit c = leb b'0' c && leb c b'9'

-- The digits of `n` in front of `acc`; a digit takes one of the fuel.
unfoldable pub decimal_loop : ℕ → ℕ → Bytes → Bytes
decimal_loop zero n acc = acc
decimal_loop (suc fuel) n acc =
    let c = b'0' + n % 10 in
    let rest = decimal_loop fuel (n / 10) (c ∷ acc) in if ltb n 10 then c ∷ acc else rest

unfoldable pub print_decimal : ℕ → Bytes
print_decimal n = decimal_loop (suc n) n []

-- The value of the digits at the start of a string behind `v`, their number, and what follows.
abbrev pub decimal_digits : ℕ → Bytes → ℕ × ℕ × Bytes
decimal_digits v [] = (v, 0, [])
decimal_digits v (c ∷ s) =
    let (w, n, rest) = decimal_digits (v * 10 + (c - b'0')) s in
    if is_digit c then (w, n + 1, rest) else (v, 0, c ∷ s)

-- strtonum(s, 0, max, &errstr) behind the blanks and the sign.
abbrev pub in_range : ℕ → Bool → ℕ × ℕ × Bytes → Option ℕ
in_range max negative (v, n, []) =
    if n == 0 || (negative && not (v == 0)) || ltb max v then none else some v
in_range max negative (v, n, c ∷ rest) = none

pub signed_digits : ℕ → Bytes → Option ℕ
signed_digits max [] = none
signed_digits max (c ∷ s) =
    if c == b'-'
    then in_range max true (decimal_digits 0 s)
    else in_range max false (decimal_digits 0 (if c == b'+' then s else c ∷ s))

pub strtonum : ℕ → Bytes → Option ℕ
strtonum max s = signed_digits max (skip_blanks s)

abbrev pub IsDigit : ℕ → Type 0
IsDigit c = (b'0' ≤ c) × (c ≤ b'9')

decimal_loop-All :
    (fuel n : ℕ) (acc : Bytes) → All IsDigit acc → All IsDigit (decimal_loop fuel n acc)
unfolding decimal_loop
decimal_loop-All zero n acc h = h
decimal_loop-All (suc fuel) n acc h = elim (Bool-cases (ltb n 10)) [
  | inl last ↦ rw last (omega arith, h)
  | inr more ↦ rw more (decimal_loop-All fuel (n / 10) ((b'0' + n % 10) ∷ acc) (omega arith, h))
]

pub print_decimal-All : (n : ℕ) → All IsDigit (print_decimal n)
unfolding print_decimal
print_decimal-All n = decimal_loop-All (suc n) n [] tt

pub IsDigit-is_digit : (c : ℕ) → IsDigit c → is_digit c ≡ true
IsDigit-is_digit c h = ground arith

digit_step : (n : ℕ) → n / 10 * 10 + (b'0' + n % 10 - b'0') ≡ n
digit_step n = omega arith

digits_from : (n v : ℕ) (acc : Bytes) → v ≡ n → (decimal_digits v acc).0 ≡ (decimal_digits n acc).0
digits_from n v acc e = rw e refl

-- A digit is taken.
digits_cons :
    (v c : ℕ) (s : Bytes)
    → IsDigit c
    → (decimal_digits v (c ∷ s)).0 ≡ (decimal_digits (v * 10 + (c - b'0')) s).0
digits_cons v c s h = rw (IsDigit-is_digit c h) refl

decimal_digits-loop :
    (fuel n : ℕ) (acc : Bytes)
    → n < fuel
    → (decimal_digits 0 (decimal_loop fuel n acc)).0 ≡ (decimal_digits n acc).0
unfolding decimal_loop
decimal_digits-loop zero n acc h = absurd (omega arith)
decimal_digits-loop (suc fuel) n acc h = elim (Bool-cases (ltb n 10)) [
  | inl last ↦ rw last (
      digits_cons 0 (b'0' + n % 10) acc (omega arith)
      ∙ digits_from n (0 * 10 + (b'0' + n % 10 - b'0')) acc (ground arith))
  | inr more ↦ rw more (
      decimal_digits-loop fuel (n / 10) ((b'0' + n % 10) ∷ acc) (ground arith)
      ∙ digits_cons (n / 10) (b'0' + n % 10) acc (omega arith)
      ∙ digits_from n (n / 10 * 10 + (b'0' + n % 10 - b'0')) acc (digit_step n))
]

-- Of digits alone, all are taken.
digits_all :
    (v : ℕ) (s : Bytes)
    → All IsDigit s
    → decimal_digits v s ≡ ((decimal_digits v s).0, length s, [])
digits_all v [] h = refl
digits_all v (c ∷ s) (p, h) =
    let rest = decimal_digits (v * 10 + (c - b'0')) s in
    rw (IsDigit-is_digit c p) (
      ap (λ (t : ℕ × ℕ × Bytes). (rest.0, t.1 + 1, t.2)) (digits_all (v * 10 + (c - b'0')) s h)
      ∙ ap (λ (n : ℕ). (rest.0, n, []))
          (let one : length s + 1 ≡ suc (length s) = omega arith in one))

decimal_loop-cons :
    (fuel n c : ℕ) (acc : Bytes) → (d : ℕ) × (s : Bytes) × (decimal_loop fuel n (c ∷ acc) ≡ d ∷ s)
unfolding decimal_loop
decimal_loop-cons zero n c acc = (c, acc, refl)
decimal_loop-cons (suc fuel) n c acc = elim (Bool-cases (ltb n 10)) [
  | inl last ↦ (b'0' + n % 10, c ∷ acc, rw last refl)
  | inr more ↦
      let (d, s, e) = decimal_loop-cons fuel (n / 10) (b'0' + n % 10) (c ∷ acc) in (d, s, rw more e)
]

pub print_decimal-cons : (n : ℕ) → (c : ℕ) × (s : Bytes) × (print_decimal n ≡ c ∷ s)
unfolding print_decimal decimal_loop
print_decimal-cons n = elim (Bool-cases (ltb n 10)) [
  | inl last ↦ (b'0' + n % 10, [], rw last refl)
  | inr more ↦ let (d, s, e) = decimal_loop-cons n (n / 10) (b'0' + n % 10) [] in (d, s, rw more e)
]

-- A number in digits alone.
number_lem :
    (max v : ℕ) (c : ℕ) (s : Bytes)
    → IsDigit c
    → All IsDigit s
    → (decimal_digits 0 (c ∷ s)).0 ≡ v
    → v ≤ max
    → strtonum max (c ∷ s) ≡ some v
unfolding strtonum signed_digits
number_lem max v c s p h e k =
    let blank : is_blank c ≡ false = ground arith in
    let minus : (c == b'-') ≡ false = ground arith in
    let plus : (c == b'+') ≡ false = ground arith in
    let small : ltb max v ≡ false = ground arith in
    let many : (suc (length s) == 0) ≡ false = ground arith in
    rw (blank, minus, plus, digits_all 0 (c ∷ s) (p, h), e, many, small) refl

printed_lem :
    (max n c : ℕ) (s : Bytes)
    → print_decimal n ≡ c ∷ s
    → (decimal_digits 0 (print_decimal n)).0 ≡ n
    → n ≤ max
    → strtonum max (print_decimal n) ≡ some n
printed_lem max n c s e v k =
    let h : All IsDigit (c ∷ s) = rw e at (print_decimal-All n) in
    let w : (decimal_digits 0 (c ∷ s)).0 ≡ n = rw e at v in rw e (number_lem max n c s h.0 h.1 w k)

-- strtonum(3) reads a number back that was printed, if it is in range.
pub strtonum-print_decimal : (max n : ℕ) → n ≤ max → strtonum max (print_decimal n) ≡ some n
unfolding print_decimal
strtonum-print_decimal max n k =
    let (c, s, e) = print_decimal-cons n in
    printed_lem max n c s e (decimal_digits-loop (suc n) n [] (omega arith)) k

-- A blank in front is skipped.
pub strtonum-blank : (max : ℕ) (s : Bytes) → strtonum max (b' ' ∷ s) ≡ strtonum max s
unfolding strtonum
strtonum-blank max s = refl

in_range_lem :
    (max v : ℕ) (negative : Bool) (t : ℕ × ℕ × Bytes) → in_range max negative t ≡ some v → v ≤ max
in_range_lem max v negative (w, n, []) h = ground arith
in_range_lem max v negative (w, n, c ∷ rest) h = ground arith

signed_digits_lem : (max v : ℕ) (s : Bytes) → signed_digits max s ≡ some v → v ≤ max
unfolding signed_digits
signed_digits_lem max v [] h = ground arith
signed_digits_lem max v (c ∷ s) h = elim (Bool-cases (c == b'-')) [
  | inl e ↦ in_range_lem max v true (decimal_digits 0 s) (rw e at h)
  | inr e ↦ in_range_lem max v false (decimal_digits 0 (if c == b'+' then s else c ∷ s)) (rw e at h)
]

-- What strtonum(3) gives is in range.
pub strtonum_lem : (max v : ℕ) (s : Bytes) → strtonum max s ≡ some v → v ≤ max
unfolding strtonum
strtonum_lem max v s h = signed_digits_lem max v (skip_blanks s) h
