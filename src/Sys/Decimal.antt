-- ===== src/Sys/Decimal.antt =====
-- The conversion `%d` of snprintf and the function atoi, on the bytes of a text before its final NUL,
-- as the C standard has them. No file of the repository is modelled here.
use simulazione_transazioni.Prelude.{
  ℕ, zero, suc, ◌+◌, ◌-◌, ◌*◌, ◌/◌, ◌%◌, ◌^◌, ◌≤◌, ◌<◌, ◌≡◌, refl, ap, ◌∙◌, ◌==◌, Bool, true, false,
  ◌&&◌, ◌||◌, List, [], ◌∷◌, ◌++◌, if◌then◌else◌, ltb, leb, take, take_short, length, length-append,
  All, All-snoc, arith, Bool-cases, inl, inr,
}
use simulazione_transazioni.Prelude.Int.{ℤ, pos, negsuc, pos_part, neg_part}

-- The digits of a number, at most `fuel` of them.
unfoldable pub digits : ℕ → ℕ → List ℕ
digits zero n = []
digits (suc fuel) n =
    let more = digits fuel (n / 10) in
    if ltb n 10 then (b'0' + n) ∷ [] else more ++ (b'0' + n % 10) ∷ []

-- An `int` has at most ten digits.
unfoldable pub decimal : ℤ → List ℕ
decimal (pos n) = digits 10 n
decimal (negsuc n) = b'-' ∷ digits 10 (suc n)

-- `snprintf(buffer, size, "%d", i)`
unfoldable pub snprintf_int : ℕ → ℤ → List ℕ
snprintf_int size i = take (size - 1) (decimal i)

unfoldable pub is_digit : ℕ → Bool
is_digit c = leb b'0' c && leb c b'9'

unfoldable pub atoi_digits : ℕ → List ℕ → ℕ
unfolding is_digit
atoi_digits acc [] = acc
atoi_digits acc (c ∷ cs) =
    let rest = atoi_digits (acc * 10 + (c - b'0')) cs in if is_digit c then rest else acc

unfoldable pub atoi_signed : List ℕ → ℤ
atoi_signed [] = pos 0
atoi_signed (c ∷ cs) =
    if c == b'-'
    then elim (atoi_digits 0 cs) [ zero ↦ pos 0 | suc n ↦ negsuc n ]
    else if c == b'+'
    then pos (atoi_digits 0 cs)
    else pos (atoi_digits 0 (c ∷ cs))

unfoldable pub is_space : ℕ → Bool
is_space c = (c == b' ') || (leb 9 c && leb c 13)

-- White space in front is skipped.
unfoldable pub atoi : List ℕ → ℤ
unfolding atoi_signed is_space
atoi [] = pos 0
atoi (c ∷ cs) = let rest = atoi cs in if is_space c then rest else atoi_signed (c ∷ cs)

abbrev IsDigit : ℕ → Type 0
IsDigit c = is_digit c ≡ true

atoi_digits-append :
    (a : ℕ) (xs ys : List ℕ)
    → All IsDigit xs
    → atoi_digits a (xs ++ ys) ≡ atoi_digits (atoi_digits a xs) ys
unfolding atoi_digits
atoi_digits-append a [] ys h = refl
atoi_digits-append a (x ∷ xs) ys h =
    rw (atoi_digits, h.0) (atoi_digits-append (a * 10 + (x - b'0')) xs ys h.1)

digit_lem : (d : ℕ) → d < 10 → IsDigit (b'0' + d)
unfolding is_digit
digit_lem d h = ground arith

digits-IsDigit : (fuel n : ℕ) → All IsDigit (digits fuel n)
unfolding digits
digits-IsDigit zero n = tt
digits-IsDigit (suc fuel) n = elim (Bool-cases (ltb n 10)) [
  | inl small ↦ rw small (digit_lem n (ground arith), tt)
  | inr large ↦ rw large (
      All-snoc IsDigit (digits fuel (n / 10)) (b'0' + n % 10) (digits-IsDigit fuel (n / 10))
        (digit_lem (n % 10) (omega arith)))
]

atoi_digits-one : (a d : ℕ) → d < 10 → atoi_digits a ((b'0' + d) ∷ []) ≡ a * 10 + d
unfolding atoi_digits
atoi_digits-one a d h = rw (atoi_digits, digit_lem d h) (omega arith)

-- The numbers of at most `k` digits are below it.
abbrev pow10 : ℕ → ℕ
pow10 zero = 1
pow10 (suc k) = 10 * pow10 k

-- Reading the digits gives the number, when there are enough of them.
atoi_digits-digits : (fuel n : ℕ) → n < pow10 fuel → atoi_digits 0 (digits fuel n) ≡ n
unfolding digits
atoi_digits-digits zero n h = unfold atoi_digits in omega arith
atoi_digits-digits (suc fuel) n h = elim (Bool-cases (ltb n 10)) [
  | inl small ↦ rw small (atoi_digits-one 0 n (ground arith) ∙ omega arith)
  | inr large ↦
      let ih = atoi_digits-digits fuel (n / 10) (omega arith) in
      rw large (
        atoi_digits-append 0 (digits fuel (n / 10)) ((b'0' + n % 10) ∷ [])
          (digits-IsDigit fuel (n / 10))
        ∙ atoi_digits-one (atoi_digits 0 (digits fuel (n / 10))) (n % 10) (omega arith)
        ∙ omega (arith, ih))
]

length-digits : (fuel n : ℕ) → length (digits fuel n) ≤ fuel
unfolding digits
length-digits zero n = omega arith
length-digits (suc fuel) n = elim (Bool-cases (ltb n 10)) [
  | inl small ↦ rw small (omega arith)
  | inr large ↦ rw large (
      omega (
        arith,
        length-append (digits fuel (n / 10)) ((b'0' + n % 10) ∷ []),
        length-digits fuel (n / 10),
      ))
]

-- Digits are read as a number with no sign.
atoi-IsDigit : (cs : List ℕ) → All IsDigit cs → atoi cs ≡ pos (atoi_digits 0 cs)
unfolding atoi is_digit
atoi-IsDigit [] h = unfold atoi_digits in refl
atoi-IsDigit (c ∷ cs) h =
    let no_space : is_space c ≡ false = ground (arith, h.0) in
    let no_minus : (c == b'-') ≡ false = ground (arith, h.0) in
    let no_plus : (c == b'+') ≡ false = ground (arith, h.0) in
    rw (atoi, no_space, no_minus, no_plus) refl

atoi-minus : (cs : List ℕ) (n : ℕ) → atoi_digits 0 cs ≡ suc n → atoi (b'-' ∷ cs) ≡ negsuc n
unfolding atoi
atoi-minus cs n e = rw e refl

length-decimal : (i : ℤ) → length (decimal i) ≤ 11
unfolding decimal
length-decimal (pos n) = omega (arith, length-digits 10 n)
length-decimal (negsuc n) = omega (arith, length-digits 10 (suc n))

atoi-decimal : (i : ℤ) → pos_part i < pow10 10 → neg_part i < pow10 10 → atoi (decimal i) ≡ i
unfolding decimal
atoi-decimal (pos n) h k =
    atoi-IsDigit (digits 10 n) (digits-IsDigit 10 n) ∙ ap pos (atoi_digits-digits 10 n h)
atoi-decimal (negsuc n) h k = atoi-minus (digits 10 (suc n)) n (atoi_digits-digits 10 (suc n) k)

-- A text that snprintf writes to a buffer of 13 bytes is read by atoi as the number that was written,
-- and fits the buffer with its NUL.
pub atoi-snprintf_int :
    (i : ℤ)
    → pos_part i < 2 ^ 31
    → neg_part i ≤ 2 ^ 31
    → (atoi (snprintf_int 13 i) ≡ i) × (length (snprintf_int 13 i) < 13)
unfolding snprintf_int
atoi-snprintf_int i h k =
    let whole : snprintf_int 13 i ≡ decimal i =
      take_short 12 (decimal i) (omega (arith, length-decimal i)) in
    rw whole (atoi-decimal i (omega arith) (omega arith), omega (arith, length-decimal i))
