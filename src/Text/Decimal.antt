-- ===== src/Text/Decimal.antt =====
-- `str(n)` of a number, and `int(s)`: white space around, a sign, and decimal digits with single
-- underscores between them. `none` is `ValueError`. Only ASCII digits are read, and the limit of
-- 4300 digits is left out.
use loglens_api.Base.{
  ℕ, zero, suc, ◌+◌, ◌-◌, ◌*◌, ◌/◌, ◌%◌, ◌≤◌, ◌≡◌, refl, Bool, true, false, ◌&&◌, Option, none,
  some, [], ◌∷◌, arith, leb, ◌==◌, if◌then◌else◌, All,
}
use loglens_api.Text.{Text, codes, is_space, strip}
use loglens_api.Text.Laws.{strip_of_All}

pub data ℤ : Type 0 where
  pos : ℕ → ℤ
  negsuc : ℕ → ℤ

abbrev negate : ℕ → ℤ
negate zero = pos 0
negate (suc n) = negsuc n

-- Digits from the last one; `n` rounds of division by ten are more than enough.
emit : ℕ → ℕ → Text → Text
emit zero n out = (b'0' + n % 10) ∷ out
emit (suc fuel) n out = elim (n / 10 == 0) [
  | true ↦ (b'0' + n % 10) ∷ out
  | false ↦ emit fuel (n / 10) ((b'0' + n % 10) ∷ out)
]

unfoldable pub str : ℕ → Text
unfolding emit
str n = emit n n []

abbrev is_digit : ℕ → Bool
is_digit c = leb b'0' c && leb c b'9'

-- One character: the value so far, and whether a digit was last.
abbrev scan_char : ℕ → ℕ → Bool → Option (ℕ × Bool)
scan_char c n after_digit =
    if is_digit c
    then some (n * 10 + (c - b'0'), true)
    else if c == b'_' && after_digit
    then some (n, false)
    else none

scan : Text → ℕ → Bool → Option ℕ
scan [] n after_digit = if after_digit then some n else none
scan (c ∷ s) n after_digit = elim (scan_char c n after_digit) [
  | none ↦ none
  | some (m, d) ↦ scan s m d
]

abbrev signed : (ℕ → ℤ) → Option ℕ → Option ℤ
signed f none = none
signed f (some n) = some (f n)

abbrev read_sign : Text → Option ℤ
unfolding scan
read_sign [] = none
read_sign (c ∷ s) =
    if c == b'-'
    then signed negate (scan s 0 false)
    else if c == b'+'
    then signed pos (scan s 0 false)
    else signed pos (scan (c ∷ s) 0 false)

unfoldable pub parse_int : Text → Option ℤ
unfolding read_sign scan strip
parse_int s = read_sign (strip s)

abbrev IsDigit : ℕ → Type 0
IsDigit c = (b'0' ≤ c) × (c ≤ b'9')

emit-All : (fuel n : ℕ) (out : Text) → All IsDigit out → All IsDigit (emit fuel n out)
unfolding emit
emit-All zero n out h = (omega arith, h)
emit-All (suc fuel) n out h =
    ground (arith, emit-All fuel (n / 10) ((b'0' + n % 10) ∷ out) (omega arith, h))

scan-emit : (fuel n : ℕ) (out : Text) → n ≤ fuel → scan (emit fuel n out) 0 false ≡ scan out n true
unfolding emit scan
scan-emit zero n out h = ground arith
scan-emit (suc fuel) n out h = ground (arith, scan-emit fuel (n / 10) ((b'0' + n % 10) ∷ out))

read_sign-scan :
    (s : Text) (n : ℕ) → All IsDigit s → scan s 0 false ≡ some n → read_sign s ≡ some (pos n)
unfolding scan read_sign
read_sign-scan [] n h e = cc
read_sign-scan (c ∷ s) n h e = ground arith

IsDigit-not_space : (c : ℕ) → IsDigit c → is_space c ≡ false
unfolding is_space
IsDigit-not_space c h = ground arith

-- `int(str(n)) == n`: the subject of a token is the id that was put in.
pub parse_int-str : (n : ℕ) → parse_int (str n) ≡ some (pos n)
unfolding parse_int str
parse_int-str n =
    rw (strip_of_All (emit n n []) IsDigit-not_space (emit-All n n [] tt))
      (read_sign-scan (emit n n []) n (emit-All n n [] tt) (scan-emit n n [] (omega arith)))

parses :
    (parse_int (codes " -1_000 ") ≡ some (negsuc 999))
    × (parse_int (codes "1__0") ≡ none)
    × (str 1050 ≡ codes "1050")
unfolding parse_int str is_space
parses = (refl, refl, refl)
