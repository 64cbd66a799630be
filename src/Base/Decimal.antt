-- ===== src/Base/Decimal.antt =====
-- Decimal numerals: what fmt prints for %d, and strconv.Atoi.
use Prim.Native.Nat.{ℕ, zero, suc, ◌+◌, ◌-◌, ◌*◌, ◌/◌, ◌%◌, ◌<◌}
use mathlib.Core.Path.{sym, ap, ◌∙◌, ◌≡◌, refl}
use mathlib.Core.Logic.{◌≢◌, inl, inr}
use mathlib.Core.Bool.{Bool, true, ◌&&◌}
use mathlib.Core.List.{[], ◌∷◌, ◌++◌}
use mathlib.Core.Option.{Option, none, some}
use native.Mathlib.Omega.{arith}
use my_queue.Base.Tests.{ltb, leb, ◌==◌, if◌then◌else◌, Bool-cases}
use my_queue.Base.Lists.{All}
use my_queue.Base.Int.{ℤ, pos, negsuc}
use my_queue.Base.Strings.{Str}

abbrev pub is_digit : ℕ → Bool
is_digit c = leb 48 c && leb c 57

-- The fuel is above the number, so the last digit is always reached.
digits : ℕ → ℕ → Str
digits zero n = []
digits (suc fuel) n =
    let front = digits fuel (n / 10) in
    if ltb n 10 then (48 + n) ∷ [] else front ++ (48 + n % 10) ∷ []

-- fmt.Sprintf("%d", n)
unfoldable pub decimal : ℕ → Str
unfolding digits
decimal n = digits (suc n) n

unfoldable pub decimal_ℤ : ℤ → Str
unfolding decimal
decimal_ℤ (pos n) = decimal n
decimal_ℤ (negsuc n) = b'-' ∷ decimal (suc n)

parse_digits : ℕ → Str → Option ℕ
parse_digits acc [] = some acc
parse_digits acc (c ∷ cs) =
    let rest = parse_digits (acc * 10 + (c - 48)) cs in if is_digit c then rest else none

-- A numeral has at least one digit.
parse_ℕ : Str → Option ℕ
unfolding parse_digits
parse_ℕ [] = none
parse_ℕ (c ∷ cs) = parse_digits 0 (c ∷ cs)

signed : Option ℕ → Option ℤ
signed none = none
signed (some n) = if ltb n 9223372036854775808 then some (pos n) else none

negated : Option ℕ → Option ℤ
negated none = none
negated (some zero) = some (pos 0)
negated (some (suc n)) = if ltb n 9223372036854775808 then some (negsuc n) else none

-- strconv.Atoi: an optional sign, then digits; an error outside of int64.
unfoldable pub atoi : Str → Option ℤ
unfolding parse_ℕ signed negated
atoi [] = none
atoi (c ∷ cs) =
    if c == b'-'
    then negated (parse_ℕ cs)
    else if c == b'+'
    then signed (parse_ℕ cs)
    else signed (parse_ℕ (c ∷ cs))

snoc : Option ℕ → ℕ → Option ℕ
snoc none c = none
snoc (some v) c = if is_digit c then some (v * 10 + (c - 48)) else none

parse_digits-snoc :
    (acc : ℕ) (cs : Str) (c : ℕ) → parse_digits acc (cs ++ c ∷ []) ≡ snoc (parse_digits acc cs) c
unfolding parse_digits snoc
parse_digits-snoc acc [] c = ground arith
parse_digits-snoc acc (d ∷ cs) c = ground (arith, parse_digits-snoc (acc * 10 + (d - 48)) cs c)

parse-digits : (fuel n : ℕ) → n < fuel → parse_digits 0 (digits fuel n) ≡ some n
unfolding digits parse_digits snoc
parse-digits zero n h = absurd (omega arith)
parse-digits (suc fuel) n h =
    ground
      (arith, parse-digits fuel (n / 10), parse_digits-snoc 0 (digits fuel (n / 10)) (48 + n % 10))

-- A printed numeral begins with a digit, and holds only digits.
abbrev pub AllDigits : Str → Type 0
AllDigits = All (λ c. is_digit c ≡ true)

digits-AllDigits : (fuel n : ℕ) → AllDigits (digits fuel n)
unfolding digits
digits-AllDigits zero n = tt
digits-AllDigits (suc fuel) n = elim (Bool-cases (ltb n 10)) [
  | inl h ↦ rw h (ground arith, tt)
  | inr h ↦ rw h (
      All-snoc (digits fuel (n / 10)) (48 + n % 10) (digits-AllDigits fuel (n / 10)) (ground arith))
]
  where
    All-snoc : (cs : Str) (c : ℕ) → AllDigits cs → is_digit c ≡ true → AllDigits (cs ++ c ∷ [])
    All-snoc [] c a h = (h, tt)
    All-snoc (d ∷ cs) c a h = (a.0, All-snoc cs c a.1 h)

pub decimal-AllDigits : (n : ℕ) → AllDigits (decimal n)
unfolding decimal
decimal-AllDigits n = digits-AllDigits (suc n) n

pub decimal_ℤ-AllDigits : (n : ℕ) → AllDigits (decimal_ℤ (pos n))
unfolding decimal_ℤ
decimal_ℤ-AllDigits n = decimal-AllDigits n

digits-ne-nil : (fuel n : ℕ) → digits (suc fuel) n ≢ []
unfolding digits
digits-ne-nil fuel n = elim (Bool-cases (ltb n 10)) [
  | inl h ↦ rw h (λ e. cc)
  | inr h ↦ rw h (snoc-ne-nil (digits fuel (n / 10)) _)
]
  where
    snoc-ne-nil : (cs : Str) (c : ℕ) → (cs ++ c ∷ []) ≢ []
    snoc-ne-nil [] c e = cc
    snoc-ne-nil (d ∷ cs) c e = cc

parse_ℕ-decimal : (n : ℕ) → parse_ℕ (decimal n) ≡ some n
unfolding parse_ℕ decimal
parse_ℕ-decimal n =
    of_ne_nil (digits (suc n) n) (digits-ne-nil n n) (parse-digits (suc n) n (omega arith))
  where
    of_ne_nil : (cs : Str) → cs ≢ [] → parse_digits 0 cs ≡ some n → parse_ℕ cs ≡ some n
    of_ne_nil [] h p = absurd (h refl)
    of_ne_nil (c ∷ cs) h p = p

atoi-AllDigits : (cs : Str) → AllDigits cs → atoi cs ≡ signed (parse_ℕ cs)
unfolding atoi
atoi-AllDigits [] a = refl
atoi-AllDigits (c ∷ cs) a = ground arith

-- The bounds of Go's int on a 64-bit machine.
abbrev pub IsInt64 : ℤ → Type 0
IsInt64 (pos n) = n < 9223372036854775808
IsInt64 (negsuc n) = n < 9223372036854775808

-- Atoi reads back what %d prints.
pub atoi-decimal_ℤ : (z : ℤ) → IsInt64 z → atoi (decimal_ℤ z) ≡ some z
unfolding decimal_ℤ
atoi-decimal_ℤ (pos n) h =
    rw (atoi-AllDigits (decimal n) (decimal-AllDigits n), parse_ℕ-decimal n)
      (unfold signed in ground arith)
atoi-decimal_ℤ (negsuc n) h =
    unfold atoi in rw (parse_ℕ-decimal (suc n)) (unfold negated in ground arith)

-- Numerals of different numbers differ.
pub decimal-injective : (m n : ℕ) → decimal m ≡ decimal n → m ≡ n
decimal-injective m n e =
    let same : some m ≡ some n = sym (parse_ℕ-decimal m) ∙ ap parse_ℕ e ∙ parse_ℕ-decimal n in cc
