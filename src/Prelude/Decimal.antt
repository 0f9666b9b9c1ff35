-- ===== src/Prelude/Decimal.antt =====
-- The decimal text of a number, as an f-string prints it, that it determines the number, and that
-- `int` and `split` read it back.
use Prim.Native.Char.{Char, code}
use Prim.Native.Nat.{ℕ, zero, suc, ◌+◌, ◌-◌, ◌*◌, ◌/◌, ◌%◌, ◌<◌}
use Prim.Native.String.{String, ◌++◌}
use Prim.Native.String.append.{nil as append_nil, cons as append_cons}
use mathlib.Core.Path.{◌≡◌, refl, sym, ap, ◌∙◌}
use mathlib.Core.Logic.{inl, inr}
use mathlib.Core.Bool.{Bool, true, false, ◌&&◌}
use mathlib.Core.Option.{Option, none, some}
use mathlib.Core.List.{List, [], ◌∷◌}
use native.Mathlib.Omega.{arith}
use vision_virtual_intellige.Prelude.Tests.{if◌then◌else◌, ltb, leb, nat_eq, Bool-cases}

-- The character of a digit below ten.
digit : ℕ → Char
digit zero = "0"
digit (suc zero) = "1"
digit (suc (suc zero)) = "2"
digit (suc (suc (suc zero))) = "3"
digit (suc (suc (suc (suc zero)))) = "4"
digit (suc (suc (suc (suc (suc zero))))) = "5"
digit (suc (suc (suc (suc (suc (suc zero)))))) = "6"
digit (suc (suc (suc (suc (suc (suc (suc zero))))))) = "7"
digit (suc (suc (suc (suc (suc (suc (suc (suc zero)))))))) = "8"
digit (suc (suc (suc (suc (suc (suc (suc (suc (suc n))))))))) = "9"

-- The digits of `n` before `out`. A number has at most as many digits as its value plus one.
emit : ℕ → ℕ → String → String
unfolding digit
emit zero n out = out
emit (suc fuel) n out =
    let rest = emit fuel (n / 10) (String.◌∷◌ (digit (n % 10)) out) in
    if ltb n 10 then String.◌∷◌ (digit n) out else rest

-- `str(n)`
unfoldable pub decimal : ℕ → String
unfolding emit
decimal n = emit (suc n) n String.[]

value : ℕ → String → ℕ
value acc String.[] = acc
value acc (String.◌∷◌ c s) = value (acc * 10 + (code c - b'0')) s

code-digit : (d : ℕ) → d < 10 → code (digit d) ≡ d + b'0'
unfolding digit
code-digit zero h = refl
code-digit (suc zero) h = refl
code-digit (suc (suc zero)) h = refl
code-digit (suc (suc (suc zero))) h = refl
code-digit (suc (suc (suc (suc zero)))) h = refl
code-digit (suc (suc (suc (suc (suc zero))))) h = refl
code-digit (suc (suc (suc (suc (suc (suc zero)))))) h = refl
code-digit (suc (suc (suc (suc (suc (suc (suc zero))))))) h = refl
code-digit (suc (suc (suc (suc (suc (suc (suc (suc zero)))))))) h = refl
code-digit (suc (suc (suc (suc (suc (suc (suc (suc (suc n))))))))) h = omega arith

value-emit : (fuel n : ℕ) (out : String) → n < fuel → value 0 (emit fuel n out) ≡ value n out
unfolding value emit
value-emit zero n out h = elim h [ ]
value-emit (suc fuel) n out h = elim (Bool-cases (ltb n 10)) [
  | inl small ↦ rw small (ap (λ m. value m out) (ground (arith, code-digit n)))
  | inr large ↦ rw large (
      value-emit fuel (n / 10) (String.◌∷◌ (digit (n % 10)) out) (ground arith)
      ∙ ap (λ m. value m out) (ground (arith, code-digit (n % 10))))
]

-- Two numbers with the same decimal text are equal.
pub decimal-injective : (a b : ℕ) → decimal a ≡ decimal b → a ≡ b
unfolding decimal value
decimal-injective a b h =
    sym (value-emit (suc a) a String.[] (omega arith))
    ∙ ap (value 0) h
    ∙ value-emit (suc b) b String.[] (omega arith)

abbrev pub is_digit_char : Char → Bool
is_digit_char c = leb b'0' (code c) && leb (code c) b'9'

unfoldable pub all_digits : String → Bool
all_digits String.[] = true
all_digits (String.◌∷◌ c s) = is_digit_char c && all_digits s

-- `int(s)`, for a text of the digits 0 to 9; `none` stands for ValueError. The signs, blanks and
-- underscores that `int` also takes are not read.
unfoldable pub parse_int : String → Option ℕ
unfolding all_digits value
parse_int String.[] = none
parse_int (String.◌∷◌ c s) =
    if all_digits (String.◌∷◌ c s) then some (value 0 (String.◌∷◌ c s)) else none

-- `s.split(".")`
unfoldable pub split_on_dot : String → List String
split_on_dot String.[] = String.[] ∷ []
split_on_dot (String.◌∷◌ c s) = elim (split_on_dot s) [
  | [] ↦ []
  | part ∷ parts ↦
      if nat_eq (code c) b'.' then String.[] ∷ part ∷ parts else (String.◌∷◌ c part) ∷ parts
]

is_digit_char-digit : (d : ℕ) → d < 10 → is_digit_char (digit d) ≡ true
is_digit_char-digit d h = ground (arith, code-digit d h)

all_digits-emit :
    (fuel n : ℕ) (out : String) → all_digits out ≡ true → all_digits (emit fuel n out) ≡ true
unfolding all_digits emit
all_digits-emit zero n out h = h
all_digits-emit (suc fuel) n out h = elim (Bool-cases (ltb n 10)) [
  | inl small ↦ rw small (ground (arith, is_digit_char-digit n))
  | inr large ↦ rw large (
      all_digits-emit fuel (n / 10) (String.◌∷◌ (digit (n % 10)) out)
        (ground (arith, is_digit_char-digit (n % 10))))
]

pub all_digits-decimal : (n : ℕ) → all_digits (decimal n) ≡ true
unfolding decimal all_digits
all_digits-decimal n = all_digits-emit (suc n) n String.[] refl

has_first : String → Bool
has_first String.[] = false
has_first (String.◌∷◌ c s) = true

has_first-emit :
    (fuel n : ℕ) (out : String) → has_first out ≡ true → has_first (emit fuel n out) ≡ true
unfolding has_first emit
has_first-emit zero n out h = h
has_first-emit (suc fuel) n out h = elim (Bool-cases (ltb n 10)) [
  | inl small ↦ rw small refl
  | inr large ↦ rw large (has_first-emit fuel (n / 10) (String.◌∷◌ (digit (n % 10)) out) refl)
]

has_first-decimal : (n : ℕ) → has_first (decimal n) ≡ true
unfolding decimal has_first emit
has_first-decimal n = elim (Bool-cases (ltb n 10)) [
  | inl small ↦ rw small refl
  | inr large ↦ rw large (has_first-emit n (n / 10) (String.◌∷◌ (digit (n % 10)) String.[]) refl)
]

parse_int-value :
    (s : String) → has_first s ≡ true → all_digits s ≡ true → parse_int s ≡ some (value 0 s)
unfolding has_first parse_int
parse_int-value String.[] h d = cc
parse_int-value (String.◌∷◌ c s) h d = rw d refl

-- `int(str(n))` is `n`.
pub parse_int-decimal : (n : ℕ) → parse_int (decimal n) ≡ some n
unfolding decimal value
parse_int-decimal n =
    parse_int-value (decimal n) (has_first-decimal n) (all_digits-decimal n)
    ∙ ap some (value-emit (suc n) n String.[] (omega arith))

-- Digits before a dot are the first part.
pub split_on_dot-append :
    (s t : String) (part : String) (parts : List String)
    → all_digits s ≡ true
    → split_on_dot t ≡ part ∷ parts
    → split_on_dot (s ++ String.◌∷◌ "." t) ≡ s ∷ part ∷ parts
unfolding split_on_dot all_digits
split_on_dot-append String.[] t part parts d e =
    let first : split_on_dot (String.◌∷◌ "." t) ≡ String.[] ∷ part ∷ parts = rw e refl in
    ap split_on_dot (append_nil (String.◌∷◌ "." t)) ∙ first
split_on_dot-append (String.◌∷◌ c s) t part parts d e =
    let rest = split_on_dot-append s t part parts (ground arith) e in
    let all : split_on_dot (String.◌∷◌ c (s ++ String.◌∷◌ "." t)) ≡ String.◌∷◌ c s ∷ part ∷ parts =
      ground (arith, rest) in
    ap split_on_dot (append_cons c s (String.◌∷◌ "." t)) ∙ all

pub split_on_dot-digits : (s : String) → all_digits s ≡ true → split_on_dot s ≡ s ∷ []
unfolding split_on_dot all_digits
split_on_dot-digits String.[] d = refl
split_on_dot-digits (String.◌∷◌ c s) d =
    let rest = split_on_dot-digits s (ground arith) in ground (arith, rest)
