-- ===== src/Base/Scan.antt =====
-- What the source's parsers use of std::string and std::istringstream: searches for a character or
-- a text, and numbers read by `>>` behind white space.
use Prim.Native.Nat.{ℕ, zero, suc, ◌+◌, ◌-◌, ◌*◌, ◌%◌, ◌^◌}
use mathlib.Core.Bool.{Bool, true, false, ◌&&◌, ◌||◌}
use mathlib.Core.Option.{Option, none, some}
use mathlib.Core.List.{List, [], ◌∷◌}
use seed_origin.Base.Tests.{ltb, leb, ◌==◌, if◌then◌else◌}
use seed_origin.Base.Int.{ℤ, pos, negsuc}

abbrev pub and_then {κ ℓ} : {A : Type κ} {B : Type ℓ} → Option A → (A → Option B) → Option B
and_then none next = none
and_then (some a) next = next a

-- `if (!b) return false;`
abbrev pub require_true : Bool → Option (Unit {0})
require_true true = some tt
require_true false = none

abbrev pub or_else {ℓ} : {A : Type ℓ} → Option A → Option A → Option A
or_else none later = later
or_else (some a) later = some a

abbrev pub behind : ℕ → Option (List ℕ × List ℕ) → Option (List ℕ × List ℕ)
behind b none = none
behind b (some (before, after)) = some (b ∷ before, after)

-- The text before the first `c` and the text behind it: `find(c)` and two calls of `substr`.
unfoldable pub split_at : ℕ → List ℕ → Option (List ℕ × List ℕ)
split_at c [] = none
split_at c (b ∷ bs) =
    let later = behind b (split_at c bs) in if b == c then some ([], bs) else later

-- `compare(0, prefix.size(), prefix) == 0`, with the text behind the prefix.
unfoldable pub strip_prefix : List ℕ → List ℕ → Option (List ℕ)
strip_prefix [] text = some text
strip_prefix (p ∷ ps) [] = none
strip_prefix (p ∷ ps) (b ∷ bs) = let later = strip_prefix ps bs in if p == b then later else none

-- The text behind the first place where `find(pattern)` finds the pattern.
unfoldable pub after_text : List ℕ → List ℕ → Option (List ℕ)
after_text pattern [] = strip_prefix pattern []
after_text pattern (b ∷ bs) = or_else (strip_prefix pattern (b ∷ bs)) (after_text pattern bs)

abbrev or_behind : Option (List ℕ) → Option (List ℕ × List ℕ) → Option (List ℕ × List ℕ)
or_behind none later = later
or_behind (some rest) later = some ([], rest)

-- The text before the first place where `find(pattern)` finds the pattern, and the text behind it.
unfoldable pub split_text : List ℕ → List ℕ → Option (List ℕ × List ℕ)
split_text pattern [] = or_behind (strip_prefix pattern []) none
split_text pattern (b ∷ bs) =
    or_behind (strip_prefix pattern (b ∷ bs)) (behind b (split_text pattern bs))

abbrev before_or_all : List ℕ → Option (List ℕ × List ℕ) → List ℕ
before_or_all text none = text
before_or_all text (some (before, after)) = before

-- The text before the first `c`, or all of it.
abbrev pub up_to : ℕ → List ℕ → List ℕ
up_to c text = before_or_all text (split_at c text)

-- `std::isspace` in the C locale.
abbrev pub is_space : ℕ → Bool
is_space c = c == 32 || leb 9 c && leb c 13

unfoldable pub skip_space : List ℕ → List ℕ
skip_space [] = []
skip_space (b ∷ bs) = let later = skip_space bs in if is_space b then later else b ∷ bs

-- Nothing but white space: no further token, and `>> std::ws` reaches the end.
abbrev pub is_blank : List ℕ → Bool
is_blank [] = true
is_blank (b ∷ bs) = is_space b && is_blank bs

abbrev pub is_digit : ℕ → Bool
is_digit c = leb b'0' c && leb c b'9'

-- The value of the digits at the front of a text that follow those of `value`, and what is behind.
unfoldable pub digits_from : ℕ → List ℕ → ℕ × List ℕ
digits_from value [] = (value, [])
digits_from value (b ∷ bs) =
    let later = digits_from (value * 10 + (b - b'0')) bs in
    if is_digit b then later else (value, b ∷ bs)

-- A number needs a digit.
unfoldable pub read_digits : List ℕ → Option (ℕ × List ℕ)
read_digits [] = none
read_digits (b ∷ bs) = if is_digit b then some (digits_from 0 (b ∷ bs)) else none

-- An optional sign, true where it is a minus.
abbrev pub read_sign : List ℕ → Bool × List ℕ
read_sign [] = (false, [])
read_sign (b ∷ bs) =
    if b == b'-' then (true, bs) else if b == b'+' then (false, bs) else (false, b ∷ bs)

abbrev unsigned_of : Bool → Option (ℕ × List ℕ) → Option (ℕ × List ℕ)
unsigned_of minus none = none
unsigned_of minus (some (v, rest)) =
    if leb (2 ^ 64) v then none else some (if minus then (2 ^ 64 - v) % 2 ^ 64 else v, rest)

-- `>>` into a `uint64_t`: a number that does not fit fails, a minus wraps.
unfoldable pub read_uint64 : List ℕ → Option (ℕ × List ℕ)
read_uint64 text =
    let (minus, digits) = read_sign (skip_space text) in unsigned_of minus (read_digits digits)

abbrev negated : ℕ → ℤ
negated zero = pos 0
negated (suc n) = negsuc n

abbrev signed_of : Bool → Option (ℕ × List ℕ) → Option (ℤ × List ℕ)
signed_of minus none = none
signed_of minus (some (v, rest)) =
    if minus
    then (if ltb (2 ^ 63) v then none else some (negated v, rest))
    else if leb (2 ^ 63) v
    then none
    else some (pos v, rest)

-- `>>` into an `int64_t`.
unfoldable pub read_int64 : List ℕ → Option (ℤ × List ℕ)
read_int64 text =
    let (minus, digits) = read_sign (skip_space text) in signed_of minus (read_digits digits)

-- `>>` into a `char`.
abbrev pub first_char : List ℕ → Option (ℕ × List ℕ)
first_char [] = none
first_char (b ∷ bs) = some (b, bs)

unfoldable pub read_char : List ℕ → Option (ℕ × List ℕ)
read_char text = first_char (skip_space text)
