-- ===== src/Base/Text.antt =====
-- The string functions of Go's standard library that the daemon calls.
use Prim.Native.Nat.{ℕ, zero, suc, ◌+◌, ◌*◌, ◌-◌, ◌/◌, ◌%◌}
use Prim.Native.Char.{Char, code}
use Prim.Native.String.{String, ◌++◌}
use mathlib.Core.Bool.{Bool, ◌||◌, ◌&&◌}
use mathlib.Core.Option.{Option, none, some}
use mathlib.Core.List.{List, [], ◌∷◌}
use text.Mathlib.Text.{find?}
use rdpg_boshrelease.Base.Tests.{leb, eqb, is_set, if◌then◌else◌}

-- `strings.Contains`
abbrev pub contains : String → String → Bool
contains s t = is_set (find? s t)

nth_char : String → ℕ → Char
nth_char String.[] n = "?"
nth_char (String.◌∷◌ c s) zero = c
nth_char (String.◌∷◌ c s) (suc n) = nth_char s n

pub is_upper : Char → Bool
is_upper c = leb b'A' (code c) && leb (code c) b'Z'

pub lower_char : Char → Char
unfolding nth_char is_upper
lower_char c = if is_upper c then nth_char "abcdefghijklmnopqrstuvwxyz" (code c - b'A') else c

-- `strings.ToLower`, and SQL's `lower`, on ASCII text
unfoldable pub to_lower : String → String
unfolding lower_char
to_lower String.[] = ""
to_lower (String.◌∷◌ c s) = String.◌∷◌ (lower_char c) (to_lower s)

-- `strings.Split` at a single character. The result is never empty.
abbrev pub push_char : Char → List String → List String
push_char c [] = String.◌∷◌ c "" ∷ []
push_char c (w ∷ ws) = String.◌∷◌ c w ∷ ws

unfoldable pub split : ℕ → String → List String
split sep String.[] = "" ∷ []
split sep (String.◌∷◌ c s) =
    let rest = split sep s in if eqb (code c) sep then "" ∷ rest else push_char c rest

-- `strings.SplitN` with n = 2
unfoldable pub split_two : ℕ → String → List String
split_two sep String.[] = "" ∷ []
split_two sep (String.◌∷◌ c s) =
    let rest = split_two sep s in if eqb (code c) sep then "" ∷ s ∷ [] else push_char c rest

-- `strings.Join`
unfoldable pub join : String → List String → String
join sep [] = ""
join sep (w ∷ []) = w
join sep (w ∷ v ∷ ws) = w ++ sep ++ join sep (v ∷ ws)

-- `%d` of a number that is not negative
decimal_digits : ℕ → ℕ → String
decimal_digits zero n = ""
decimal_digits (suc fuel) n =
    let higher = decimal_digits fuel (n / 10) in
    let last = String.◌∷◌ (nth_char "0123456789" (n % 10)) "" in
    if eqb (n / 10) 0 then last else higher ++ last

-- Each round takes a digit, so `n + 1` rounds are enough.
unfoldable pub decimal : ℕ → String
unfolding decimal_digits nth_char
decimal n = decimal_digits (suc n) n

-- `re.ReplaceAll([]byte(s), []byte(""))` with the expression `[^A-Za-z0-9_]`
abbrev pub is_word_char : Char → Bool
is_word_char c =
    (leb b'A' (code c) && leb (code c) b'Z')
    || ((leb b'a' (code c) && leb (code c) b'z')
        || ((leb b'0' (code c) && leb (code c) b'9') || eqb (code c) b'_'))

unfoldable pub word_chars : String → String
word_chars String.[] = ""
word_chars (String.◌∷◌ c s) =
    let rest = word_chars s in if is_word_char c then String.◌∷◌ c rest else rest

-- `strconv.Atoi`; a negative number is read as 0.
read_digits : ℕ → String → Option ℕ
read_digits n String.[] = some n
read_digits n (String.◌∷◌ c s) =
    if leb b'0' (code c) && leb (code c) b'9'
    then read_digits (10 * n + (code c - b'0')) s
    else none

read_sign : Char → String → Option ℕ
unfolding read_digits
read_sign c String.[] = read_digits 0 (String.◌∷◌ c "")
read_sign c (String.◌∷◌ d s) =
    if eqb (code c) b'-'
    then zero_if_read (read_digits 0 (String.◌∷◌ d s))
    else if eqb (code c) b'+'
    then read_digits 0 (String.◌∷◌ d s)
    else read_digits 0 (String.◌∷◌ c (String.◌∷◌ d s))
  where
    zero_if_read : Option ℕ → Option ℕ
    zero_if_read none = none
    zero_if_read (some n) = some 0

unfoldable pub atoi : String → Option ℕ
unfolding read_sign
atoi String.[] = none
atoi (String.◌∷◌ c s) = read_sign c s
