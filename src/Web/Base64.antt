-- ===== src/Web/Base64.antt =====
-- Go's `base64.StdEncoding`, on texts as lists of bytes.
use rdpg_boshrelease.Base.{
  ℕ, ◌+◌, ◌-◌, ◌*◌, ◌/◌, ◌%◌, ◌<◌, Bool, ◌||◌, not, Option, none, some, List, [], ◌∷◌, eqb, ltb,
  leb, ◌&&◌, select, if◌then◌else◌,
}

-- a Go string: its bytes
abbrev pub Bytes : Type 0
Bytes = List ℕ

abbrev pub IsByte : ℕ → Type 0
IsByte b = b < 256

-- the character of a group of six bits
unfoldable pub digit : ℕ → ℕ
digit n =
    if ltb n 26
    then n + b'A'
    else if ltb n 52
    then n - 26 + b'a'
    else if ltb n 62
    then n - 52 + b'0'
    else if eqb n 62
    then b'+'
    else b'/'

unfoldable pub digit_value : ℕ → Option ℕ
digit_value c =
    if leb b'A' c && leb c b'Z'
    then some (c - b'A')
    else if leb b'a' c && leb c b'z'
    then some (c - b'a' + 26)
    else if leb b'0' c && leb c b'9'
    then some (c - b'0' + 52)
    else if eqb c b'+'
    then some 62
    else if eqb c b'/'
    then some 63
    else none

-- `EncodeToString`
unfoldable pub encode : Bytes → Bytes
encode [] = []
encode (a ∷ []) = digit (a / 4) ∷ digit (a % 4 * 16) ∷ b'=' ∷ b'=' ∷ []
encode (a ∷ b ∷ []) = digit (a / 4) ∷ digit (a % 4 * 16 + b / 16) ∷ digit (b % 16 * 4) ∷ b'=' ∷ []
encode (a ∷ b ∷ c ∷ rest) =
    digit (a / 4)
    ∷ digit (a % 4 * 16 + b / 16)
    ∷ digit (b % 16 * 4 + c / 64)
    ∷ digit (c % 64)
    ∷ encode rest

module _ {A B : Type 0} where
  abbrev pub given : Option A → (A → Option B) → Option B
  given none f = none
  given (some a) f = f a

-- the last group, which may be filled up with '='
abbrev pub last_one : ℕ → ℕ → Option Bytes
last_one p q = given (digit_value p) λ x. given (digit_value q) λ y. some ((x * 4 + y / 16) ∷ [])

abbrev pub last_two : ℕ → ℕ → ℕ → Option Bytes
last_two p q r = given (digit_value p) λ x.
    given (digit_value q)
      λ y. given (digit_value r) λ z. some ((x * 4 + y / 16) ∷ (y % 16 * 16 + z / 4) ∷ [])

abbrev pub group_of_three : ℕ → ℕ → ℕ → ℕ → Option Bytes → Option Bytes
group_of_three p q r s rest = given (digit_value p) λ x. given (digit_value q) λ y.
    given (digit_value r) λ z. given (digit_value s) λ v.
      given rest λ bytes. some ((x * 4 + y / 16) ∷ (y % 16 * 16 + z / 4) ∷ (z % 4 * 64 + v) ∷ bytes)

abbrev pub last_group : ℕ → ℕ → ℕ → ℕ → Option Bytes
last_group p q r s =
    if eqb s b'='
    then (if eqb r b'=' then last_one p q else last_two p q r)
    else group_of_three p q r s (some [])

unfoldable pub decode_groups : Bytes → Option Bytes
decode_groups [] = some []
decode_groups (p ∷ []) = none
decode_groups (p ∷ q ∷ []) = none
decode_groups (p ∷ q ∷ r ∷ []) = none
decode_groups (p ∷ q ∷ r ∷ s ∷ []) = last_group p q r s
decode_groups (p ∷ q ∷ r ∷ s ∷ t ∷ rest) = group_of_three p q r s (decode_groups (t ∷ rest))

abbrev pub is_break : ℕ → Bool
is_break c = eqb c b'\n' || eqb c b'\r'

-- `DecodeString`, which leaves out line breaks; `none` is its error.
unfoldable pub decode : Bytes → Option Bytes
decode s = decode_groups (select (λ c. not (is_break c)) s)
