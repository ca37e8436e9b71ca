-- ===== src/Uuid/Version.antt =====
-- The shape of a random UUID.
use Prim.Native.Nat.{bit_and, bit_or}
use Prim.Native.Char.{code}
use Prim.Native.String.{String}
use rdpg_boshrelease.Base.{
  ℕ, zero, suc, ◌+◌, ◌%◌, ◌/◌, ◌≤◌, ◌<◌, ◌≡◌, refl, Bool, Bool-cases, inl, inr, true, ◌&&◌, ◌||◌,
  leb, eqb, List, [], ◌∷◌, ◌++◌, ◌∙◌, All, arith, if◌then◌else◌,
}
use rdpg_boshrelease.Uuid.{UuidBytes, new_uuid, hex_digit, hex, uuid_text}

-- Two functions on bytes that agree on every byte up to a bound, by evaluation.
abbrev agree : (ℕ → ℕ) → (ℕ → ℕ) → ℕ → Bool
agree f g zero = true
agree f g (suc bound) = eqb (f bound) (g bound) && agree f g bound

eq-of_agree :
    (f g : ℕ → ℕ) (bound : ℕ) → agree f g bound ≡ true → (byte : ℕ) → byte < bound → f byte ≡ g byte
eq-of_agree f g zero table byte small = absurd (omega arith)
eq-of_agree f g (suc bound) table byte small = elim (Bool-cases (eqb byte bound)) [
  | inl last ↦ ground (arith, table)
  | inr before ↦ eq-of_agree f g bound (ground arith) byte (ground arith)
]

version_byte : (x : ℕ) → x < 256 → bit_and (bit_or x 0x40) 0x4f ≡ 64 + x % 16
version_byte = eq-of_agree (λ x. bit_and (bit_or x 0x40) 0x4f) (λ x. 64 + x % 16) 256 refl

variant_byte : (x : ℕ) → x < 256 → bit_and (bit_or x 0x80) 0xbf ≡ 128 + x % 64
variant_byte = eq-of_agree (λ x. bit_and (bit_or x 0x80) 0xbf) (λ x. 128 + x % 64) 256 refl

abbrev pub is_hex : ℕ → Bool
is_hex c = (leb b'0' c && leb c b'9') || (leb b'a' c && leb c b'f')

-- whether each character is as the pattern says: 'x' for a hexadecimal digit, 'y' for one of 8, 9,
-- a and b, and any other for itself
abbrev pub fits : ℕ → ℕ → Bool
fits p c =
    if eqb p b'x'
    then is_hex c
    else if eqb p b'y'
    then is_hex c && (leb b'8' c && leb c b'b')
    else eqb p c

unfoldable pub matches : List ℕ → List ℕ → Bool
matches [] [] = true
matches [] (c ∷ s) = Bool.false
matches (p ∷ ps) [] = Bool.false
matches (p ∷ ps) (c ∷ s) = fits p c && matches ps s

abbrev pub codes : String → List ℕ
codes String.[] = []
codes (String.◌∷◌ c s) = code c ∷ codes s

is_hex-hex_digit : (n : ℕ) → n < 16 → is_hex (hex_digit n) ≡ true
is_hex-hex_digit n h = ground arith

-- a blank for each digit of some bytes
abbrev blanks : List ℕ → List ℕ → List ℕ
blanks [] ps = ps
blanks (b ∷ bs) ps = b'x' ∷ b'x' ∷ blanks bs ps

abbrev IsByte : ℕ → Type 0
IsByte b = b < 256

matches-hex :
    (bs ps s : List ℕ) → All IsByte bs → matches (blanks bs ps) (hex bs ++ s) ≡ matches ps s
unfolding matches
matches-hex [] ps s h = refl
matches-hex (b ∷ bs) ps s (hb, h) =
    rw (is_hex-hex_digit (b / 16) (omega arith), is_hex-hex_digit (b % 16) (omega arith))
      (matches-hex bs ps s h)

matches-version :
    (x : ℕ) (ps s : List ℕ)
    → IsByte x
    → matches (b'4' ∷ b'x' ∷ ps) (hex (bit_and (bit_or x 0x40) 0x4f ∷ []) ++ s) ≡ matches ps s
unfolding matches
matches-version x ps s h = rw (version_byte x h, high, is_hex-hex_digit _ low)
  where
    high : (64 + x % 16) / 16 ≡ 4
    high = omega arith

    low : (64 + x % 16) % 16 < 16
    low = omega arith

is_variant-hex_digit :
    (n : ℕ)
    → 8 ≤ n
    → n < 12
    → (is_hex (hex_digit n) && (leb b'8' (hex_digit n) && leb (hex_digit n) b'b')) ≡ true
is_variant-hex_digit n lo hi = ground arith

matches-variant :
    (x : ℕ) (ps s : List ℕ)
    → IsByte x
    → matches (b'y' ∷ b'x' ∷ ps) (hex (bit_and (bit_or x 0x80) 0xbf ∷ []) ++ s) ≡ matches ps s
unfolding matches
matches-variant x ps s h = rw (
  variant_byte x h,
  is_variant-hex_digit ((128 + x % 64) / 16) (omega arith) (omega arith),
  is_hex-hex_digit ((128 + x % 64) % 16) (omega arith),
)

-- The random bytes are bytes.
abbrev pub AreBytes : UuidBytes → Type 0
AreBytes u = All IsByte (
    u.b0 ∷ u.b1 ∷ u.b2 ∷ u.b3 ∷ u.b4 ∷ u.b5 ∷ u.b6 ∷ u.b7 ∷ u.b8 ∷ u.b9 ∷ u.b10 ∷ u.b11 ∷ u.b12
    ∷ u.b13 ∷ u.b14 ∷ u.b15 ∷ [])

-- The text of a new UUID has the form of version 4: 36 characters, which are lower-case
-- hexadecimal digits but for four dashes, with the version 4 and one of 8, 9, a and b for the
-- variant at their places. The random numbers are bytes.
pub new_uuid-matches :
    (u : UuidBytes)
    → AreBytes u
    → matches (codes "xxxxxxxx-xxxx-4xxx-yxxx-xxxxxxxxxxxx") (uuid_text (new_uuid u)) ≡ true
unfolding new_uuid uuid_text matches
new_uuid-matches u
      (
        h0,
        (
          h1,
          (
            h2,
            (h3, (h4, (h5, (h6, (h7, (h8, (h9, (h10, (h11, (h12, (h13, (h14, (h15, _))))))))))))),
          ),
        ),
      ) =
    let last = u.b10 ∷ u.b11 ∷ u.b12 ∷ u.b13 ∷ u.b14 ∷ u.b15 ∷ [] in
    let s9 = b'-' ∷ hex last in
    let s8 = hex (u.b9 ∷ []) ++ s9 in
    let s7 = b'-' ∷ (hex (bit_and (bit_or u.b8 0x80) 0xbf ∷ []) ++ s8) in
    let s6 = hex (u.b7 ∷ []) ++ s7 in
    let s5 = b'-' ∷ (hex (bit_and (bit_or u.b6 0x40) 0x4f ∷ []) ++ s6) in
    let s3 = b'-' ∷ (hex (u.b4 ∷ u.b5 ∷ []) ++ s5) in
    matches-hex (u.b0 ∷ u.b1 ∷ u.b2 ∷ u.b3 ∷ []) (codes "-xxxx-4xxx-yxxx-xxxxxxxxxxxx") s3
      (h0, (h1, (h2, (h3, tt))))
    ∙ matches-hex (u.b4 ∷ u.b5 ∷ []) (codes "-4xxx-yxxx-xxxxxxxxxxxx") s5 (h4, (h5, tt))
    ∙ matches-version u.b6 (codes "xx-yxxx-xxxxxxxxxxxx") s6 h6
    ∙ matches-hex (u.b7 ∷ []) (codes "-yxxx-xxxxxxxxxxxx") s7 (h7, tt)
    ∙ matches-variant u.b8 (codes "xx-xxxxxxxxxxxx") s8 h8
    ∙ matches-hex (u.b9 ∷ []) (codes "-xxxxxxxxxxxx") s9 (h9, tt)
    ∙ matches-hex last [] [] (h10, (h11, (h12, (h13, (h14, (h15, tt))))))
