-- ===== src/Uuid.antt =====
-- uuid/uuid.go: random UUIDs. A Go string is its bytes here.
pub mod Version
use Prim.Native.Nat.{bit_and, bit_or}
use rdpg_boshrelease.Base.{ℕ, ◌+◌, ◌-◌, ◌/◌, ◌%◌, List, [], ◌∷◌, ◌++◌, ltb, if◌then◌else◌}

-- `UUID [16]byte`
pub record UuidBytes : Type 0 where
  pub b0 : ℕ
  pub b1 : ℕ
  pub b2 : ℕ
  pub b3 : ℕ
  pub b4 : ℕ
  pub b5 : ℕ
  pub b6 : ℕ
  pub b7 : ℕ
  pub b8 : ℕ
  pub b9 : ℕ
  pub b10 : ℕ
  pub b11 : ℕ
  pub b12 : ℕ
  pub b13 : ℕ
  pub b14 : ℕ
  pub b15 : ℕ

-- `NewUUID()`, of the bytes that crypto/rand gives
unfoldable pub new_uuid : UuidBytes → UuidBytes
new_uuid random = record random {
  b8 = bit_and (bit_or random.b8 0x80) 0xbf;
  b6 = bit_and (bit_or random.b6 0x40) 0x4f;
}

abbrev pub hex_digit : ℕ → ℕ
hex_digit n = if ltb n 10 then n + b'0' else n - 10 + b'a'

-- `%x` of bytes
abbrev pub hex : List ℕ → List ℕ
hex [] = []
hex (b ∷ bs) = hex_digit (b / 16) ∷ hex_digit (b % 16) ∷ hex bs

-- `u.String()`
unfoldable pub uuid_text : UuidBytes → List ℕ
uuid_text u =
    hex (u.b0 ∷ u.b1 ∷ u.b2 ∷ u.b3 ∷ [])
    ++ (b'-'
        ∷ (hex (u.b4 ∷ u.b5 ∷ [])
            ++ (b'-'
                ∷ (hex (u.b6 ∷ u.b7 ∷ [])
                    ++ (b'-'
                        ∷ (hex (u.b8 ∷ u.b9 ∷ [])
                            ++ (b'-'
                                ∷ hex (u.b10 ∷ u.b11 ∷ u.b12 ∷ u.b13 ∷ u.b14 ∷ u.b15 ∷ []))))))))
