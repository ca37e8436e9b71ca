-- ===== src/Web/Decoding.antt =====
-- `DecodeString` undoes `EncodeToString`.
use rdpg_boshrelease.Base.{
  ℕ, ◌+◌, ◌*◌, ◌/◌, ◌%◌, ◌<◌, ◌≡◌, refl, ap, ◌∙◌, false, true, some, [], ◌∷◌, eqb, not, select, All,
  arith,
}
use rdpg_boshrelease.Web.Base64.{
  Bytes, IsByte, digit, digit_value, encode, group_of_three, last_one, last_two, decode_groups,
  is_break, decode,
}

digit_value-digit : (n : ℕ) → n < 64 → digit_value (digit n) ≡ some n
unfolding digit digit_value
digit_value-digit n h = ground arith

digit-ne_fill : (n : ℕ) → n < 64 → eqb (digit n) b'=' ≡ false
unfolding digit
digit-ne_fill n h = ground arith

digit-ne_break : (n : ℕ) → n < 64 → not (is_break (digit n)) ≡ true
unfolding digit
digit-ne_break n h = ground arith

-- A group that is not filled up goes before any others.
decode_groups-full :
    (p q r s : ℕ) (xs : Bytes)
    → eqb s b'=' ≡ false
    → decode_groups (p ∷ q ∷ r ∷ s ∷ xs) ≡ group_of_three p q r s (decode_groups xs)
unfolding decode_groups
decode_groups-full p q r s [] e = rw e
decode_groups-full p q r s (x ∷ xs) e = refl

last_one-digit : (a : ℕ) → IsByte a → last_one (digit (a / 4)) (digit (a % 4 * 16)) ≡ some (a ∷ [])
last_one-digit a h =
    rw (digit_value-digit (a / 4) (omega arith), digit_value-digit (a % 4 * 16) (omega arith))
      (ap (λ n. some (n ∷ [])) (omega arith))

last_two-digit :
    (a b : ℕ)
    → IsByte a
    → IsByte b
    → last_two (digit (a / 4)) (digit (a % 4 * 16 + b / 16)) (digit (b % 16 * 4))
      ≡ some (a ∷ b ∷ [])
last_two-digit a b ha hb =
    rw
      (
        digit_value-digit (a / 4) (omega arith),
        digit_value-digit (a % 4 * 16 + b / 16) (omega arith),
        digit_value-digit (b % 16 * 4) (omega arith),
      )
      (cc (first_byte, second_byte))
  where
    first_byte : a / 4 * 4 + (a % 4 * 16 + b / 16) / 16 ≡ a
    first_byte = omega arith

    second_byte : (a % 4 * 16 + b / 16) % 16 * 16 + b % 16 * 4 / 4 ≡ b
    second_byte = omega arith

group_of_three-digit :
    (a b c : ℕ) (rest : Bytes)
    → IsByte a
    → IsByte b
    → IsByte c
    → group_of_three
        (digit (a / 4))
        (digit (a % 4 * 16 + b / 16))
        (digit (b % 16 * 4 + c / 64))
        (digit (c % 64))
        (some rest)
      ≡ some (a ∷ b ∷ c ∷ rest)
group_of_three-digit a b c rest ha hb hc =
    rw
      (
        digit_value-digit (a / 4) (omega arith),
        digit_value-digit (a % 4 * 16 + b / 16) (omega arith),
        digit_value-digit (b % 16 * 4 + c / 64) (omega arith),
        digit_value-digit (c % 64) (omega arith),
      )
      (cc (first_byte, second_byte, third_byte))
  where
    first_byte : a / 4 * 4 + (a % 4 * 16 + b / 16) / 16 ≡ a
    first_byte = omega arith

    second_byte : (a % 4 * 16 + b / 16) % 16 * 16 + (b % 16 * 4 + c / 64) / 4 ≡ b
    second_byte = omega arith

    third_byte : (b % 16 * 4 + c / 64) % 4 * 64 + c % 64 ≡ c
    third_byte = omega arith

decode_groups-encode : (s : Bytes) → All IsByte s → decode_groups (encode s) ≡ some s
unfolding encode
decode_groups-encode [] h = unfold decode_groups in refl
decode_groups-encode (a ∷ []) (ha, _) = unfold decode_groups in last_one-digit a ha
decode_groups-encode (a ∷ b ∷ []) (ha, (hb, _)) =
    unfold decode_groups in rw (digit-ne_fill (b % 16 * 4) (omega arith)) (last_two-digit a b ha hb)
decode_groups-encode (a ∷ b ∷ c ∷ rest) (ha, (hb, (hc, h))) =
    decode_groups-full _ _ _ _ (encode rest) (digit-ne_fill (c % 64) (omega arith))
    ∙ rw (decode_groups-encode rest h) (group_of_three-digit a b c rest ha hb hc)

-- What is written has no line breaks.
select-encode : (s : Bytes) → All IsByte s → select (λ c. not (is_break c)) (encode s) ≡ encode s
unfolding encode
select-encode [] h = refl
select-encode (a ∷ []) (ha, _) =
    rw (digit-ne_break (a / 4) (omega arith), digit-ne_break (a % 4 * 16) (omega arith))
select-encode (a ∷ b ∷ []) (ha, (hb, _)) = rw (
  digit-ne_break (a / 4) (omega arith),
  digit-ne_break (a % 4 * 16 + b / 16) (omega arith),
  digit-ne_break (b % 16 * 4) (omega arith),
)
select-encode (a ∷ b ∷ c ∷ rest) (ha, (hb, (hc, h))) = rw (
  digit-ne_break (a / 4) (omega arith),
  digit-ne_break (a % 4 * 16 + b / 16) (omega arith),
  digit-ne_break (b % 16 * 4 + c / 64) (omega arith),
  digit-ne_break (c % 64) (omega arith),
  select-encode rest h,
)

-- `DecodeString` reads the bytes that `EncodeToString` wrote.
pub decode-encode : (s : Bytes) → All IsByte s → decode (encode s) ≡ some s
unfolding decode
decode-encode s h = rw (select-encode s h) (decode_groups-encode s h)
