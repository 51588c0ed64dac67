-- ===== src/Scanner/Tests.antt =====
-- The theorem on numbers at the number 255.
use tools.Base.{◌≡◌, refl, false, [], ◌∷◌, arith}
use tools.Scanner.Numbers.{number, hex, binary}
use tools.Scanner.Digits.{digits-spell}

-- 255 and a comma
digits-spell_example :
    (number (0x32 ∷ 0x35 ∷ 0x35 ∷ 0x2c ∷ []) ≡ (false, 255, 0x2c ∷ []))
    × (binary (0x31 ∷ 0x31 ∷ 0x31 ∷ 0x31 ∷ 0x31 ∷ 0x31 ∷ 0x31 ∷ 0x31 ∷ 0x2c ∷ [])
        ≡ (255, 0x2c ∷ []))
    × (hex (0x66 ∷ 0x66 ∷ 0x2c ∷ []) ≡ (255, 0x2c ∷ []))
    × (hex (0x46 ∷ 0x46 ∷ 0x2c ∷ []) ≡ (255, 0x2c ∷ []))
digits-spell_example = digits-spell 255 (0x2c ∷ []) (omega arith) refl
