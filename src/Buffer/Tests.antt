-- ===== src/Buffer/Tests.antt =====
-- The theorems on buffers at concrete buffers, with an allocator that clears new cells.
use tools.Base.{◌≡◌, refl, [], ◌∷◌, none, some, inr, arith}
use tools.Buffer.{Buffer, buf_add, buf_add_char, null_buffer}
use tools.Buffer.Clearing.{clearing}
use tools.Buffer.Growth.{contents, IsRoomy, buf_add-grown}
use tools.Buffer.Chars.{add_chars, buf_add_char-IsRoomy, contents-add_chars}
use tools.Buffer.Overflow.{buf_add-none}

abbrev pair : Buffer
pair = record { num = 2; block = some (1 ∷ 2 ∷ []) }

abbrev triple : Buffer
triple = record { num = 3; block = some (1 ∷ 2 ∷ 3 ∷ 0 ∷ []) }

contents-add_chars_example :
    (b : Buffer) × (add_chars clearing (1 ∷ 2 ∷ 300 ∷ []) null_buffer ≡ some b)
    × (contents b ≡ 1 ∷ 2 ∷ 44 ∷ [])
contents-add_chars_example = contents-add_chars clearing (1 ∷ 2 ∷ 300 ∷ []) (omega arith)

buf_add_char-IsRoomy_example :
    (b : Buffer) × (buf_add_char clearing 9 pair ≡ some b)
    × (contents b ≡ 1 ∷ 2 ∷ 9 ∷ [])
    × (b.num ≡ 3)
    × IsRoomy b
buf_add_char-IsRoomy_example =
    buf_add_char-IsRoomy clearing 9 pair (inr (1, omega arith, omega arith)) (omega arith)

buf_add-grown_example :
    (b : Buffer) × (buf_add clearing (7 ∷ 8 ∷ 9 ∷ []) pair ≡ some b)
    × (contents b ≡ 1 ∷ 2 ∷ 7 ∷ 8 ∷ 9 ∷ [])
buf_add-grown_example =
    buf_add-grown clearing (7 ∷ 8 ∷ 9 ∷ []) pair refl (omega arith) (omega arith)

buf_add-none_example : buf_add clearing (8 ∷ 9 ∷ []) triple ≡ none
buf_add-none_example =
    buf_add-none clearing (8 ∷ 9 ∷ []) triple (omega arith) (omega arith) (omega arith)
