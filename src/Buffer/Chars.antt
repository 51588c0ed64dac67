-- ===== src/Buffer/Chars.antt =====
-- Bytes added one at a time, as `o` of the code generator adds them.
use Prim.Native.Nat.{bit_and}
use tools.Base.{
  ℕ, ◌+◌, ◌-◌, ◌%◌, ◌^◌, ◌≤◌, ◌<◌, ◌≡◌, ◌≢◌, inl, inr, ◌∙◌, refl, ap, sym, List, [], ◌∷◌, ◌++◌,
  append_assoc, append-nil, ◌>>=◌, Option, some, ◌==◌, Bool-cases, length, arith,
}
use tools.Buffer.{Allocator, Buffer, null_buffer, cells_of, grow, buf_add_char}
use tools.Buffer.Powers.{bit_and-power, next_power}
use tools.Buffer.Growth.{
  contents, IsRoomy, max_bytes, new_size-char, new_size-enough, length-grow, grow-keeps,
  buf_add_fits,
}

-- the bytes of a string of any numbers
abbrev pub bytes_of : List ℕ → List ℕ
bytes_of [] = []
bytes_of (c ∷ cs) = c % 256 ∷ bytes_of cs

-- buf_add_char for each in turn
unfoldable pub add_chars : Allocator → List ℕ → Buffer → Option Buffer
add_chars alloc [] b = some b
add_chars alloc (c ∷ cs) b = do b' ← buf_add_char alloc c b; add_chars alloc cs b'

IsRoomy-num : (b : Buffer) → IsRoomy b → b.num ≤ length (cells_of b.block)
IsRoomy-num b (inl e) = omega (arith, e)
IsRoomy-num b (inr (k, below, above)) = omega (arith, below, above)

module _ (alloc : Allocator) where
  -- where the block is replaced
  new_room :
      (b : Buffer)
      → bit_and b.num (b.num - 1) ≡ 0
      → b.num < max_bytes
      → (k : ℕ) × (b.num + 1 ≤ 2 ^ k) × (2 ^ k ≤ length (grow alloc 1 b))
  new_room b e small =
      let long = length-grow alloc 1 b e ∙ new_size-char b.num small in
      elim (Bool-cases (b.num == 0)) [
        | inl z ↦ (0, ground (arith, z), ground (arith, z, long))
        | inr z ↦
            let (k, below, above) = next_power (b.num - 1) in
            (k, ground (arith, z, below), ground (arith, z, above, long))
      ]

  -- where it is not: the number of bytes is no power of two
  old_room :
      (b : Buffer)
      → bit_and b.num (b.num - 1) ≢ 0
      → IsRoomy b
      → (k : ℕ) × (b.num + 1 ≤ 2 ^ k) × (2 ^ k ≤ length (grow alloc 1 b))
  unfolding grow
  old_room b n (inl z) = absurd (n (ap (λ x. bit_and x (x - 1)) z))
  old_room b n (inr (k, below, above)) =
      let other : b.num ≢ 2 ^ k = λ e. n (ap (λ x. bit_and x (x - 1)) e ∙ bit_and-power k) in
      (k, omega (arith, below, other), ground (arith, n, above))

  room :
      (b : Buffer)
      → IsRoomy b
      → b.num < max_bytes
      → (k : ℕ) × (b.num + 1 ≤ 2 ^ k) × (2 ^ k ≤ length (grow alloc 1 b))
  room b roomy small = elim (Bool-cases (bit_and b.num (b.num - 1) == 0)) [
    | inl e ↦ new_room b (ground (arith, e)) small
    | inr e ↦ old_room b (ground (arith, e)) roomy
  ]

  -- buf_add_char succeeds on a roomy buffer of less than 2 ^ 30 bytes, adds the byte behind the
  -- contents, and leaves a roomy buffer.
  pub buf_add_char-IsRoomy :
      (c : ℕ) (b : Buffer)
      → IsRoomy b
      → b.num < max_bytes
      → (b' : Buffer) × (buf_add_char alloc c b ≡ some b')
        × (contents b' ≡ contents b ++ c % 256 ∷ [])
        × (b'.num ≡ b.num + 1)
        × IsRoomy b'
  unfolding buf_add_char
  buf_add_char-IsRoomy c b roomy small =
      let (k, below, above) = room b roomy small in
      let (b', runs, kept, count, long) =
        buf_add_fits alloc (c % 256 ∷ []) b
          (grow-keeps alloc 1 b (IsRoomy-num b roomy)
            (omega (arith, new_size-enough b.num 1 (omega (arith, small)))))
          (omega (arith, below, above)) in
      (b', runs, kept, count, inr (k, omega (arith, below, count), omega (arith, above, long)))

  pub add_chars_lem :
      (cs : List ℕ) (b : Buffer)
      → IsRoomy b
      → b.num + length cs ≤ max_bytes
      → (b' : Buffer) × (add_chars alloc cs b ≡ some b') × (contents b' ≡ contents b ++ bytes_of cs)
  unfolding add_chars
  add_chars_lem [] b roomy small = (b, refl, sym (append-nil (contents b)))
  add_chars_lem (c ∷ cs) b roomy small =
      let (b', runs, kept, count, roomy') = buf_add_char-IsRoomy c b roomy (omega (arith, small)) in
      let (b'', rest, all) = add_chars_lem cs b' roomy' (omega (arith, small, count)) in
      (
        b'',
        ap (λ x. x >>= add_chars alloc cs) runs ∙ rest,
        all
            ∙ ap (λ xs. xs ++ bytes_of cs) kept
            ∙ append_assoc (contents b) (c % 256 ∷ []) (bytes_of cs),
      )

  -- From the null buffer, at most 2 ^ 30 calls of buf_add_char all succeed and leave their bytes
  -- in order.
  pub contents-add_chars :
      (cs : List ℕ)
      → length cs ≤ max_bytes
      → (b : Buffer) × (add_chars alloc cs null_buffer ≡ some b) × (contents b ≡ bytes_of cs)
  contents-add_chars cs small = add_chars_lem cs null_buffer (inl refl) (omega (arith, small))
