-- ===== src/Buffer.antt =====
-- The growing buffers behind the sections: buf_add to buf_reset of shared/src/elf_file.c.
mod Tests
pub mod Powers
pub mod Growth
pub mod Chars
pub mod Overflow
pub mod Clearing
use Prim.Native.Nat.{bit_and}
use tools.Base.{
  ℕ, zero, suc, ◌+◌, ◌-◌, ◌*◌, ◌/◌, ◌%◌, ◌≤◌, ◌≡◌, List, [], ◌∷◌, ◌++◌, ◌/◌, Option, none, some,
  ltb, ◌==◌, if◌then◌else◌, length, set, take, int_mod,
}

-- realloc of the C library: the block has the size asked for and keeps the bytes that fit.
pub record Allocator : Type 0 where
  pub realloc : List ℕ → ℕ → List ℕ
  pub length-realloc : (cells : List ℕ) (n : ℕ) → length (realloc cells n) ≡ n
  pub take-realloc :
      (cells : List ℕ) (n k : ℕ)
      → k ≤ n
      → k ≤ length cells
      → take k (realloc cells n) ≡ take k cells

-- `*num_ptr` and the block behind `*pbuf`, which is `none` for a null pointer
pub record Buffer : Type 0 where
  pub num : ℕ
  pub block : Option (List ℕ)

abbrev pub cells_of : Option (List ℕ) → List ℕ
cells_of none = []
cells_of (some cells) = cells

-- `while (num_alloc < need) num_alloc = num_alloc * 2`, on fuel
unfoldable pub double : ℕ → ℕ → ℕ → ℕ
double zero need num_alloc = num_alloc
double (suc fuel) need num_alloc =
    let rest = double fuel need (num_alloc * 2 % int_mod) in
    if ltb num_alloc need then rest else num_alloc

-- the size of the new block
unfoldable pub new_size : ℕ → ℕ → ℕ
new_size num size = double (num + size) (num + size) (if num == 0 then 1 else num * 2 % int_mod)

-- `pp[num++] = data[i]` for all of data; `none` is a write behind the block
unfoldable pub copy_in : List ℕ → ℕ → List ℕ → Option (List ℕ)
copy_in [] num cells = some cells
copy_in (b ∷ bs) num cells =
    let rest = copy_in bs (suc num) (set cells num b) in
    if ltb num (length cells) then rest else none

-- `*num_ptr = num` behind the loop
abbrev pub stored : ℕ → Option (List ℕ) → Option Buffer
stored num none = none
stored num (some cells) = some record { num = num; block = some cells }

-- the bytes of a number in the memory of a little-endian host
abbrev pub little_endian : ℕ → ℕ → List ℕ
little_endian zero v = []
little_endian (suc n) v = v % 256 ∷ little_endian n (v / 256)

abbrev pub null_buffer : Buffer
null_buffer = record { num = 0; block = none }

module _ (alloc : Allocator) where
  -- `num & (num - 1)` is 0 for 0 and the powers of two.
  unfoldable pub grow : ℕ → Buffer → List ℕ
  grow size b =
      if bit_and b.num (b.num - 1) == 0
      then alloc.realloc (cells_of b.block) (new_size b.num size)
      else cells_of b.block

  unfoldable pub buf_add : List ℕ → Buffer → Option Buffer
  buf_add bytes b = stored (b.num + length bytes) (copy_in bytes b.num (grow (length bytes) b))

  unfoldable pub buf_add_char : ℕ → Buffer → Option Buffer
  buf_add_char c b = buf_add (c % 256 ∷ []) b

  unfoldable pub buf_add_short : ℕ → Buffer → Option Buffer
  buf_add_short v b = buf_add (little_endian 2 v) b

  unfoldable pub buf_add_int : ℕ → Buffer → Option Buffer
  buf_add_int v b = buf_add (little_endian 4 v) b

  unfoldable pub buf_add_long : ℕ → Buffer → Option Buffer
  buf_add_long v b = buf_add (little_endian 8 v) b

  -- `pointer` is the argument and `text` what it points to, without its terminating 0. The source
  -- adds as many bytes from the place of the variable `data` itself, which is 8 bytes long.
  unfoldable pub buf_add_string : ℕ → List ℕ → Buffer → Option Buffer
  buf_add_string pointer text b =
      if ltb 8 (length text + 1)
      then none
      else buf_add (take (length text + 1) (little_endian 8 pointer)) b

unfoldable pub buf_reset : Buffer → Buffer
buf_reset b = elim b.block [ none ↦ b | some cells ↦ null_buffer ]
