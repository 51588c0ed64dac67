-- ===== src/Buffer/Growth.antt =====
-- What a buffer holds, and the growth of its block in buf_add.
use Prim.Native.Nat.{bit_and}
use tools.Base.{
  ℕ, zero, suc, ◌+◌, ◌-◌, ◌*◌, ◌%◌, ◌^◌, ◌≤◌, ◌<◌, ◌≡◌, ◌⊎◌, inl, inr, ◌∙◌, refl, ap, List, [], ◌∷◌,
  ◌++◌, append_assoc, append-nil, sym, some, ltb, ◌==◌, if◌then◌else◌, Bool-cases, length, set,
  take, take-set, length-set, int_mod, arith,
}
use tools.Buffer.{Allocator, Buffer, cells_of, stored, double, new_size, copy_in, grow, buf_add}

abbrev pub contents : Buffer → List ℕ
contents b = take b.num (cells_of b.block)

-- There is a power of two between the number of bytes and the size of the block, or no byte.
abbrev pub IsRoomy : Buffer → Type 0
IsRoomy b = (b.num ≡ 0) ⊎ ((k : ℕ) × (b.num ≤ 2 ^ k) × (2 ^ k ≤ length (cells_of b.block)))

-- below this number of bytes no size overflows an int
abbrev pub max_bytes : ℕ
max_bytes = 0x4000_0000

double-stops : (fuel need num_alloc : ℕ) → need ≤ num_alloc → double fuel need num_alloc ≡ num_alloc
unfolding double
double-stops zero need num_alloc h = refl
double-stops (suc fuel) need num_alloc h = ground (arith, h)

pub new_size-char : (num : ℕ) → num < max_bytes → new_size num 1 ≡ (if num == 0 then 1 else num * 2)
unfolding new_size
new_size-char num h = double-stops (num + 1) (num + 1) _ (ground (arith, h)) ∙ ground (arith, h)

copy_in_lem :
    (bs : List ℕ) (num : ℕ) (cells : List ℕ)
    → num + length bs ≤ length cells
    → (cells' : List ℕ) × (copy_in bs num cells ≡ some cells')
      × (length cells' ≡ length cells)
      × (take (num + length bs) cells' ≡ take num cells ++ bs)
unfolding copy_in
copy_in_lem [] num cells h =
    let e : num + 0 ≡ num = omega arith in
    (cells, refl, refl, rw e (sym (append-nil (take num cells))))
copy_in_lem (b ∷ bs) num cells h =
    let (cells', runs, long, kept) =
      copy_in_lem bs (suc num) (set cells num b) (omega (arith, h, length-set cells num b)) in
    let e : num + suc (length bs) ≡ suc num + length bs = omega arith in
    (
      cells',
      ground (arith, h, runs),
      long ∙ length-set cells num b,
      rw e (
          kept
          ∙ ap (λ xs. xs ++ bs) (take-set num cells b (omega (arith, h)))
          ∙ append_assoc (take num cells) (b ∷ []) bs),
    )

double-enough :
    (fuel need num_alloc : ℕ)
    → 0 < num_alloc
    → num_alloc ≤ 2 * max_bytes
    → need ≤ max_bytes
    → need ≤ num_alloc + fuel
    → need ≤ double fuel need num_alloc
unfolding double
double-enough zero need num_alloc p s m h = omega (arith, h)
double-enough (suc fuel) need num_alloc p s m h = elim (Bool-cases (ltb num_alloc need)) [
  | inl e ↦ rw e (
      double-enough fuel need (num_alloc * 2 % int_mod) (ground (arith, e, p, m))
        (ground (arith, e, p, m)) m (ground (arith, e, p, m, h)))
  | inr e ↦ rw e (ground (arith, e))
]

-- The loop of buf_add ends with room for all bytes.
pub new_size-enough : (num size : ℕ) → num + size ≤ max_bytes → num + size ≤ new_size num size
unfolding new_size
new_size-enough num size h =
    double-enough (num + size) (num + size) _ (ground (arith, h)) (ground (arith, h)) h
      (ground (arith, h))

module _ (alloc : Allocator) where
  pub grow-keeps :
      (size : ℕ) (b : Buffer)
      → b.num ≤ length (cells_of b.block)
      → b.num ≤ new_size b.num size
      → take b.num (grow alloc size b) ≡ contents b
  unfolding grow
  grow-keeps size b holds room = elim (Bool-cases (bit_and b.num (b.num - 1) == 0)) [
    | inl e ↦ rw e (alloc.take-realloc _ _ _ room holds)
    | inr e ↦ rw e refl
  ]

  -- Bytes that fit the block after growing are added.
  pub buf_add_fits :
      (bytes : List ℕ) (b : Buffer)
      → take b.num (grow alloc (length bytes) b) ≡ contents b
      → b.num + length bytes ≤ length (grow alloc (length bytes) b)
      → (b' : Buffer) × (buf_add alloc bytes b ≡ some b')
        × (contents b' ≡ contents b ++ bytes)
        × (b'.num ≡ b.num + length bytes)
        × (length (cells_of b'.block) ≡ length (grow alloc (length bytes) b))
  unfolding buf_add
  buf_add_fits bytes b keeps fits =
      let (cells', runs, long, kept) = copy_in_lem bytes b.num (grow alloc (length bytes) b) fits in
      (
        record { num = b.num + length bytes; block = some cells' },
        ap (stored (b.num + length bytes)) runs,
        kept ∙ ap (λ xs. xs ++ bytes) keeps,
        refl,
        long,
      )

  pub length-grow :
      (size : ℕ) (b : Buffer)
      → bit_and b.num (b.num - 1) ≡ 0
      → length (grow alloc size b) ≡ new_size b.num size
  unfolding grow
  length-grow size b e = rw e (alloc.length-realloc _ _)

  -- A buffer whose block holds its bytes and whose number of bytes is 0 or a power of two takes
  -- any number of bytes, as long as there are at most 2 ^ 30 of them in the end, and holds them
  -- behind what it held.
  pub buf_add-grown :
      (bytes : List ℕ) (b : Buffer)
      → bit_and b.num (b.num - 1) ≡ 0
      → b.num ≤ length (cells_of b.block)
      → b.num + length bytes ≤ max_bytes
      → (b' : Buffer) × (buf_add alloc bytes b ≡ some b') × (contents b' ≡ contents b ++ bytes)
  buf_add-grown bytes b e holds small =
      let enough = new_size-enough b.num (length bytes) small in
      let (b', runs, kept, _, _) =
        buf_add_fits bytes b (grow-keeps (length bytes) b holds (omega (arith, enough)))
          (omega (arith, length-grow (length bytes) b e, enough)) in
      (b', runs, kept)
