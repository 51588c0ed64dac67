-- ===== src/Buffer/Overflow.antt =====
-- When buf_add writes behind its block.
use Prim.Native.Nat.{bit_and}
use tools.Base.{
  ℕ, suc, ◌+◌, ◌-◌, ◌≤◌, ◌<◌, ◌≡◌, ◌≢◌, ◌∙◌, ap, List, [], ◌∷◌, none, ltb, Bool-cases, inl, inr,
  length, length-set, set, arith, ◌==◌, false, refl,
}
use tools.Buffer.{Allocator, Buffer, cells_of, stored, copy_in, grow, buf_add}

copy_in-none :
    (bs : List ℕ) (num : ℕ) (cells : List ℕ)
    → num ≤ length cells
    → length cells < num + length bs
    → copy_in bs num cells ≡ none
unfolding copy_in
copy_in-none [] num cells h k = absurd (omega (arith, h, k))
copy_in-none (b ∷ bs) num cells h k = elim (Bool-cases (ltb num (length cells))) [
  | inl e ↦ rw e (
      copy_in-none bs (suc num) (set cells num b) (ground (arith, e, length-set cells num b))
        (omega (arith, k, length-set cells num b)))
  | inr e ↦ rw e refl
]

kept_block :
    (alloc : Allocator) (size : ℕ) (b : Buffer)
    → bit_and b.num (b.num - 1) ≢ 0
    → grow alloc size b ≡ cells_of b.block
unfolding grow
kept_block alloc size b n =
    let e : (bit_and b.num (b.num - 1) == 0) ≡ false = ground (arith, n) in rw e refl

-- Where `num & (num - 1)` is not 0 and the block holds the bytes there are but not those to be
-- added with them, buf_add keeps its block and writes behind it.
pub buf_add-none :
    (alloc : Allocator) (bytes : List ℕ) (b : Buffer)
    → bit_and b.num (b.num - 1) ≢ 0
    → b.num ≤ length (cells_of b.block)
    → length (cells_of b.block) < b.num + length bytes
    → buf_add alloc bytes b ≡ none
unfolding buf_add
buf_add-none alloc bytes b n h k = ap (stored (b.num + length bytes)) (
    ap (copy_in bytes b.num) (kept_block alloc (length bytes) b n)
    ∙ copy_in-none bytes b.num (cells_of b.block) h k)
