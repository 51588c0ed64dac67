-- ===== src/Buffer/Clearing.antt =====
-- An allocator whose new cells are 0, as one that the theorems on buffers hold for.
use tools.Base.{ℕ, zero, suc, ◌≡◌, ◌≤◌, refl, ap, List, [], ◌∷◌, length, take, arith}
use tools.Buffer.{Allocator}

abbrev pub resize : List ℕ → ℕ → List ℕ
resize cells zero = []
resize [] (suc n) = 0 ∷ resize [] n
resize (c ∷ cells) (suc n) = c ∷ resize cells n

pub length-resize : (cells : List ℕ) (n : ℕ) → length (resize cells n) ≡ n
length-resize cells zero = refl
length-resize [] (suc n) = ap suc (length-resize [] n)
length-resize (c ∷ cells) (suc n) = ap suc (length-resize cells n)

pub take-resize :
    (cells : List ℕ) (n k : ℕ) → k ≤ n → k ≤ length cells → take k (resize cells n) ≡ take k cells
take-resize cells n zero h j = refl
take-resize cells zero (suc k) h j = absurd (omega (arith, h))
take-resize [] (suc n) (suc k) h j = absurd (omega (arith, j))
take-resize (c ∷ cells) (suc n) (suc k) h j =
    ap (λ xs. c ∷ xs) (take-resize cells n k (omega (arith, h)) (omega (arith, j)))

abbrev pub clearing : Allocator
clearing = record { realloc = resize; length-realloc = length-resize; take-realloc = take-resize }
