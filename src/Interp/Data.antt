-- ===== src/Interp/Data.antt =====
-- The bytes that a list of values stands for in byte and word data, and what stack_byte and
-- stack_word emit.
use tools.Base.{ℕ, ◌/◌, ◌%◌, ◌≡◌, refl, List, [], ◌∷◌, Option, some, arith, subst}
use tools.Buffer.Chars.{bytes_of}
use tools.Codegen.State.{State}
use tools.Codegen.Emit.{codegen_byte, codegen_word, o}
use tools.Codegen.Layout.{Emits, Emits-refl, Emits-trans, o-Emits}
use tools.Interp.Object.{Object, ValueType, real_type, string_type}
use tools.Interp.Emit.{Target, to_int, emit_chars, byte_value, byte_by_type, word_value}
use tools.Interp.Values.{HasEmitted}

abbrev pub bytes_by_type : Target → Object → ValueType → List ℕ
bytes_by_type t v real_type = t.real_int v.int_val % 256 ∷ []
bytes_by_type t v string_type = bytes_of v.text
bytes_by_type t v _ = v.int_val % 256 ∷ []

abbrev pub byte_listing : Target → ℕ → Object → Option (List ℕ)
byte_listing t i v = some (bytes_by_type t v v.type)

abbrev pub word_listing : ℕ → Object → Option (List ℕ)
word_listing i v = some (v.int_val % 256 ∷ v.int_val / 256 % 256 ∷ [])

pub codegen_byte-Emits : (b : ℕ) (s : State) → Emits s (codegen_byte b s) (b % 256 ∷ [])
unfolding codegen_byte
codegen_byte-Emits b s =
    let e : b % 256 % 256 ≡ b % 256 = omega arith in
    subst (λ x. Emits s (o (b % 256) s) (x ∷ [])) e (o-Emits (b % 256) s)

emit_chars-Emits : (cs : List ℕ) (s : State) → Emits s (emit_chars cs s) (bytes_of cs)
unfolding emit_chars
emit_chars-Emits [] s = Emits-refl s
emit_chars-Emits (c ∷ cs) s =
    Emits-trans (c % 256 ∷ []) (bytes_of cs) (codegen_byte-Emits c s)
      (emit_chars-Emits cs (codegen_byte c s))

pub to_int-Emits : (n : ℕ) (s : State) → Emits s (codegen_byte (to_int n) s) (n % 256 ∷ [])
to_int-Emits n s =
    let e : to_int n % 256 ≡ n % 256 = omega arith in
    subst (λ b. Emits s (codegen_byte (to_int n) s) (b ∷ [])) e (codegen_byte-Emits (to_int n) s)

byte_by_type-Emits :
    (t : Target) (v : Object) (s : State) (type : ValueType)
    → Emits s (byte_by_type t v s type) (bytes_by_type t v type)
byte_by_type-Emits t v s real_type = codegen_byte-Emits (t.real_int v.int_val) s
byte_by_type-Emits t v s string_type = emit_chars-Emits v.text s
byte_by_type-Emits t v s _ = to_int-Emits v.int_val s

pub byte_value-listing :
    (t : Target) (i : ℕ) (v : Object) (s : State) (bs : List ℕ)
    → byte_listing t i v ≡ some bs
    → HasEmitted s bs (byte_value t i v s)
unfolding byte_value
byte_value-listing t i v s bs e =
    let same : bytes_by_type t v v.type ≡ bs = cc in
    (
      byte_by_type t v s v.type,
      refl,
      subst (Emits s (byte_by_type t v s v.type)) same (byte_by_type-Emits t v s v.type),
    )

word_value-Emits :
    (n : ℕ) (s : State) → Emits s (codegen_word (to_int n) s) (n % 256 ∷ n / 256 % 256 ∷ [])
unfolding codegen_word o
word_value-Emits n s =
    let e : to_int n % 256 % 256 ≡ n % 256 = omega arith in
    let e' : to_int n / 256 % 256 ≡ n / 256 % 256 = omega arith in
    let first = o (to_int n % 256) s in
    subst (λ y. Emits s (o (to_int n / 256) first) (n % 256 ∷ y ∷ [])) e'
      (subst (λ x. Emits s (o (to_int n / 256) first) (x ∷ to_int n / 256 % 256 ∷ [])) e
        (Emits-trans (to_int n % 256 % 256 ∷ []) (to_int n / 256 % 256 ∷ [])
          (o-Emits (to_int n % 256) s) (o-Emits (to_int n / 256) first)))

pub word_value-listing :
    (i : ℕ) (v : Object) (s : State) (bs : List ℕ)
    → word_listing i v ≡ some bs
    → HasEmitted s bs (word_value i v s)
unfolding word_value
word_value-listing i v s bs e =
    let same : v.int_val % 256 ∷ v.int_val / 256 % 256 ∷ [] ≡ bs = cc in
    (
      codegen_word (to_int v.int_val) s,
      refl,
      subst (Emits s (codegen_word (to_int v.int_val) s)) same (word_value-Emits v.int_val s),
    )
