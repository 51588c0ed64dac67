-- ===== src/Interp/Escapes.antt =====
-- The bytes that a list of values stands for in text data, with the escapes of strings decoded, and
-- what emit_text emits.
use Prim.Native.Nat.{bit_or}
use tools.Base.{
  ℕ, ◌/◌, ◌%◌, ◌≡◌, refl, sym, ap, ◌∙◌, false, true, Bool, Bool-cases, List, [], ◌∷◌, Option, none,
  some, ◌>>=◌, inl, inr, if◌then◌else◌, ◌==◌, subst, bind_some, bind_id, ◌&&◌, ◌||◌, suc, arith,
}
use tools.Buffer.Chars.{bytes_of}
use tools.Codegen.State.{State}
use tools.Codegen.Emit.{codegen_byte}
use tools.Codegen.Layout.{Emits, Emits-refl, Emits-trans}
use tools.Interp.Long.{long_lt}
use tools.Interp.Object.{Object, ValueType, int_type, string_type}
use tools.Interp.Text.{
  TextOp, is_bit7, escape, is_end, marked, emit_string, emit_number, text_value, text_by_type,
}
use tools.Interp.Values.{HasEmitted}
use tools.Interp.Data.{codegen_byte-Emits, to_int-Emits}

-- the place of a character in a list, counted on from a number
abbrev place : ℕ → List ℕ → ℕ → Option ℕ
place c [] n = none
place c (x ∷ xs) n = let later = place c xs (suc n) in if c == x then some n else later

abbrev first_of : Option ℕ → ℕ → ℕ
first_of (some n) other = n
first_of none other = other

-- What a character behind a backslash stands for, by the table of ASCII: a, b, t, n, v, f and r the
-- seven control characters from BEL, 7, to CR, 13, in their order there; a 0 is NUL and a quote
-- itself. A character that is no escape of these, and x, leave the backslash.
abbrev pub meaning : ℕ → ℕ
meaning c =
    first_of (place c (b'a' ∷ b'b' ∷ b't' ∷ b'n' ∷ b'v' ∷ b'f' ∷ b'r' ∷ []) 7)
      (if c == b'0' then 0 else if c == b'\'' || c == b'"' then c else b'\\')

escape-meaning : (c : ℕ) → escape c ≡ meaning c
unfolding escape
escape-meaning c = ground arith

-- the characters of a string, each escape one; the Boolean tells that a backslash stands in front
abbrev pub decode : Bool → List ℕ → Option (List ℕ)
decode false [] = some []
decode true [] = none
decode false (c ∷ cs) = decode (c == 0x5c) cs >>= λ ds. some (if c == 0x5c then ds else c ∷ ds)
decode true (c ∷ cs) = decode false cs >>= λ ds. some (meaning c ∷ ds)

abbrev pub mark_last : List ℕ → List ℕ
mark_last [] = []
mark_last (d ∷ []) = bit_or d 0x80 ∷ []
mark_last (d ∷ e ∷ ds) = d ∷ mark_last (e ∷ ds)

abbrev pub final : Bool → List ℕ → List ℕ
final mark ds = if mark then mark_last ds else ds

abbrev pub number_bytes : ℕ → List ℕ
number_bytes n = if long_lt 0xff n then n / 256 % 256 ∷ n % 256 ∷ [] else n % 256 ∷ []

abbrev pub texts_by_type : TextOp → ℕ → Object → ValueType → Option (List ℕ)
texts_by_type type i v int_type = some (number_bytes v.int_val)
texts_by_type type i v string_type =
    decode false v.text >>= λ ds. some (bytes_of (final (is_bit7 type && (i == 1)) ds))
texts_by_type type i v _ = some []

abbrev pub text_listing : TextOp → ℕ → Object → Option (List ℕ)
text_listing type i v = texts_by_type type i v v.type

decode-end_escape : (cs ds : List ℕ) → decode true cs ≡ some ds → is_end ds ≡ false
decode-end_escape [] ds e = cc
decode-end_escape (c ∷ cs) ds e =
    let (es, k, k') = bind_some (decode false cs) _ e in
    let same : meaning c ∷ es ≡ ds = cc in subst (λ xs. is_end xs ≡ false) same refl

-- the two cases of a character that no backslash is in front of
decode-backslash : (c : ℕ) (cs : List ℕ) → c == 0x5c ≡ true → decode false (c ∷ cs) ≡ decode true cs
decode-backslash c cs e = rw e (bind_id (decode true cs))

decode-plain :
    (c : ℕ) (cs : List ℕ)
    → c == 0x5c ≡ false
    → decode false (c ∷ cs) ≡ (decode false cs >>= λ ds. some (c ∷ ds))
decode-plain c cs e = rw e refl

decode-end : (cs ds : List ℕ) → decode false cs ≡ some ds → is_end cs ≡ is_end ds
decode-end [] ds e = let same : [] ≡ ds = cc in ap is_end same
decode-end (c ∷ cs) ds e = elim (Bool-cases (c == 0x5c)) [
  | inl escaped ↦ sym (decode-end_escape cs ds (sym (decode-backslash c cs escaped) ∙ e))
  | inr plain ↦
      let (es, k, k') = bind_some (decode false cs) _ (sym (decode-plain c cs plain) ∙ e) in
      let same : c ∷ es ≡ ds = cc in ap is_end same
]

final-cons :
    (mark : Bool) (c : ℕ) (cs ds : List ℕ)
    → is_end cs ≡ is_end ds
    → marked mark c cs % 256 ∷ bytes_of (final mark ds) ≡ bytes_of (final mark (c ∷ ds))
final-cons false c cs ds e = refl
final-cons true c [] [] e = refl
final-cons true c (x ∷ cs) [] e = cc
final-cons true c [] (d ∷ ds) e = cc
final-cons true c (x ∷ cs) (d ∷ ds) e = refl

put-Emits :
    (mark : Bool) (c : ℕ) (cs ds : List ℕ) (s : State)
    → decode false cs ≡ some ds
    → HasEmitted
        (codegen_byte (marked mark c cs) s)
        (bytes_of (final mark ds))
        (emit_string mark false cs (codegen_byte (marked mark c cs) s))
    → HasEmitted s
        (bytes_of (final mark (c ∷ ds)))
        (emit_string mark false cs (codegen_byte (marked mark c cs) s))
put-Emits mark c cs ds s e (s', r, emits) = (
  s',
  r,
  subst (Emits s s') (final-cons mark c cs ds (decode-end cs ds e)) (
      Emits-trans (marked mark c cs % 256 ∷ []) (bytes_of (final mark ds))
        (codegen_byte-Emits (marked mark c cs) s) emits),
)

emit_string-Emits :
    (mark escaped : Bool) (cs ds : List ℕ) (s : State)
    → decode escaped cs ≡ some ds
    → HasEmitted s (bytes_of (final mark ds)) (emit_string mark escaped cs s)
unfolding emit_string
emit_string-Emits true false [] ds s e =
    let same : [] ≡ ds = cc in
    (s, refl, subst (λ xs. Emits s s (bytes_of (mark_last xs))) same (Emits-refl s))
emit_string-Emits false false [] ds s e =
    let same : [] ≡ ds = cc in (s, refl, subst (λ xs. Emits s s (bytes_of xs)) same (Emits-refl s))
emit_string-Emits mark true [] ds s e = cc
emit_string-Emits mark false (c ∷ cs) ds s e = elim (Bool-cases (c == 0x5c)) [
  | inl escaped ↦
      subst
        (λ b.
          HasEmitted s (bytes_of (final mark ds))
            (emit_string mark b cs (if b then s else codegen_byte (marked mark c cs) s)))
        (sym escaped)
        (emit_string-Emits mark true cs ds s (sym (decode-backslash c cs escaped) ∙ e))
  | inr plain ↦
      let (es, k, k') = bind_some (decode false cs) _ (sym (decode-plain c cs plain) ∙ e) in
      let same : c ∷ es ≡ ds = cc in
      subst
        (λ b.
          HasEmitted s (bytes_of (final mark ds))
            (emit_string mark b cs (if b then s else codegen_byte (marked mark c cs) s)))
        (sym plain)
        (subst
          (λ xs.
            HasEmitted s (bytes_of (final mark xs))
              (emit_string mark false cs (codegen_byte (marked mark c cs) s)))
          same (put-Emits mark c cs es s k (emit_string-Emits mark false cs es _ k)))
]
emit_string-Emits mark true (c ∷ cs) ds s e =
    let (es, k, k') = bind_some (decode false cs) _ e in
    let same : meaning c ∷ es ≡ ds = cc in
    subst (λ xs. HasEmitted s (bytes_of (final mark xs)) (emit_string mark true (c ∷ cs) s)) same
      (subst
        (λ x.
          HasEmitted s (bytes_of (final mark (meaning c ∷ es)))
            (emit_string mark false cs (codegen_byte (marked mark x cs) s)))
        (sym (escape-meaning c))
        (put-Emits mark (meaning c) cs es s k (emit_string-Emits mark false cs es _ k)))

emit_number-Emits : (n : ℕ) (s : State) → Emits s (emit_number n s) (number_bytes n)
unfolding emit_number
emit_number-Emits n s = elim (Bool-cases (long_lt 0xff n)) [
  | inl two ↦ rw two (
      Emits-trans (n / 256 % 256 ∷ []) (n % 256 ∷ []) (to_int-Emits (n / 256) s) (to_int-Emits n _))
  | inr one ↦ rw one (to_int-Emits n s)
]

text_by_type-Emits :
    (type : TextOp) (i : ℕ) (v : Object) (s : State) (bs : List ℕ) (k : ValueType)
    → texts_by_type type i v k ≡ some bs
    → HasEmitted s bs (text_by_type type i v s k)
text_by_type-Emits type i v s bs int_type e =
    let same : number_bytes v.int_val ≡ bs = cc in
    (emit_number v.int_val s, refl, subst (Emits s _) same (emit_number-Emits v.int_val s))
text_by_type-Emits type i v s bs string_type e =
    let (ds, k, k') = bind_some (decode false v.text) _ e in
    let mark = is_bit7 type && (i == 1) in
    let same : bytes_of (final mark ds) ≡ bs = cc in
    subst (λ xs. HasEmitted s xs (emit_string mark false v.text s)) same
      (emit_string-Emits mark false v.text ds s k)
text_by_type-Emits type i v s bs _ e =
    let same : [] ≡ bs = cc in (s, refl, subst (Emits s s) same (Emits-refl s))

pub text_value-listing :
    (type : TextOp) (i : ℕ) (v : Object) (s : State) (bs : List ℕ)
    → text_listing type i v ≡ some bs
    → HasEmitted s bs (text_value type i v s)
unfolding text_value
text_value-listing type i v s bs e = text_by_type-Emits type i v s bs v.type e
