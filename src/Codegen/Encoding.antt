-- ===== src/Codegen/Encoding.antt =====
-- The bytes that each emitter of shared/src/codegen.c stands for at an address.
use Prim.Native.Nat.{bit_or}
use tools.Base.{
  ℕ, ◌+◌, ◌*◌, ◌/◌, ◌%◌, ◌≡◌, refl, Bool, true, false, ◌&&◌, ◌||◌, List, [], ◌∷◌, ◌++◌, inl, inr,
  arith, ◌==◌, if◌then◌else◌, Bool-cases, is_neg, sub_int, length, subst,
}
use tools.Codegen.State.{State, branch_out_of_range}
use tools.Codegen.Emit
use tools.Codegen.Emit.{check_range, relative}
use tools.Codegen.Call.{
  Call, o, ob, odp, ow, oabs, ol, olong, branch, orl, om, omove, obita, oiz, obitar, obitzr, warn,
  mark_reloc, perform, perform_all,
}
use tools.Codegen.Layout.{Emits, Emits-trans, Emits-refl, o-Emits, report-Emits, add_reloc-Emits}

-- `op` and the low, middle and high bytes of an operand, least first
abbrev pub low_byte : ℕ → ℕ
low_byte v = v % 256

abbrev pub high_byte : ℕ → ℕ
high_byte v = v / 256 % 256

abbrev pub bank_byte : ℕ → ℕ
bank_byte v = v / 0x1_0000 % 256

-- `a` is the address of the first byte. A branch counts from the byte behind it.
unfoldable pub encoding : Call → ℕ → List ℕ
encoding (o op) a = op % 256 ∷ []
encoding (ob op v) a = op % 256 ∷ low_byte v ∷ []
encoding (odp op v) a = op % 256 ∷ low_byte v ∷ []
encoding (ow op v) a = op % 256 ∷ low_byte v ∷ high_byte v ∷ []
encoding (oabs op v) a = op % 256 ∷ low_byte v ∷ high_byte v ∷ []
encoding (ol op v) a = op % 256 ∷ low_byte v ∷ high_byte v ∷ bank_byte v ∷ []
encoding (olong op v) a = op % 256 ∷ low_byte v ∷ high_byte v ∷ bank_byte v ∷ []
encoding (branch op v) a = op % 256 ∷ low_byte (sub_int v (a + 2)) ∷ []
encoding (orl op v) a = op % 256 ∷ low_byte (sub_int v (a + 3)) ∷ high_byte (sub_int v (a + 3)) ∷ []
encoding (om op v b) a = op % 256 ∷ low_byte v ∷ (if b then high_byte v ∷ [] else [])
encoding (omove op src dst) a = op % 256 ∷ bank_byte dst ∷ bank_byte src ∷ []
encoding (obita op mask m) a = op % 256 ∷ low_byte mask ∷ low_byte m ∷ high_byte m ∷ []
encoding (oiz op imm mem) a = op % 256 ∷ low_byte imm ∷ low_byte mem ∷ []
encoding (obitar op mem mask v) a =
    op % 256 ∷ low_byte mask ∷ low_byte mem ∷ high_byte mem ∷ low_byte (sub_int v (a + 5)) ∷ []
encoding (obitzr op bit mem v) a =
    bit_or op (bit * 16) % 256 ∷ low_byte mem ∷ low_byte (sub_int v (a + 3)) ∷ []
encoding (warn d) a = []
encoding mark_reloc a = []

unfoldable pub encode_all : List Call → ℕ → List ℕ
encode_all [] a = []
encode_all (c ∷ cs) a = encoding c a ++ encode_all cs (a + length (encoding c a))

-- the byte `b`, whichever of its residues is written
byte-Emits : (b c : ℕ) (s : State) → c % 256 ≡ b → Emits s (Emit.o c s) (b ∷ [])
byte-Emits b c s e = rw (← e) (o-Emits c s)

-- one more byte
snoc :
    {s t : State} (bs : List ℕ) (b c : ℕ)
    → Emits s t bs
    → c % 256 ≡ b
    → Emits s (Emit.o c t) (bs ++ b ∷ [])
snoc {t = t} bs b c h e = Emits-trans bs (b ∷ []) h (byte-Emits b c t e)

check_range-Emits : (far : Bool) (v : ℕ) (s : State) → Emits s (check_range far v s) []
check_range-Emits far v s =
    elim (Bool-cases (far && (is_neg s.current_pass || s.current_pass == 0))) [
      | inl e ↦ rw e (report-Emits (branch_out_of_range s.addr v) s)
      | inr e ↦ rw e (Emits-refl s)
    ]

relative-Emits :
    (v a : ℕ) (s : State) → s.addr + 1 ≡ a → Emits s (relative v s) (low_byte (sub_int v a) ∷ [])
unfolding relative
relative-Emits v a s e = rw (← e) (snoc [] _ _ (check_range-Emits _ v s) (omega arith))

-- a short branch behind the bytes `bs`
snoc_relative :
    {s t : State} (bs : List ℕ) (v a : ℕ)
    → Emits s t bs
    → s.addr + length bs + 1 ≡ a
    → Emits s (relative v t) (bs ++ low_byte (sub_int v a) ∷ [])
snoc_relative {t = t} bs v a h e = Emits-trans bs _ h (relative-Emits v a t (omega (arith, h.addr)))

module _ (op v : ℕ) (s : State) where
  ob-Emits : Emits s (Emit.ob op v s) (encoding (ob op v) s.addr)
  unfolding Emit.ob encoding
  ob-Emits = snoc (op % 256 ∷ []) _ _ (o-Emits op s) (omega arith)

  ow-Emits : Emits s (Emit.ow op v s) (encoding (ow op v) s.addr)
  unfolding Emit.ob Emit.ow encoding
  ow-Emits = snoc _ _ (v / 256) ob-Emits refl

  ol-Emits : Emits s (Emit.ol op v s) (encoding (ol op v) s.addr)
  unfolding Emit.ow Emit.ol encoding
  ol-Emits = snoc _ _ (v / 0x1_0000) ow-Emits refl

  om-Emits : (b : Bool) → Emits s (Emit.om op v b s) (encoding (om op v b) s.addr)
  unfolding Emit.ob Emit.ow Emit.om encoding
  om-Emits true = ow-Emits
  om-Emits false = ob-Emits

  branch-Emits : Emits s (Emit.branch op v s) (encoding (branch op v) s.addr)
  unfolding Emit.branch encoding
  branch-Emits = snoc_relative (op % 256 ∷ []) v _ (o-Emits op s) (omega arith)

  orl-Emits : Emits s (Emit.orl op v s) (encoding (orl op v) s.addr)
  unfolding Emit.orl Emit.o encoding
  orl-Emits =
      let e : s.addr + 1 + 2 ≡ s.addr + 3 = omega arith in
      rw e (
        snoc (op % 256 ∷ low_byte (sub_int v (s.addr + 3)) ∷ []) _ _
          (snoc (op % 256 ∷ []) _ _
            (Emits-trans (op % 256 ∷ []) [] (o-Emits op s) (check_range-Emits _ v _)) (omega arith))
          refl)

-- opcode, mask and address of the instructions on bits of memory
mask_bytes :
    (op mask m : ℕ) (s : State)
    → Emits s
        (Emit.o (m / 256) (Emit.o (m % 256) (Emit.o mask (Emit.o op s))))
        (op % 256 ∷ low_byte mask ∷ low_byte m ∷ high_byte m ∷ [])
mask_bytes op mask m s =
    snoc (op % 256 ∷ low_byte mask ∷ low_byte m ∷ []) _ _
      (snoc (op % 256 ∷ low_byte mask ∷ []) _ _ (snoc (op % 256 ∷ []) _ _ (o-Emits op s) refl)
        (omega arith))
      refl

-- Each call emits its encoding at the current address.
pub perform-Emits : (c : Call) (s : State) → Emits s (perform c s) (encoding c s.addr)
unfolding perform encoding
perform-Emits (o op) s = o-Emits op s
perform-Emits (ob op v) s = ob-Emits op v s
perform-Emits (odp op v) s = unfold Emit.odp in ob-Emits op v s
perform-Emits (ow op v) s = ow-Emits op v s
perform-Emits (oabs op v) s = unfold Emit.oabs in ow-Emits op v s
perform-Emits (ol op v) s = ol-Emits op v s
perform-Emits (olong op v) s = unfold Emit.olong in ol-Emits op v s
perform-Emits (branch op v) s = branch-Emits op v s
perform-Emits (orl op v) s = orl-Emits op v s
perform-Emits (om op v b) s = om-Emits op v s b
perform-Emits (omove op src dst) s =
    unfold Emit.omove in
    snoc (op % 256 ∷ bank_byte dst ∷ []) _ _ (snoc (op % 256 ∷ []) _ _ (o-Emits op s) refl) refl
perform-Emits (obita op mask m) s = unfold Emit.obita in mask_bytes op mask m s
perform-Emits (oiz op imm mem) s =
    unfold Emit.oiz Emit.ob in
    snoc (op % 256 ∷ low_byte imm ∷ []) _ _ (ob-Emits op imm s) (omega arith)
perform-Emits (obitar op mem mask v) s =
    unfold Emit.obitar in
    snoc_relative (op % 256 ∷ low_byte mask ∷ low_byte mem ∷ high_byte mem ∷ []) v _
      (mask_bytes op mask mem s) (omega arith)
perform-Emits (obitzr op bit mem v) s =
    unfold Emit.obitzr Emit.ob in
    snoc_relative (bit_or op (bit * 16) % 256 ∷ low_byte mem ∷ []) v _
      (ob-Emits (bit_or op (bit * 16)) mem s) (omega arith)
perform-Emits (warn d) s = report-Emits d s
perform-Emits mark_reloc s = add_reloc-Emits s

pub perform_all-Emits :
    (cs : List Call) (s : State) → Emits s (perform_all cs s) (encode_all cs s.addr)
unfolding perform_all encode_all
perform_all-Emits [] s = Emits-refl s
perform_all-Emits (c ∷ cs) s =
    let h = perform-Emits c s in
    Emits-trans (encoding c s.addr) _ h (
      subst (λ a. Emits (perform c s) (perform_all cs (perform c s)) (encode_all cs a)) h.addr
        (perform_all-Emits cs (perform c s)))
