-- ===== src/Symbols/Debug.antt =====
-- The table of symbols by address, which as-c/src/value.c keeps for the debugger. An address is a
-- long that is not negative.
use tools.Base.{ℕ, ◌≡◌, ◌==◌, Option, none, some, if◌then◌else◌, arith, ltb}

pub data DSymNode {ℓ} (V : Type ℓ) : Type ℓ where
  null : DSymNode V
  dsym : DSymNode V → ℕ → V → DSymNode V → DSymNode V

module _ {ℓ} {V : Type ℓ} where
  -- dsym_add with insertDSymRecurse: the new node hangs below a leaf, to the right of its equals.
  unfoldable pub dsym_add : DSymNode V → ℕ → V → DSymNode V
  dsym_add null addr value = dsym null addr value null
  dsym_add (dsym l k v r) addr value =
      let left = dsym_add l addr value in
      let right = dsym_add r addr value in if ltb addr k then dsym left k v r else dsym l k v right

  unfoldable pub dsym_find : DSymNode V → ℕ → Option V
  dsym_find null addr = none
  dsym_find (dsym l k v r) addr =
      let left = dsym_find l addr in
      let right = dsym_find r addr in
      if k == addr then some v else if ltb addr k then left else right

  -- the first that is there
  abbrev pub or_else : Option V → Option V → Option V
  or_else (some v) other = some v
  or_else none other = other

  -- Behind dsym_add, dsym_find gives what it gave before, and where that was nothing, the new
  -- symbol at its own address: the first symbol added at an address stays.
  pub dsym_find-dsym_add :
      (d : DSymNode V) (addr other : ℕ) (value : V)
      → dsym_find (dsym_add d addr value) other
        ≡ or_else (dsym_find d other) (if addr == other then some value else none)
  unfolding dsym_add dsym_find
  dsym_find-dsym_add null addr other value = ground arith
  dsym_find-dsym_add (dsym l k v r) addr other value =
      ground (arith, dsym_find-dsym_add l addr other value, dsym_find-dsym_add r addr other value)
