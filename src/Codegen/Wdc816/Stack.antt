-- ===== src/Codegen/Wdc816/Stack.antt =====
-- The entries of gen_816 (shared/src/gen_816.c): pushes and pulls.
use tools.Base.{ℕ, List, [], ◌∷◌, Option, none, some}
use tools.Cpu.{AddrMode, absolute, direct_page, direct_page_indirect, implied, immediate}
use tools.Codegen.Call.{Call, o, ob, ow, orl}

unfoldable pub pea : AddrMode → ℕ → Option (List Call)
pea immediate value1 = some (ow 0xf4 value1 ∷ [])
pea absolute value1 = some (ow 0xf4 value1 ∷ [])
pea _ value1 = none

unfoldable pub pei : AddrMode → ℕ → Option (List Call)
pei direct_page_indirect value1 = some (ob 0xd4 value1 ∷ [])
pei _ value1 = none

unfoldable pub per : AddrMode → ℕ → Option (List Call)
per immediate value1 = some (orl 0x62 value1 ∷ [])
per direct_page value1 = some (orl 0x62 value1 ∷ [])
per absolute value1 = some (orl 0x62 value1 ∷ [])
per _ value1 = none

unfoldable pub pha : AddrMode → Option (List Call)
pha implied = some (o 0x48 ∷ [])
pha _ = none

unfoldable pub phb : AddrMode → Option (List Call)
phb implied = some (o 0x8b ∷ [])
phb _ = none

unfoldable pub phd : AddrMode → Option (List Call)
phd implied = some (o 0x0b ∷ [])
phd _ = none

unfoldable pub phk : AddrMode → Option (List Call)
phk implied = some (o 0x4b ∷ [])
phk _ = none

unfoldable pub php : AddrMode → Option (List Call)
php implied = some (o 0x08 ∷ [])
php _ = none

unfoldable pub phx : AddrMode → Option (List Call)
phx implied = some (o 0xda ∷ [])
phx _ = none

unfoldable pub phy : AddrMode → Option (List Call)
phy implied = some (o 0x5a ∷ [])
phy _ = none

unfoldable pub pla : AddrMode → Option (List Call)
pla implied = some (o 0x68 ∷ [])
pla _ = none

unfoldable pub plb : AddrMode → Option (List Call)
plb implied = some (o 0xab ∷ [])
plb _ = none

unfoldable pub pld : AddrMode → Option (List Call)
pld implied = some (o 0x2b ∷ [])
pld _ = none

unfoldable pub plp : AddrMode → Option (List Call)
plp implied = some (o 0x28 ∷ [])
plp _ = none

unfoldable pub plx : AddrMode → Option (List Call)
plx implied = some (o 0xfa ∷ [])
plx _ = none

unfoldable pub ply : AddrMode → Option (List Call)
ply implied = some (o 0x7a ∷ [])
ply _ = none
