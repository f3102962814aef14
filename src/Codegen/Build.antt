-- ===== src/Codegen/Build.antt =====
-- The builder: code that appends instructions to a block and may return an error, which is `none`.
use gbrc.Common.{Option, none, some, List, [], ◌∷◌, ◌++◌, length}
use gbrc.Codegen.Ir.{Width, Value, local, add, sub, and, or, xor, shl, lshr}
use gbrc.Codegen.Ir.{zext, sext, trunc, Predicate, Inst, load, store, binary, cast, icmp}
use gbrc.Codegen.Ir.{select, call_read_mem, call_write_ram}

abbrev pub Build : Type 0 → Type 0
Build A = List Inst → Option (A × List Inst)

infixl 5 ◌>>=◌ ◌>>◌
abbrev pub ◌>>=◌ : {A B : Type 0} → Build A → (A → Build B) → Build B
◌>>=◌ m f code = elim (m code) [ none ↦ none | some (a, code') ↦ f a code' ]

abbrev pub ◌>>◌ : {A B : Type 0} → Build A → Build B → Build B
m >> k = m >>= λ _. k

abbrev pub pure : {A : Type 0} → A → Build A
pure a code = some (a, code)

-- `return err`
abbrev pub fail : {A : Type 0} → Build A
fail code = none

-- The instruction's value is its index in the block.
abbrev pub emit : Inst → Build Value
emit inst code = some (local (length code), code ++ inst ∷ [])

abbrev pub new_load : Width → Value → Build Value
new_load width pointer = emit (load width pointer)

abbrev pub new_store : Value → Value → Build (Unit {0})
new_store value pointer = emit (store value pointer) >> pure tt

abbrev pub new_add : Value → Value → Build Value
new_add x y = emit (binary add x y)

abbrev pub new_sub : Value → Value → Build Value
new_sub x y = emit (binary sub x y)

abbrev pub new_and : Value → Value → Build Value
new_and x y = emit (binary and x y)

abbrev pub new_or : Value → Value → Build Value
new_or x y = emit (binary or x y)

abbrev pub new_xor : Value → Value → Build Value
new_xor x y = emit (binary xor x y)

abbrev pub new_shl : Value → Value → Build Value
new_shl x y = emit (binary shl x y)

abbrev pub new_lshr : Value → Value → Build Value
new_lshr x y = emit (binary lshr x y)

abbrev pub new_zext : Value → Width → Build Value
new_zext x width = emit (cast zext x width)

abbrev pub new_sext : Value → Width → Build Value
new_sext x width = emit (cast sext x width)

abbrev pub new_trunc : Value → Width → Build Value
new_trunc x width = emit (cast trunc x width)

abbrev pub new_icmp : Predicate → Value → Value → Build Value
new_icmp p x y = emit (icmp p x y)

abbrev pub new_select : Value → Value → Value → Build Value
new_select c x y = emit (select c x y)

-- helpers.go, readMemory
abbrev pub read_memory : Value → Build Value
read_memory addr = emit (call_read_mem addr)

-- helpers.go, updateMemory
abbrev pub update_memory : Value → Value → Build (Unit {0})
update_memory addr value = emit (call_write_ram addr value) >> pure tt
