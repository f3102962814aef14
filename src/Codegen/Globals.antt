-- ===== src/Codegen/Globals.antt =====
-- internal/codegen/codegen.go: the globals of the module, and `rom_init`, which copies the ROM's image
-- to the start of `ram`.
use gbrc.Common.{
  ℕ, zero, suc, ◌+◌, ◌≤◌, ◌<◌, ◌≡◌, refl, ltb, ◌==◌, if◌then◌else◌, List, [], ◌∷◌, Run, done,
  out_of_fuel, length, get_or, arith, Bool-cases, inl, inr, not, ltb→lt, ltb-false,
}
use gbrc.Codegen.Machine.{Machine}

pub take {ℓ} : {A : Type ℓ} → ℕ → List A → List A
take zero xs = []
take (suc n) [] = []
take (suc n) (x ∷ xs) = x ∷ take n xs

-- emitGlobals: `rom_image`, at most 64 KiB of the ROM.
unfoldable pub rom_image_of : List ℕ → List ℕ
unfolding take
rom_image_of rom_bytes =
    if ltb 0x10000 (length rom_bytes) then take 0x10000 rom_bytes else rom_bytes

-- The globals' initial values. `IME` is the runtime's.
abbrev pub initial_globals : {W : Type 0} → (ime : ℕ) → W → Machine W
initial_globals ime world = record {
  cycles = 0;
  a = 0;
  b = 0;
  c = 0;
  d = 0;
  e = 0;
  h = 0;
  l = 0;
  zero_flag = 0;
  sub_flag = 0;
  half_flag = 0;
  carry_flag = 0;
  pc = 0;
  sp = 0;
  ime = ime;
  world = world;
}

abbrev pub ram_store : (ℕ → ℕ) → ℕ → ℕ → ℕ → ℕ
ram_store ram i v a = if a == i then v else ram a

-- The block `copy`, from its index `i` on. A round is a pass through the block.
unfoldable pub copy_loop : ℕ → List ℕ → ℕ → (ℕ → ℕ) → Run (ℕ → ℕ)
copy_loop zero rom_image i ram = out_of_fuel
copy_loop (suc fuel) rom_image i ram =
    let ram' = ram_store ram i (get_or rom_image i 0) in
    let rest = copy_loop fuel rom_image (i + 1) ram' in
    if ltb (i + 1) (length rom_image) then rest else done ram'

-- `rom_init`, with a round for each byte.
unfoldable pub rom_init : List ℕ → (ℕ → ℕ) → Run (ℕ → ℕ)
unfolding copy_loop
rom_init rom_image ram =
    if not (length rom_image == 0) then copy_loop (length rom_image) rom_image 0 ram else done ram

copy_loop_lem :
    (fuel : ℕ) (rom_image : List ℕ) (i : ℕ) (ram : ℕ → ℕ)
    → i < length rom_image
    → length rom_image ≤ i + fuel
    → (ram' : ℕ → ℕ) × (copy_loop fuel rom_image i ram ≡ done ram')
      × ((a : ℕ)
          → ram' a ≡ (
              if ltb a i
              then ram a
              else if ltb a (length rom_image)
              then get_or rom_image a 0
              else ram a))
unfolding copy_loop
copy_loop_lem zero rom_image i ram h enough = absurd (omega arith)
copy_loop_lem (suc fuel) rom_image i ram h enough =
    elim (Bool-cases (ltb (i + 1) (length rom_image))) [
      | inl more ↦
          let (ram', e, holds) =
            copy_loop_lem fuel rom_image (i + 1) (ram_store ram i (get_or rom_image i 0))
              (ltb→lt _ _ more) (omega arith) in
          (ram', rw more e, λ a. ground (arith, holds a))
      | inr last ↦ (
        ram_store ram i (get_or rom_image i 0),
        rw last refl,
        λ a. ground (arith, ltb-false _ _ last),
      )
    ]

-- For any image and memory, `rom_init` returns: it leaves the image's bytes at the addresses below
-- the image's length, and every other byte of the memory as it was.
pub rom_init_copies :
    (rom_image : List ℕ) (ram : ℕ → ℕ)
    → (ram' : ℕ → ℕ) × (rom_init rom_image ram ≡ done ram')
      × ((a : ℕ) → ram' a ≡ (if ltb a (length rom_image) then get_or rom_image a 0 else ram a))
unfolding rom_init
rom_init_copies rom_image ram = elim (Bool-cases (length rom_image == 0)) [
  | inl empty ↦ (ram, rw empty refl, λ a. ground arith)
  | inr some_bytes ↦
      let (ram', e, holds) =
        copy_loop_lem (length rom_image) rom_image 0 ram (ground arith) (omega arith) in
      (ram', rw some_bytes e, λ a. ground (arith, holds a))
]
