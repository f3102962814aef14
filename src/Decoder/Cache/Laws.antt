-- ===== src/Decoder/Cache/Laws.antt =====
-- The cache is transparent: a decoder that was only ever used through DecodeAt answers as if it
-- decoded anew.
use gbrc.Common.{
  ℕ, ◌≡◌, refl, ◌==◌, ==_iff, Bool-cases, some, Option-cases, List, [], ◌∷◌, Run, done, ◌>>=◌, inl,
  inr,
}
use gbrc.Rom.{Rom}
use gbrc.Rom.Image.{IsImage}
use gbrc.Decoder.Types.{Instruction}
use gbrc.Decoder.Fetch.{decode_fresh-IsDecoded}
use gbrc.Decoder.Cache.{Decoder, new, put, decode_fresh, decode_at}

-- Every cached instruction is the one that decoding anew gives.
pub record IsConsistent (rom : Rom) (d : Decoder) : Type 0 where
  pub same_rom : d.rom ≡ rom
  pub cached : (a : ℕ) (i : Instruction) → d.cache a ≡ some i → decode_fresh rom a ≡ done i

pub new-IsConsistent : (rom : Rom) → IsConsistent rom (new rom)
unfolding new
new-IsConsistent rom = record { same_rom = refl; cached = λ a i e. cc }

put-cached :
    (rom : Rom) (d : Decoder) (addr : ℕ) (instr : Instruction)
    → IsConsistent rom d
    → decode_fresh rom addr ≡ done instr
    → (a : ℕ) (i : Instruction) → put d.cache addr instr a ≡ some i
    → decode_fresh rom a ≡ done i
put-cached rom d addr instr h e a i hit = elim (Bool-cases (a == addr)) [
  | inl same ↦ let found = rw same at hit in rw ((==_iff a addr).0 same) (cc)
  | inr other ↦ h.cached a i (rw other at hit)
]

pub decode_at-IsConsistent :
    (rom : Rom) (d : Decoder) (addr : ℕ)
    → IsImage rom
    → IsConsistent rom d
    → (i : Instruction) × (d' : Decoder) × (decode_at d addr ≡ done (i, d'))
      × (decode_fresh rom addr ≡ done i)
      × IsConsistent rom d'
unfolding decode_at
decode_at-IsConsistent rom d addr image h = elim (Option-cases (d.cache addr)) [
  | inl miss ↦
      let (i, e, _) = decode_fresh-IsDecoded rom addr image in
      let fresh : decode_fresh d.rom addr ≡ done i = rw h.same_rom e in
      (
        i,
        record d { cache = put d.cache addr i },
        rw (miss, decode_at, fresh),
        e,
        record { same_rom = h.same_rom; cached = put-cached rom d addr i h e },
      )
  | inr (i, hit) ↦ (i, d, rw (hit, decode_at), h.cached addr i hit, h)
]

-- Decoding at each address of a list in turn, behind the cache and without one.
pub decode_each : Decoder → List ℕ → Run (List Instruction)
decode_each d [] = done []
decode_each d (addr ∷ addrs) =
    decode_at d addr >>= λ (i, d'). decode_each d' addrs >>= λ is. done (i ∷ is)

pub decode_each_fresh : Rom → List ℕ → Run (List Instruction)
decode_each_fresh rom [] = done []
decode_each_fresh rom (addr ∷ addrs) =
    decode_fresh rom addr >>= λ i. decode_each_fresh rom addrs >>= λ is. done (i ∷ is)

-- For an image and a decoder whose cache agrees with it, decoding any list of addresses one after
-- the other, with the cache threaded through, gives the same instructions as decoding each with
-- nothing cached.
pub decode_each-eq-fresh :
    (rom : Rom) (d : Decoder) (addrs : List ℕ)
    → IsImage rom
    → IsConsistent rom d
    → decode_each d addrs ≡ decode_each_fresh rom addrs
unfolding decode_each decode_each_fresh
decode_each-eq-fresh rom d [] image h = refl
decode_each-eq-fresh rom d (addr ∷ addrs) image h =
    let (i, d', hit, fresh, h') = decode_at-IsConsistent rom d addr image h in
    rw (hit, fresh, decode_each-eq-fresh rom d' addrs image h')
