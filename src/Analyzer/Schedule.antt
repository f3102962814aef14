-- ===== src/Analyzer/Schedule.antt =====
-- The queue and the slice `blockStart`: an address is enqueued at most once.
use gbrc.Common.{
  ℕ, zero, suc, ◌+◌, ◌≤◌, ◌<◌, ◌≡◌, refl, true, false, not, ◌&&◌, ltb, if◌then◌else◌, List, [], ◌∷◌,
  arith, ◌⊎◌, one_of, ℕ_discrete, Bool-cases, inl, inr, length, length-append, All, All-append,
  All-map, ◌∙◌,
}
use gbrc.Analyzer.Types.{rom_end, Starts, State}
use gbrc.Analyzer.Arrays.{mark, enqueue, enqueue_all}

-- How many of the first `n` addresses are not marked.
pub unmarked : ℕ → Starts → ℕ
unmarked zero starts = 0
unmarked (suc n) starts = unmarked n starts + (if starts n then 0 else 1)

pub unmarked_none : (n : ℕ) → unmarked n (λ _. false) ≡ n
unfolding unmarked
unmarked_none zero = refl
unmarked_none (suc n) = omega (arith, unmarked_none n)

unmarked_above :
    (n : ℕ) (starts : Starts) (a : ℕ) → n ≤ a → unmarked n (mark starts a) ≡ unmarked n starts
unfolding unmarked
unmarked_above zero starts a h = refl
unmarked_above (suc n) starts a h = ground (arith, unmarked_above n starts a)

unmarked-mark :
    (n : ℕ) (starts : Starts) (a : ℕ)
    → a < n
    → starts a ≡ false
    → unmarked n (mark starts a) + 1 ≡ unmarked n starts
unfolding unmarked
unmarked-mark zero starts a h e = absurd (omega arith)
unmarked-mark (suc n) starts a h e = elim (ℕ_discrete a n) [
  | yes same ↦ ground (arith, unmarked_above n starts a)
  | no other ↦ ground (arith, unmarked-mark n starts a)
]

abbrev pub Marks : Starts → ℕ → Type 0
Marks starts a = starts a ≡ true

abbrev pub Queued : State → Type 0
Queued s = All (λ q. (q < rom_end) × Marks s.block_start q) s.queue

-- What the main loop's length is measured by.
abbrev pub work : State → ℕ
work s = unmarked rom_end s.block_start + length s.queue

-- From `s` to `s'` only marks were set and their addresses queued.
pub record Schedules (s s' : State) : Type 0 where
  pub grows : (a : ℕ) → Marks s.block_start a → Marks s'.block_start a
  pub queued : Queued s → Queued s'
  pub work_same : work s' ≡ work s
  pub decoder : s'.decoder ≡ s.decoder
  pub owned_by : s'.owned_by ≡ s.owned_by
  pub blocks : s'.blocks ≡ s.blocks

Schedules-refl : (s : State) → Schedules s s
Schedules-refl s = record {
  grows = λ a h. h;
  queued = λ h. h;
  work_same = refl;
  decoder = refl;
  owned_by = refl;
  blocks = refl;
}

pub Schedules-trans : (s t u : State) → Schedules s t → Schedules t u → Schedules s u
Schedules-trans s t u h k = record {
  grows = λ a m. k.grows a (h.grows a m);
  queued = λ q. k.queued (h.queued q);
  work_same = k.work_same ∙ h.work_same;
  decoder = k.decoder ∙ h.decoder;
  owned_by = k.owned_by ∙ h.owned_by;
  blocks = k.blocks ∙ h.blocks;
}

-- Enqueueing any address loses no mark, keeps every queued address in the ROM and marked, keeps the
-- number of unmarked addresses plus the queue's length, and changes neither the decoder nor ownedBy
-- nor the blocks. If the address is in the ROM it is marked afterwards.
pub enqueue-Schedules :
    (s : State) (addr : ℕ)
    → Schedules s (enqueue s addr) × (addr < rom_end → Marks (enqueue s addr).block_start addr)
unfolding enqueue
enqueue-Schedules s addr = elim (Bool-cases (ltb addr rom_end && not (s.block_start addr))) [
  | inl fresh ↦
      let grows : (a : ℕ) → Marks s.block_start a → Marks (mark s.block_start addr) a =
        λ a m. ground arith in
      let inside : addr < rom_end = ground arith in
      let clear : s.block_start addr ≡ false = ground arith in
      let marked : Marks (mark s.block_start addr) addr = ground arith in
      rw fresh (
        record {
          grows = grows;
          queued = λ q.
              All-append _ s.queue (addr ∷ []) (All-map _ _ (λ a h. (h.0, grows a h.1)) s.queue q)
                ((inside, marked), tt);
          work_same = omega (
            arith,
            unmarked-mark rom_end s.block_start addr inside clear,
            length-append s.queue (addr ∷ []),
          );
          decoder = refl;
          owned_by = refl;
          blocks = refl;
        },
        λ _. marked,
      )
  | inr old ↦ rw old (Schedules-refl s, λ inside. ground arith)
]

pub enqueue_all-Schedules : (s : State) (addrs : List ℕ) → Schedules s (enqueue_all s addrs)
unfolding enqueue_all
enqueue_all-Schedules s [] = Schedules-refl s
enqueue_all-Schedules s (addr ∷ addrs) =
    Schedules-trans s (enqueue s addr) (enqueue_all (enqueue s addr) addrs)
      (enqueue-Schedules s addr).0 (enqueue_all-Schedules (enqueue s addr) addrs)

pub enqueue_all-Marks :
    (s : State) (addrs : List ℕ)
    → All (λ a. a < rom_end) addrs
    → All (Marks (enqueue_all s addrs).block_start) addrs
unfolding enqueue_all
enqueue_all-Marks s [] h = tt
enqueue_all-Marks s (addr ∷ addrs) h = (
  (enqueue_all-Schedules (enqueue s addr) addrs).grows addr ((enqueue-Schedules s addr).1 h.0),
  enqueue_all-Marks (enqueue s addr) addrs h.1,
)

-- Only the addresses that are enqueued are marked anew.
enqueue-news :
    (s : State) (addr a : ℕ)
    → Marks (enqueue s addr).block_start a
    → Marks s.block_start a ⊎ (a ≡ addr)
unfolding enqueue
enqueue-news s addr a m = elim (Bool-cases (ltb addr rom_end && not (s.block_start addr))) [
  | inl fresh ↦ let m' : Marks (mark s.block_start addr) a = rw fresh at m in ground arith
  | inr old ↦ inl (rw old at m)
]

pub enqueue_all-news :
    (s : State) (addrs : List ℕ) (a : ℕ)
    → Marks (enqueue_all s addrs).block_start a
    → Marks s.block_start a ⊎ (one_of a addrs ≡ true)
unfolding enqueue_all
enqueue_all-news s [] a m = inl m
enqueue_all-news s (addr ∷ addrs) a m = elim (enqueue_all-news (enqueue s addr) addrs a m) [
  | inl before ↦ elim (enqueue-news s addr a before) [
    | inl old ↦ inl old
    | inr same ↦ inr (ground (arith, same))
  ]
  | inr later ↦ inr (ground (arith, later))
]
