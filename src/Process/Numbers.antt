-- ===== src/Process/Numbers.antt =====
-- The places of the process table are filled from the first on and never used again.
use matrix_os.Prelude.{
  ℕ, zero, suc, ◌+◌, ◌≤◌, ◌<◌, ◌≡◌, ◌≢◌, inl, inr, refl, sym, ◌∙◌, arith, true, false, List, [],
  ◌∷◌, none, some, ◌==◌, ◌&&◌, length, get_or, set, replicate, Bool-cases, and_left, and_right,
  ==→eq,
}
use mathlib.Core.Option.{some-injective, some-ne-none}
use mathlib.Core.Bool.{true≢false}
use matrix_os.Process.{
  ProcessState, Pcb, is_unused, is_ready, zeroed, find_unused, find_ready, set_state,
}

abbrev pub AllUnused : List Pcb → Type 0
AllUnused [] = Unit
AllUnused (p ∷ processes) = (is_unused p.state ≡ true) × AllUnused processes

pub all_zeroed : (n : ℕ) → AllUnused (replicate n zeroed)
all_zeroed zero = tt
all_zeroed (suc n) = (refl, all_zeroed n)

-- From place `i` on: processes with the numbers i + 1, i + 2 and so on up to the one before `next`,
-- and unused places behind them.
pub data Numbered : ℕ → ℕ → List Pcb → Type 0 where
  behind : (i : ℕ) (processes : List Pcb) → AllUnused processes → Numbered i (suc i) processes
  process :
      (i next : ℕ) (p : Pcb) (processes : List Pcb)
      → is_unused p.state ≡ false
      → p.pid ≡ suc i
      → Numbered (suc i) next processes
      → Numbered i next (p ∷ processes)

pub Numbered-bounds :
    (i next : ℕ) (processes : List Pcb)
    → Numbered i next processes
    → (i < next) × (next ≤ i + length processes + 1)
Numbered-bounds i _ _ (behind _ processes free) = (omega arith, omega arith)
Numbered-bounds i next _ (process _ _ p processes used number rest) =
    let (low, high) = Numbered-bounds (suc i) next processes rest in (omega arith, omega arith)

-- The search finds the first unused place, and a process entered there gets the next number.
pub find_unused-Numbered :
    (j i next q : ℕ) (processes : List Pcb) (new : Pcb)
    → find_unused j processes ≡ some q
    → Numbered i next processes
    → is_unused new.state ≡ false
    → new.pid ≡ next
    → (d : ℕ) × (q ≡ j + d)
      × (d < length processes)
      × (is_unused (get_or processes d zeroed).state ≡ true)
      × Numbered i (suc next) (set processes d new)
unfolding find_unused
find_unused-Numbered j i _ q _ new found (behind _ [] free) fresh number =
    absurd (some-ne-none q (sym found))
find_unused-Numbered j i _ q _ new found (behind _ (p ∷ processes) free) fresh number =
    let here : find_unused j (p ∷ processes) ≡ some j = rw free.0 refl in
    (
      0,
      omega (arith, some-injective j q (sym here ∙ found)),
      omega arith,
      free.0,
      process i (suc (suc i)) new processes fresh number (behind (suc i) processes free.1),
    )
find_unused-Numbered j i next q _ new found (process _ _ p processes used own rest) fresh number =
    let on : find_unused j (p ∷ processes) ≡ find_unused (j + 1) processes = rw used refl in
    let (d, place, inside, free, numbered) =
      find_unused-Numbered (j + 1) (suc i) next q processes new (sym on ∙ found) rest fresh
        number in
    (
      suc d,
      omega (arith, place),
      omega (arith, inside),
      free,
      process i (suc next) p (set processes d new) used own numbered,
    )

-- With all places taken there is none to find.
pub find_unused-full :
    (j i next : ℕ) (processes : List Pcb)
    → Numbered i next processes
    → next ≡ i + length processes + 1
    → find_unused j processes ≡ none
unfolding find_unused
find_unused-full j i _ _ (behind _ [] free) full = refl
find_unused-full j i _ _ (behind _ (p ∷ processes) free) full = absurd (omega arith)
find_unused-full j i next _ (process _ _ p processes used own rest) full =
    rw used (find_unused-full (j + 1) (suc i) next processes rest (omega arith))

unused_there :
    (processes : List Pcb) (d : ℕ)
    → AllUnused processes
    → is_unused (get_or processes d zeroed).state ≢ false
unused_there [] d free e = true≢false e
unused_there (p ∷ processes) zero free e = true≢false (sym free.0 ∙ e)
unused_there (p ∷ processes) (suc d) free e = unused_there processes d free.1 e

-- A change of the state of a process, but not to unused.
pub set_state-Numbered :
    (i next d : ℕ) (processes : List Pcb) (state : ProcessState)
    → Numbered i next processes
    → is_unused (get_or processes d zeroed).state ≡ false
    → is_unused state ≡ false
    → Numbered i next (set processes d (set_state state (get_or processes d zeroed)))
set_state-Numbered i _ d _ state (behind _ processes free) was still =
    absurd (unused_there processes d free was)
set_state-Numbered i next zero _ state (process _ _ p processes used own rest) was still =
    process i next (set_state state p) processes still own rest
set_state-Numbered i next (suc d) _ state (process _ _ p processes used own rest) was still =
    process i next p (set processes d (set_state state (get_or processes d zeroed))) used own
      (set_state-Numbered (suc i) next d processes state rest was still)

-- What the search for a ready process finds.
pub find_ready-some :
    (pid j q : ℕ) (processes : List Pcb)
    → find_ready pid j processes ≡ some q
    → (d : ℕ) × (q ≡ j + d)
      × (d < length processes)
      × (is_ready (get_or processes d zeroed).state ≡ true)
      × ((get_or processes d zeroed).pid ≡ pid)
unfolding find_ready
find_ready-some pid j q [] found = absurd (some-ne-none q (sym found))
find_ready-some pid j q (p ∷ processes) found =
    elim (Bool-cases ((p.pid == pid) && is_ready p.state)) [
      | inl e ↦
          let here : find_ready pid j (p ∷ processes) ≡ some j = rw e refl in
          (
            0,
            omega (arith, some-injective j q (sym here ∙ found)),
            omega arith,
            and_right (p.pid == pid) (is_ready p.state) e,
            ==→eq p.pid pid (and_left (p.pid == pid) (is_ready p.state) e),
          )
      | inr e ↦
          let on : find_ready pid j (p ∷ processes) ≡ find_ready pid (j + 1) processes =
            rw e refl in
          let (d, place, inside, is, number) =
            find_ready-some pid (j + 1) q processes (sym on ∙ found) in
          (suc d, omega (arith, place), omega (arith, inside), is, number)
    ]
