-- ===== src/Process/Calls.antt =====
-- Any sequence of calls of process.c: which processes the table holds, and in which states.
use matrix_os.Prelude.{
  ℕ, suc, ◌≤◌, ◌<◌, ◌≡◌, inl, inr, refl, sym, ap, ◌∙◌, subst, arith, true, false, List, Option,
  none, some, ◌==◌, length, length-set, get_or, get_or-set_self, get_or-set_ne, set, Bool-cases,
  ==→eq, ==_false→ne,
}
use matrix_os.Prelude.Word.{add32}
use mathlib.Core.Bool.{true≢false}
use matrix_os.Process.{
  ProcessState, unused, ready, running, blocked, terminated, Pcb, Table, is_unused, is_ready,
  zeroed, find_unused, find_ready, set_state, new_pcb, enter_process, run_at, terminate_at,
}
use matrix_os.Process.Numbers.{
  Numbered, Numbered-bounds, find_unused-Numbered, set_state-Numbered, find_ready-some,
}

-- The current process is one that runs.
abbrev pub Current : Option ℕ → List Pcb → Type 0
Current none processes = Unit
Current (some i) processes = (i < length processes) × ((get_or processes i zeroed).state ≡ running)

pub record WellFormed (t : Table) : Type 0 where
  pub size : length t.processes ≡ 16
  pub numbered : Numbered 0 t.next_pid t.processes
  pub current : Current t.current t.processes

-- How far a process has come.
abbrev pub rank : ProcessState → ℕ
rank unused = 0
rank ready = 1
rank running = 2
rank blocked = 3
rank terminated = 4

abbrev pub state_of : Table → ℕ → ProcessState
state_of t i = (get_or t.processes i zeroed).state

-- A call keeps the table well formed, and no process goes back.
pub record Moves (t u : Table) : Type 0 where
  pub formed : WellFormed u
  pub forward : (i : ℕ) → rank (state_of t i) ≤ rank (state_of u i)

pub stays : (t : Table) → WellFormed t → Moves t t
stays t w = record { formed = w; forward = λ i. omega arith }

rank_unused : (s : ProcessState) → is_unused s ≡ true → s ≡ unused
rank_unused unused e = refl
rank_unused ready e = absurd (true≢false (sym e))
rank_unused running e = absurd (true≢false (sym e))
rank_unused blocked e = absurd (true≢false (sym e))
rank_unused terminated e = absurd (true≢false (sym e))

rank_ready : (s : ProcessState) → is_ready s ≡ true → s ≡ ready
rank_ready unused e = absurd (true≢false (sym e))
rank_ready ready e = refl
rank_ready running e = absurd (true≢false (sym e))
rank_ready blocked e = absurd (true≢false (sym e))
rank_ready terminated e = absurd (true≢false (sym e))

-- A write at one place that does not send the process there back.
forward_at :
    (processes : List Pcb) (d : ℕ) (new : Pcb)
    → d < length processes
    → rank (get_or processes d zeroed).state ≤ rank new.state
    → (i : ℕ)
    → rank (get_or processes i zeroed).state ≤ rank (get_or (set processes d new) i zeroed).state
forward_at processes d new inside up i = elim (Bool-cases (d == i)) [
  | inl e ↦
      subst
        (λ (i : ℕ).
          rank (get_or processes i zeroed).state
          ≤ rank (get_or (set processes d new) i zeroed).state)
        (==→eq d i e) (rw (get_or-set_self processes d new zeroed inside) up)
  | inr e ↦ rw (get_or-set_ne processes d i new zeroed (==_false→ne d i e)) (omega arith)
]

-- The current process does not move when another place is written.
Current-set :
    (current : Option ℕ) (processes : List Pcb) (d : ℕ) (new : Pcb)
    → is_unused (get_or processes d zeroed).state ≡ true
    → Current current processes
    → Current current (set processes d new)
Current-set none processes d new free tt = tt
Current-set (some i) processes d new free (inside, runs) =
    let elsewhere = λ (e : d ≡ i). true≢false (
      sym free
      ∙ (ap (λ (k : ℕ). is_unused (get_or processes k zeroed).state) e ∙ ap is_unused runs)) in
    (
      omega (arith, inside, length-set processes d new),
      ap (λ (p : Pcb). p.state) (get_or-set_ne processes d i new zeroed elsewhere) ∙ runs,
    )

module _ (t : Table) (w : WellFormed t) where
  entered-Moves :
      (place : ℕ) (new : Pcb)
      → find_unused 0 t.processes ≡ some place
      → new.state ≡ ready
      → new.pid ≡ t.next_pid
      → Moves t (record t { processes = set t.processes place new; next_pid = add32 t.next_pid 1 })
  entered-Moves place new found is_new number =
      let (d, at, inside, free, numbered) =
        find_unused-Numbered 0 0 t.next_pid place t.processes new found w.numbered
          (ap is_unused is_new) number in
      let (low, high) = Numbered-bounds 0 t.next_pid t.processes w.numbered in
      let (more, most) = Numbered-bounds 0 (suc t.next_pid) (set t.processes d new) numbered in
      let here : place ≡ d = omega (arith, at) in
      let free_here = ap (λ (k : ℕ). is_unused (get_or t.processes k zeroed).state) here ∙ free in
      record {
        formed = record {
          size = length-set t.processes place new ∙ w.size;
          numbered =
              subst (λ (n : ℕ). Numbered 0 n (set t.processes place new))
                (omega (arith, most, length-set t.processes d new, w.size))
                (subst (λ (k : ℕ). Numbered 0 (suc t.next_pid) (set t.processes k new)) (sym here)
                  numbered);
          current = Current-set t.current t.processes place new free_here w.current;
        };
        forward =
            forward_at t.processes place new (omega (arith, here, inside))
              (rw (rank_unused (get_or t.processes place zeroed).state free_here) (omega arith));
      }

  pub enter-Moves :
      (place dir stack : ℕ) (name : List ℕ)
      → find_unused 0 t.processes ≡ some place
      → Moves t (enter_process place name dir stack t)
  unfolding enter_process new_pcb
  enter-Moves place dir stack name found =
      entered-Moves place (new_pcb t.next_pid name dir stack (get_or t.processes place zeroed))
        found refl refl

  -- A change of state to one further on.
  changed-Moves :
      (place : ℕ) (state : ProcessState) (current : Option ℕ)
      → place < length t.processes
      → is_unused (state_of t place) ≡ false
      → is_unused state ≡ false
      → rank (state_of t place) ≤ rank state
      → Current current (set t.processes place (set_state state (get_or t.processes place zeroed)))
      → Moves t (record t {
        processes = set t.processes place (set_state state (get_or t.processes place zeroed));
        current = current;
      })
  changed-Moves place state current inside was still up now = record {
    formed = record {
      size =
          length-set t.processes place (set_state state (get_or t.processes place zeroed)) ∙ w.size;
      numbered = set_state-Numbered 0 t.next_pid place t.processes state w.numbered was still;
      current = now;
    };
    forward =
        forward_at t.processes place (set_state state (get_or t.processes place zeroed)) inside up;
  }

  pub run-Moves :
      (pid place : ℕ) → find_ready pid 0 t.processes ≡ some place → Moves t (run_at place t)
  unfolding run_at
  run-Moves pid place found =
      let (d, at, inside, is, number) = find_ready-some pid 0 place t.processes found in
      let here : place ≡ d = omega (arith, at) in
      let was = ap (λ (k : ℕ). state_of t k) here ∙ rank_ready (state_of t d) is in
      let new = set_state running (get_or t.processes place zeroed) in
      changed-Moves place running (some place) (omega (arith, here, inside)) (ap is_unused was) refl
        (rw was (omega arith))
        (
          omega (arith, here, inside, length-set t.processes place new),
          ap (λ (p : Pcb). p.state)
              (get_or-set_self t.processes place new zeroed (omega (arith, here, inside))),
        )

  pub terminate-Moves : (place : ℕ) → t.current ≡ some place → Moves t (terminate_at place t)
  unfolding terminate_at
  terminate-Moves place is =
      let (inside, runs) = subst (λ (c : Option ℕ). Current c t.processes) is w.current in
      changed-Moves place terminated none inside (ap is_unused runs) refl (rw runs (omega arith)) tt
