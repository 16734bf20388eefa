-- ===== src/Process/History.antt =====
-- The process table over any history of calls.
use matrix_os.Prelude.{
  ℕ, ◌≤◌, ◌≡◌, inl, inr, refl, sym, ap, subst, arith, List, Option, none, some, ◌==◌, length,
  get_or, Bool-cases, Option-cases, replicate,
}
use mathlib.Core.Option.{some-injective, some-ne-none}
use matrix_os.Loader.{Loader, Module, no_module, loader_find_module}
use matrix_os.Paging.{Mm}
use matrix_os.Vmm.{take_page, vmm_create_user_space, vmm_load_user_program, vmm_destroy_user_space}
use matrix_os.Process.{
  Table, Machine, zeroed, find_unused, find_ready, enter_process, verify_mapping, finish_process,
  load_process, create_at, process_create_from_module, process_start, exit_at, process_exit_current,
}
use matrix_os.Process.Numbers.{Numbered, behind, all_zeroed, find_unused-full}
use matrix_os.Process.Calls.{
  WellFormed, Current, rank, state_of, Moves, stays, enter-Moves, run-Moves, terminate-Moves,
}

-- What a creation does to the table: nothing, or one process more.
pub data Creates (t : Table) : Option (ℕ × Machine) → Type 0 where
  hangs : Creates t none
  refuses : (s : Mm) → Creates t (some (0, record { table = t; mm = s }))
  enters :
      (place dir stack : ℕ) (name : List ℕ) (s : Mm)
      → find_unused 0 t.processes ≡ some place
      → Creates t
          (some (t.next_pid, record { table = enter_process place name dir stack t; mm = s }))

module _ (place : ℕ) (name : List ℕ) (t : Table)
    (found : find_unused 0 t.processes ≡ some place) where
  finish-Creates : (dir loaded : ℕ) (s : Mm) → Creates t (finish_process place name dir loaded t s)
  unfolding finish_process
  finish-Creates dir loaded s = elim (Bool-cases (loaded == 0)) [
    | inl e ↦ rw e (refuses (vmm_destroy_user_space dir s))
    | inr e ↦ elim (Bool-cases ((take_page s).0 == 0)) [
      | inl f ↦ rw (e, f) (refuses (vmm_destroy_user_space dir (take_page s).1))
      | inr f ↦ elim (Option-cases (verify_mapping dir (take_page s).1)) [
        | inl g ↦ rw (e, f, g) hangs
        | inr (v, g) ↦ rw (e, f, g) (enters place dir (take_page s).0 name v found)
      ]
    ]
  ]

  load-Creates : (m : Module) (dir : ℕ) (s : Mm) → Creates t (load_process place name m dir t s)
  unfolding load_process
  load-Creates m dir s = elim (Bool-cases (dir == 0)) [
    | inl e ↦ rw e (refuses s)
    | inr e ↦ elim (Option-cases (vmm_load_user_program dir m.start m.size s)) [
      | inl f ↦ rw (e, f) hangs
      | inr ((loaded, filled), f) ↦ rw (e, f) (finish-Creates dir loaded filled)
    ]
  ]

create_at-Creates :
    (place : ℕ) (name : List ℕ) (m : Module) (k : Machine)
    → find_unused 0 k.table.processes ≡ some place
    → Creates k.table (create_at place name m k)
unfolding create_at
create_at-Creates place name m k found = elim (Option-cases (vmm_create_user_space k.mm)) [
  | inl e ↦ rw e hangs
  | inr ((dir, created), e) ↦ rw e (load-Creates place name k.table found m dir created)
]

create-Creates :
    (name : List ℕ) (l : Loader) (k : Machine)
    → Creates k.table (process_create_from_module name l k)
unfolding process_create_from_module
create-Creates name l k = elim (Option-cases (loader_find_module name l)) [
  | inl e ↦ rw (e, process_create_from_module) (refuses k.mm)
  | inr (i, e) ↦ elim (Option-cases (find_unused 0 k.table.processes)) [
    | inl f ↦ rw (e, f, process_create_from_module) (refuses k.mm)
    | inr (place, f) ↦
        rw (e, f, process_create_from_module)
          (create_at-Creates place name (get_or l.modules i no_module) k f)
  ]
]

Creates-Moves :
    (t : Table) (pid : ℕ) (k : Machine) (result : Option (ℕ × Machine))
    → WellFormed t
    → result ≡ some (pid, k)
    → Creates t result
    → Moves t k.table
Creates-Moves t pid k _ w e hangs = absurd (some-ne-none (pid, k) (sym e))
Creates-Moves t pid k _ w e (refuses s) =
    subst (λ (r : ℕ × Machine). Moves t r.1.table) (some-injective _ (pid, k) e) (stays t w)
Creates-Moves t pid k _ w e (enters place dir stack name s found) =
    subst (λ (r : ℕ × Machine). Moves t r.1.table) (some-injective _ (pid, k) e)
      (enter-Moves t w place dir stack name found)

-- The calls of process.c that return, and whatever else happens to the memory.
pub data Call (k : Machine) : Machine → Type 0 where
  create :
      (name : List ℕ) (l : Loader) (pid : ℕ) (after : Machine)
      → process_create_from_module name l k ≡ some (pid, after)
      → Call k after
  starts : (pid : ℕ) → Call k (record k { table = (process_start pid k.table).0 })
  exits : Call k (process_exit_current k)
  other : (s : Mm) → Call k (record k { mm = s })

pub data Reach (k : Machine) : Machine → Type 0 where
  here : Reach k k
  next : {m n : Machine} → Reach k m → Call m n → Reach k n

start-Moves : (pid : ℕ) (t : Table) → WellFormed t → Moves t (process_start pid t).0
unfolding process_start
start-Moves pid t w = elim (Option-cases (find_ready pid 0 t.processes)) [
  | inl e ↦ rw (e, process_start) (stays t w)
  | inr (place, e) ↦ rw (e, process_start) (run-Moves t w pid place e)
]

exit_at-Moves :
    (c : Option ℕ) (k : Machine)
    → WellFormed k.table
    → k.table.current ≡ c
    → Moves k.table (exit_at c k).table
unfolding exit_at
exit_at-Moves none k w is = stays k.table w
exit_at-Moves (some place) k w is = terminate-Moves k.table w place is

pub Call-Moves : (k m : Machine) → Call k m → WellFormed k.table → Moves k.table m.table
unfolding process_exit_current
Call-Moves k _ (create name l pid after e) w =
    Creates-Moves k.table pid after (process_create_from_module name l k) w e
      (create-Creates name l k)
Call-Moves k _ (starts pid) w = start-Moves pid k.table w
Call-Moves k _ exits w = exit_at-Moves k.table.current k w refl
Call-Moves k _ (other s) w = stays k.table w

Reach-Moves : (k m : Machine) → Reach k m → WellFormed k.table → Moves k.table m.table
Reach-Moves k _ here w = stays k.table w
Reach-Moves k m (next {m = between} reach call) w =
    let before = Reach-Moves k between reach w in
    let last = Call-Moves between m call before.formed in
    record { formed = last.formed; forward = λ i. omega (arith, before.forward i, last.forward i) }

-- A table as process_init leaves it, with the first number 1 and no current process.
pub record IsFresh (t : Table) : Type 0 where
  pub processes : t.processes ≡ replicate 16 zeroed
  pub current : t.current ≡ none
  pub next_pid : t.next_pid ≡ 1

pub fresh-WellFormed : (t : Table) → IsFresh t → WellFormed t
fresh-WellFormed t f = record {
  size = ap length f.processes;
  numbered =
      subst (λ (n : ℕ). Numbered 0 n t.processes) (sym f.next_pid)
        (subst (Numbered 0 1) (sym f.processes) (behind 0 (replicate 16 zeroed) (all_zeroed 16)));
  current = subst (λ (c : Option ℕ). Current c t.processes) (sym f.current) tt;
}

-- From a fresh table on, over any sequence of process_create_from_module, process_start and
-- process_exit_current, whatever happens to the memory between them: the table keeps 16 places; the
-- processes stand in the first places, place i has the number i + 1, the places behind are unused;
-- the next number is one more than that of the last; and the current process, if any, runs.
pub processes-WellFormed : (k m : Machine) → IsFresh k.table → Reach k m → WellFormed m.table
processes-WellFormed k m fresh reach =
    let moves = Reach-Moves k m reach (fresh-WellFormed k.table fresh) in moves.formed

-- Over any such sequence that begins with a well-formed table the state of no place goes back in the
-- order unused, ready, running, blocked, terminated: no place is used a second time.
pub processes_forward :
    (k m : Machine) (i : ℕ)
    → WellFormed k.table
    → Reach k m
    → rank (state_of k.table i) ≤ rank (state_of m.table i)
processes_forward k m i w reach = let moves = Reach-Moves k m reach w in moves.forward i

-- In a well-formed table whose next number is 17, whatever of its processes has ended, process_create_from_module answers 0 for
-- every module and changes nothing.
pub sixteen_processes :
    (m : Machine) (name : List ℕ) (l : Loader)
    → WellFormed m.table
    → m.table.next_pid ≡ 17
    → process_create_from_module name l m ≡ some (0, m)
unfolding process_create_from_module
sixteen_processes m name l w sixteen =
    let full =
      find_unused-full 0 0 m.table.next_pid m.table.processes w.numbered
        (omega (arith, sixteen, w.size)) in
    elim (Option-cases (loader_find_module name l)) [
      | inl e ↦ rw (e, process_create_from_module) refl
      | inr (i, e) ↦ rw (e, full, process_create_from_module) refl
    ]
