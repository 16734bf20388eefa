-- ===== src/Process.antt =====
-- kernel/process/process.c: the table of processes over the page allocator, the temporary mappings
-- and the modules. `none` is a kernel that does not go on, as in the memory manager. What the kernel
-- writes to its log is left out, but for the list of processes.
pub mod Numbers
pub mod Calls
pub mod History
pub mod Exit
mod Tests
use matrix_os.Prelude.{
  ℕ, zero, suc, ◌+◌, ◌*◌, ◌%◌, ◌^◌, Bool, true, false, ◌&&◌, List, [], ◌∷◌, Option, none, some,
  ◌==◌, if◌then◌else◌, get_or, set, replicate, ◌>>=◌,
}
use matrix_os.Prelude.Word.{add32, sub32, align_down}
use matrix_os.CString.{strncpy}
use matrix_os.Loader.{Loader, Module, no_module, loader_find_module}
use matrix_os.Paging.{Mm, load_word, translate, temp_map_page, temp_unmap_page}
use matrix_os.Pmm.{page_size}
use matrix_os.Vmm.{
  take_page, give_page, vmm_create_user_space, vmm_destroy_user_space, vmm_load_user_program,
}
use Prim.Native.Nat.{bit_and}

abbrev pub max_processes : ℕ
max_processes = 16

abbrev pub user_stack_top : ℕ
user_stack_top = 0xBFFF_FFFB

-- `process_state_t`.
pub data ProcessState : Type 0 where
  unused : ProcessState
  ready : ProcessState
  running : ProcessState
  blocked : ProcessState
  terminated : ProcessState

-- `pcb_t`.
pub record Pcb : Type 0 where
  pub pid : ℕ
  pub state : ProcessState
  pub name : List ℕ
  pub page_directory : ℕ
  pub entry_point : ℕ
  pub user_stack : ℕ
  pub kernel_stack : ℕ
  pub cr3_snapshot : ℕ

-- `current` is the place of the process that `current_process` points to.
pub record Table : Type 0 where
  pub processes : List Pcb
  pub current : Option ℕ
  pub next_pid : ℕ

-- The table with the memory that its processes live in.
pub record Machine : Type 0 where
  pub table : Table
  pub mm : Mm

abbrev pub zeroed : Pcb
zeroed = record {
  pid = 0;
  state = unused;
  name = replicate 32 0;
  page_directory = 0;
  entry_point = 0;
  user_stack = 0;
  kernel_stack = 0;
  cr3_snapshot = 0;
}

abbrev pub is_unused : ProcessState → Bool
is_unused unused = true
is_unused _ = false

abbrev pub is_ready : ProcessState → Bool
is_ready ready = true
is_ready _ = false

unfoldable pub process_init : Table → Table
process_init t = record t { processes = replicate max_processes zeroed }

-- The loop for an unused place from number `i` on.
unfoldable pub find_unused : ℕ → List Pcb → Option ℕ
find_unused i [] = none
find_unused i (p ∷ processes) =
    let rest = find_unused (i + 1) processes in if is_unused p.state then some i else rest

-- The loop for a ready process of a number.
unfoldable pub find_ready : ℕ → ℕ → List Pcb → Option ℕ
find_ready pid i [] = none
find_ready pid i (p ∷ processes) =
    let rest = find_ready pid (i + 1) processes in
    if (p.pid == pid) && is_ready p.state then some i else rest

-- The look at the user's code page, which the log wants at 0x2101000.
unfoldable pub verify_code : ℕ → Mm → Option Mm
verify_code page s =
    if page == 0x210_1000
    then (do
      (temp_user_page, t) ← temp_map_page page s
      code ← translate temp_user_page t
      temp_unmap_page temp_user_page t)
    else some s

-- The look at the page table that an entry of the directory names.
unfoldable pub verify_table : ℕ → Mm → Option Mm
verify_table page_table_phys s = do
  (temp_table, t) ← temp_map_page page_table_phys s
  at ← translate temp_table t
  seen ←
      if bit_and (load_word t.phys at) 1 == 0
      then some t
      else verify_code (align_down (load_word t.phys at) page_size) t
  temp_unmap_page temp_table seen

unfoldable pub verify_mapping : ℕ → Mm → Option Mm
verify_mapping user_page_dir s = do
  (temp_page_dir, t) ← temp_map_page user_page_dir s
  at ← translate temp_page_dir t
  seen ←
      if bit_and (load_word t.phys at) 1 == 0
      then some t
      else verify_table (align_down (load_word t.phys at) page_size) t
  temp_unmap_page temp_page_dir seen

-- What is written to the place of a new process.
unfoldable pub new_pcb : ℕ → List ℕ → ℕ → ℕ → Pcb → Pcb
new_pcb pid module_name user_page_dir kernel_stack p = record p {
  pid = pid;
  state = ready;
  name = strncpy p.name module_name 31;
  page_directory = user_page_dir;
  entry_point = 0;
  user_stack = user_stack_top;
  kernel_stack = add32 kernel_stack page_size;
}

unfoldable pub enter_process : ℕ → List ℕ → ℕ → ℕ → Table → Table
enter_process place module_name user_page_dir kernel_stack t = record t {
  processes =
      set t.processes place (
        new_pcb t.next_pid module_name user_page_dir kernel_stack
          (get_or t.processes place zeroed));
  next_pid = add32 t.next_pid 1;
}

-- After the load of the program: `loaded` is its answer.
unfoldable pub finish_process : ℕ → List ℕ → ℕ → ℕ → Table → Mm → Option (ℕ × Machine)
finish_process place module_name user_page_dir loaded t s =
    let (kernel_stack, taken) = take_page s in
    if loaded == 0
    then some (0, record { table = t; mm = vmm_destroy_user_space user_page_dir s })
    else if kernel_stack == 0
    then some (0, record { table = t; mm = vmm_destroy_user_space user_page_dir taken })
    else (do
      verified ← verify_mapping user_page_dir taken
      some (
        t.next_pid,
        record {
          table = enter_process place module_name user_page_dir kernel_stack t;
          mm = verified;
        },
      ))

-- With the answer of `vmm_create_user_space`.
unfoldable pub load_process : ℕ → List ℕ → Module → ℕ → Table → Mm → Option (ℕ × Machine)
load_process place module_name m user_page_dir t s =
    if user_page_dir == 0 then some (0, record { table = t; mm = s }) else (do
      (loaded, filled) ← vmm_load_user_program user_page_dir m.start m.size s
      finish_process place module_name user_page_dir loaded t filled)

-- With a module and an unused place.
unfoldable pub create_at : ℕ → List ℕ → Module → Machine → Option (ℕ × Machine)
create_at place module_name m k = do
  (user_page_dir, created) ← vmm_create_user_space k.mm
  load_process place module_name m user_page_dir k.table created

-- A module's number stands for the pointer to it.
unfoldable pub process_create_from_module : List ℕ → Loader → Machine → Option (ℕ × Machine)
process_create_from_module module_name l k = elim (loader_find_module module_name l) [
  | none ↦ some (0, k)
  | some i ↦ elim (find_unused 0 k.table.processes) [
    | none ↦ some (0, k)
    | some place ↦ create_at place module_name (get_or l.modules i no_module) k
  ]
]

abbrev pub set_state : ProcessState → Pcb → Pcb
set_state state p = record p { state = state }

unfoldable pub run_at : ℕ → Table → Table
run_at place t = record t {
  processes = set t.processes place (set_state running (get_or t.processes place zeroed));
  current = some place;
}

-- The table, and what `switch_to_user_mode` is called with.
unfoldable pub process_start : ℕ → Table → Table × Option (ℕ × ℕ × ℕ)
process_start pid t = elim (find_ready pid 0 t.processes) [
  | none ↦ (t, none)
  | some place ↦
      let pcb = get_or t.processes place zeroed in
      (run_at place t, some (pcb.page_directory, pcb.entry_point, pcb.user_stack))
]

unfoldable pub terminate_at : ℕ → Table → Table
terminate_at place t = record t {
  processes = set t.processes place (set_state terminated (get_or t.processes place zeroed));
  current = none;
}

unfoldable pub exit_at : Option ℕ → Machine → Machine
exit_at none k = k
exit_at (some place) k =
    let pcb = get_or k.table.processes place zeroed in
    let destroyed = vmm_destroy_user_space pcb.page_directory k.mm in
    record {
      table = terminate_at place k.table;
      mm = give_page (sub32 pcb.kernel_stack page_size) destroyed;
    }

unfoldable pub process_exit_current : Machine → Machine
unfolding exit_at
process_exit_current k = exit_at k.table.current k

unfoldable pub process_get_current : Table → Option ℕ
process_get_current t = t.current

unfoldable pub state_text : ProcessState → List ℕ
state_text ready = b'R' ∷ b'E' ∷ b'A' ∷ b'D' ∷ b'Y' ∷ []
state_text running = b'R' ∷ b'U' ∷ b'N' ∷ b'N' ∷ b'I' ∷ b'N' ∷ b'G' ∷ []
state_text terminated = b'T' ∷ b'E' ∷ b'R' ∷ b'M' ∷ b'I' ∷ b'N' ∷ b'A' ∷ b'T' ∷ b'E' ∷ b'D' ∷ []
state_text blocked = b'B' ∷ b'L' ∷ b'O' ∷ b'C' ∷ b'K' ∷ b'E' ∷ b'D' ∷ []
state_text unused = b'U' ∷ b'N' ∷ b'K' ∷ b'N' ∷ b'O' ∷ b'W' ∷ b'N' ∷ []

-- The lines of the list: number, name and state of each process.
unfoldable pub process_list : List Pcb → List (ℕ × List ℕ × List ℕ)
process_list [] = []
process_list (p ∷ processes) =
    let rest = process_list processes in
    if is_unused p.state then rest else (p.pid, p.name, state_text p.state) ∷ rest
