-- ===== src/Loader.antt =====
-- kernel/process/loader.c: the modules that GRUB loaded. A name is the list of the 32 bytes of its
-- array; the records at `mods_addr` are a list, a string pointer is `none` for NULL.
pub mod Search
mod Tests
use matrix_os.Prelude.{
  ℕ, zero, suc, ◌+◌, ◌<◌, ◌≡◌, Bool, List, [], ◌∷◌, Option, none, some, ◌==◌, ltb, leb,
  if◌then◌else◌, get_elem?, get_or, set, replicate,
}
use matrix_os.Prelude.Word.{sub32}
use matrix_os.CString.{strncpy, strcpy, strcmp}
use matrix_os.Vfs.{is_zero}

abbrev pub max_modules : ℕ
max_modules = 16

-- `module_info_t`.
pub record Module : Type 0 where
  pub name : List ℕ
  pub start : ℕ
  pub end : ℕ
  pub size : ℕ

-- `multiboot_module_t`, without its reserved word.
pub record GrubModule : Type 0 where
  pub mod_start : ℕ
  pub mod_end : ℕ
  pub string : Option (List ℕ)

pub record Loader : Type 0 where
  pub modules : List Module
  pub module_count : ℕ

abbrev pub no_module : Module
no_module = record { name = replicate 32 0; start = 0; end = 0; size = 0 }

-- What the kernel's zeroed data holds before `loader_init`.
abbrev pub empty_loader : Loader
empty_loader = record { modules = replicate 16 no_module; module_count = 0 }

abbrev pub hello : List ℕ
hello = b'h' ∷ b'e' ∷ b'l' ∷ b'l' ∷ b'o' ∷ 0 ∷ []

abbrev file_test : List ℕ
file_test = b'f' ∷ b'i' ∷ b'l' ∷ b'e' ∷ b'_' ∷ b't' ∷ b'e' ∷ b's' ∷ b't' ∷ 0 ∷ []

abbrev demo : List ℕ
demo = b'd' ∷ b'e' ∷ b'm' ∷ b'o' ∷ 0 ∷ []

abbrev user_program : List ℕ
user_program =
    b'u' ∷ b's' ∷ b'e' ∷ b'r' ∷ b'_' ∷ b'p' ∷ b'r' ∷ b'o' ∷ b'g' ∷ b'r' ∷ b'a' ∷ b'm' ∷ 0 ∷ []

-- The name of module `i` where GRUB gave no string.
abbrev pub default_name : ℕ → List ℕ
default_name i =
    if i == 0 then hello else if i == 1 then file_test else if i == 2 then demo else user_program

-- `strncpy` to the array but its last byte, which becomes the terminator.
abbrev pub module_name : ℕ → Option (List ℕ) → List ℕ → List ℕ
module_name i none old = strcpy old (default_name i)
module_name i (some grub_name) old = set (strncpy old grub_name 31) 31 0

unfoldable pub load_module : ℕ → GrubModule → Module → Module
load_module i g old = record {
  name = module_name i g.string old.name;
  start = g.mod_start;
  end = g.mod_end;
  size = sub32 g.mod_end g.mod_start;
}

-- The loop over the records from number `i` on, with the rounds left.
unfoldable pub load_from : ℕ → ℕ → List GrubModule → List Module → List Module
load_from zero i grub modules = modules
load_from (suc n) i [] modules = modules
load_from (suc n) i (g ∷ grub) modules =
    load_from n (i + 1) grub (set modules i (load_module i g (get_or modules i no_module)))

unfoldable pub loader_init : ℕ → List GrubModule → Loader → Loader
loader_init mods_count grub l =
    let count = if ltb max_modules mods_count then max_modules else mods_count in
    record { modules = load_from count 0 grub l.modules; module_count = count }

-- The search of `loader_find_module` from index `i` on, with the rounds left; the result is the index.
unfoldable pub find_module_from : ℕ → ℕ → List ℕ → List Module → Option ℕ
find_module_from zero i name modules = none
find_module_from (suc n) i name modules =
    let later = find_module_from n (i + 1) name modules in
    if is_zero (strcmp (get_or modules i no_module).name name) then some i else later

unfoldable pub loader_find_module : List ℕ → Loader → Option ℕ
loader_find_module name l = find_module_from l.module_count 0 name l.modules

abbrev pub loader_get_module_count : Loader → ℕ
loader_get_module_count l = l.module_count

unfoldable pub loader_get_module : ℕ → Loader → Option Module
loader_get_module index l =
    if leb l.module_count index then none else some (get_or l.modules index no_module)
