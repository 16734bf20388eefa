-- ===== src/Loader/Tests.antt =====
-- loader.c on two modules, one of them without a name, and its theorem at this input.
use matrix_os.Prelude.{ℕ, ◌≡◌, refl, List, [], ◌∷◌, none, some}
use matrix_os.CString.{strcmp, strncpy, strcpy}
use matrix_os.Loader.{
  Loader, GrubModule, empty_loader, loader_init, load_from, load_module, loader_find_module,
  find_module_from,
}
use matrix_os.Loader.Search.{Finds, loader_find_module_lem}

abbrev pub init_name : List ℕ
init_name = b'i' ∷ b'n' ∷ b'i' ∷ b't' ∷ 0 ∷ []

abbrev pub two_modules : List GrubModule
two_modules =
    record { mod_start = 0x100000; mod_end = 0x101000; string = some init_name }
    ∷ record { mod_start = 0x102000; mod_end = 0x102010; string = none }
    ∷ []

abbrev pub loaded : Loader
loaded = loader_init 2 two_modules empty_loader

abbrev default_second : List ℕ
default_second = b'f' ∷ b'i' ∷ b'l' ∷ b'e' ∷ b'_' ∷ b't' ∷ b'e' ∷ b's' ∷ b't' ∷ 0 ∷ []

finds_second : loader_find_module default_second loaded ≡ some 1
unfolding loader_find_module find_module_from loader_init load_from load_module strcmp strncpy
    strcpy
finds_second = refl

loader_find_module_lem_example :
    Finds default_second loaded loaded.module_count (loader_find_module default_second loaded)
loader_find_module_lem_example = loader_find_module_lem default_second loaded
