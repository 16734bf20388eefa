-- ===== src/RamFs/Tests.antt =====
-- ramfs.c over the two modules of the loader's tests, and its theorems at these inputs.
use matrix_os.Prelude.{
  ◌≤◌, ◌<◌, ◌^◌, zero, suc, ◌+◌, ◌-◌, ◌≡◌, refl, [], ◌∷◌, some, arith, replicate, get_or-replicate,
}
use matrix_os.Prelude.Int.{pos, negsuc}
use matrix_os.CString.{Memory, memcpy}
use matrix_os.Loader.{Loader, Module, no_module}
use matrix_os.RamFs.{
  file_at, handle_at, RamFs, RamFile, set_handle, ramfs_init, ramfs_read, ramfs_seek,
}
use matrix_os.RamFs.Reading.{available, ramfs_read_overruns}
use matrix_os.RamFs.Calls.{Call, IsLoaded, started, called, limit, ramfs_position_le}

abbrev one_module : Module
one_module = record { name = b'a' ∷ 0 ∷ []; start = 0x100000; end = 0x100010; size = 16 }

abbrev loaded : Loader
loaded = record { modules = one_module ∷ replicate 15 no_module; module_count = 1 }

loaded-IsLoaded : IsLoaded loaded
loaded-IsLoaded zero = omega arith
loaded-IsLoaded (suc i) = rw (get_or-replicate 15 i no_module) (omega arith)

abbrev file : RamFile
file = record { name = b'a' ∷ 0 ∷ []; contents = 0x100000; size = 16; mode = 292; type = 1 }

-- Ten of the sixteen bytes have been read.
abbrev reading : RamFs
reading = record {
  files = file ∷ [];
  file_count = 1;
  ramfs_handles = record { file = some 0; pos = 10 } ∷ [];
}

abbrev numbered : Memory
numbered x = x

abbrev sought : RamFs
sought = (ramfs_seek (pos 0) (negsuc 3) (pos 1) (ramfs_init loaded)).1

ramfs_position_le_example :
    ((handle_at sought 0).pos ≤ limit sought (handle_at sought 0).file (handle_at sought 0).pos)
    × ((file_at sought 0).size < 2 ^ 32)
ramfs_position_le_example =
    ramfs_position_le loaded sought 0 0 loaded-IsLoaded
      (called (ramfs_init loaded) sought started (Call.seeking (pos 0) (negsuc 3) (pos 1)))

ramfs_read_overruns_example :
    (available 16 10 4294967290 < 4294967290)
    × ((ramfs_read (pos 0) 500 4294967290 reading numbered).2
        ≡ memcpy 500 (0x100000 + 10) 4294967290 numbered)
    × ((ramfs_read (pos 0) 500 4294967290 reading numbered).1
        ≡ set_handle reading 0 (record { file = some 0; pos = 10 + 4294967290 - 2 ^ 32 }))
ramfs_read_overruns_example =
    ramfs_read_overruns (pos 0) 0 0 500 4294967290 reading numbered refl (omega arith) (omega arith)
      (omega arith) (omega arith) (omega arith)
