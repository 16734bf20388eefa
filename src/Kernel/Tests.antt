-- ===== src/Kernel/Tests.antt =====
-- Where a path leads after the start, on a heap of a megabyte.
use matrix_os.Prelude.{
  ◌-◌, ◌+◌, inl, set, if◌then◌else◌, ℕ, ◌^◌, refl, true, List, ◌∷◌, ◌≡◌, ◌≢◌, ◌⊎◌, [], some, arith,
  take,
}
use matrix_os.CString.Texts.{text}
use matrix_os.Keyboard.{empty_keyboard}
use matrix_os.Loader.{empty_loader}
use matrix_os.Kmalloc.{kmalloc, best_from, carve}
use matrix_os.Vfs.{Vfs, in_use, vfs_read, vfs_init, vfs_register_fs, vfs_resolve_fs, dev_prefix}
use matrix_os.Kernel.{Store, kmalloc_store, mount_ramfs, boot_vfs_init}
use matrix_os.Prelude.Int.{pos}
use matrix_os.CString.Blocks.{within}
use matrix_os.RamFs.Reading.{available}
use matrix_os.Kernel.Reading.{vfs_read-ramfs_lem}
use matrix_os.Kernel.Dispatch.{devfs_entry, ramfs_entry, vfs_resolve_fs_lem}

abbrev zeroed : Store
zeroed = record {
  devices = record {
    devfs_handles = [];
    keyboard = empty_keyboard;
    screen = record { vram = λ x. 0; cursor_pos = 0; current_fg = 7; current_bg = 0; io = [] };
    memory = λ x. 0;
  };
  ramfs = record { files = []; file_count = 0; ramfs_handles = [] };
  heap = record {
    blocks = record { addr = 0x0110_0000; size = 2 ^ 20; is_free = true } ∷ [];
    total_allocated = 0;
    total_freed = 0;
    current_usage = 0;
  };
}

-- "a".
abbrev path : List ℕ
path = b'a' ∷ 0 ∷ []

first_fits : (kmalloc 24 zeroed.heap zeroed.devices.memory).0 ≡ 0x0110_0010
unfolding kmalloc best_from
first_fits = refl

second_fits : (kmalloc_store 24 (mount_ramfs 8192 empty_loader vfs_init zeroed).1).0 ≡ 0x0110_0038
unfolding mount_ramfs vfs_register_fs kmalloc best_from carve
second_fits = refl

vfs_resolve_fs_lem_example :
    let found = vfs_resolve_fs path (boot_vfs_init 8192 empty_loader zeroed).0 in
    ((take 5 (text path) ≡ take 5 (text dev_prefix)) × (found ≡ some devfs_entry))
    ⊎ ((take 5 (text path) ≢ take 5 (text dev_prefix)) × (found ≡ some (ramfs_entry 8192)))
vfs_resolve_fs_lem_example =
    vfs_resolve_fs_lem 8192 empty_loader zeroed path (omega (arith, first_fits))
      (omega (arith, second_fits)) (omega arith, (omega arith, tt))

-- A file of 16 bytes, ten of them read, behind descriptor 3.
abbrev reading : Store
reading = record zeroed {
  devices = record zeroed.devices { memory = λ x. x };
  ramfs = record {
    files = record { name = path; contents = 0x10_0000; size = 16; mode = 292; type = 1 } ∷ [];
    file_count = 1;
    ramfs_handles = record { file = some 0; pos = 10 } ∷ [];
  };
}

abbrev opened : Vfs Store
opened = record {
  fs_list = ramfs_entry 8192 ∷ [];
  open_files = set (vfs_init {K = Store}).open_files 3 (record {
    fs = some (ramfs_entry 8192);
    private_data = 0;
    pos = 10;
    flags = 1;
    ref_count = 1;
  });
}

opened_used : in_use (pos 3) opened ≡ some 3
unfolding in_use vfs_init
opened_used = refl

vfs_read-ramfs_lem_example :
    ((vfs_read (pos 3) 500 8 opened reading).0 ≡ pos (available 16 10 8))
    × ((vfs_read (pos 3) 500 8 opened reading).2.devices.memory 503
        ≡ (if within 500 (available 16 10 8) 503 then 503 - 500 + (0x10_0000 + 10) else 503))
unfolding vfs_init
vfs_read-ramfs_lem_example =
    vfs_read-ramfs_lem 8192 (pos 3) 3 0 0 500 8 opened reading 503 opened_used (omega arith) refl
      refl refl (omega arith) (omega arith) (omega arith) (inl (omega arith))
