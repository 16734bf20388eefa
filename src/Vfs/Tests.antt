-- ===== src/Vfs/Tests.antt =====
-- The descriptor table with one file system whose calls are counted, and the theorems of vfs.c at this
-- input.
use matrix_os.Prelude.{
  ℕ, suc, ◌%◌, ◌≡◌, refl, ◌||◌, ◌==◌, if◌then◌else◌, List, [], ◌∷◌, none, some, length,
}
use matrix_os.Prelude.Int.{pos, signed32}
use matrix_os.CString.{strcmp, strncmp}
use matrix_os.Vfs.{
  Vfs, FileOperations, Filesystem, Machine, handle, set_handle, vfs_init, vfs_find_registered,
  vfs_resolve_fs, vfs_open, open_on, install, find_free, in_use, vfs_read, vfs_write, vfs_close,
  close_private, put_text, eacces, ramfs_name,
}
use matrix_os.Vfs.Table.{vfs_close-vfs_open}
use matrix_os.Vfs.Access.{transfer, vfs_access_lem}
use matrix_os.Vfs.Calls.{Call, IsSound, started, called, vfs_Reach-IsSound}

-- The state is the number of calls; a read gives as many bytes as asked for.
abbrev counting : FileOperations ℕ
counting = record {
  open_file = some (λ path flags k. (pos 5, suc k));
  close = some (λ handle k. (pos 0, suc k));
  read = some (λ handle buf count k. (pos count, suc k));
  write = some (λ handle buf count k. (pos count, suc k));
  seek = none;
  ioctl = none;
  stat = none;
}

abbrev machine : Machine ℕ
machine = record { load = λ k a. a; fb_putchar = λ c k. k; kmalloc = λ size k. (4096, k) }

abbrev counted_fs : Filesystem ℕ
counted_fs = record { name = ramfs_name; ops = counting }

abbrev mounted : Vfs ℕ
mounted = record { fs_list = counted_fs ∷ []; open_files = (vfs_init {K = ℕ}).open_files }

-- "a".
abbrev path : List ℕ
path = b'a' ∷ 0 ∷ []

abbrev opened : Vfs ℕ
opened = record {
  fs_list = counted_fs ∷ [];
  open_files =
      (set_handle mounted 3 (record {
        fs = some counted_fs;
        private_data = 5;
        pos = 0;
        flags = 2;
        ref_count = 1;
      })).open_files;
}

mounted_size : length mounted.open_files ≡ 32
mounted_size = unfold vfs_init in refl

opens : vfs_open (some path) 2 mounted 0 ≡ (pos 3, opened, 1)
unfolding vfs_open vfs_resolve_fs vfs_find_registered open_on install find_free strcmp strncmp
    vfs_init
opens = refl

vfs_close-vfs_open_example :
    vfs_close (pos 3) opened 7 ≡ (pos 0, mounted, close_private (handle opened 3) 7)
vfs_close-vfs_open_example =
    vfs_close-vfs_open (some path) 2 3 mounted opened 0 1 7 mounted_size (unfold vfs_init in refl)
      opens

opened_used : in_use (pos 3) opened ≡ some 3
unfolding in_use vfs_init
opened_used = refl

-- The descriptor is open for writing alone.
vfs_access_lem_example :
    (vfs_read (pos 3) 100 8 opened 1
      ≡ (if 2 % 4 == 0 then (eacces, opened, 1) else transfer (λ ops. ops.read) 3 100 8 opened 1))
    × (vfs_write machine (pos 3) 100 8 opened 1 ≡ (
        if 2 % 4 == 0
        then (eacces, opened, 1)
        else if 3 == 1 || 3 == 2
        then (signed32 8, opened, put_text machine 8 0 100 1)
        else transfer (λ ops. ops.write) 3 100 8 opened 1))
unfolding vfs_init
vfs_access_lem_example = vfs_access_lem machine (pos 3) 3 100 8 opened 1 opened_used

abbrev one_more : Vfs ℕ
one_more = (vfs_open (some path) 2 vfs_init 0).1

vfs_Reach-IsSound_example : IsSound one_more
vfs_Reach-IsSound_example =
    vfs_Reach-IsSound one_more (called vfs_init one_more started (Call.opening (some path) 2 0))
