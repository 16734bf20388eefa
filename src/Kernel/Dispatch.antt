-- ===== src/Kernel/Dispatch.antt =====
-- Which file system a path leads to once the kernel has booted.
use matrix_os.Prelude.{
  ℕ, ◌<◌, ◌≡◌, ◌≢◌, refl, ap, ◌∙◌, ◌⊎◌, inl, inr, true, false, arith, List, [], ◌∷◌, some,
  Bool-cases, take, set, replicate, ne→==_false,
}
use matrix_os.Prelude.Int.{ℤ, pos}
use matrix_os.CString.{strncmp, strncpy, strcmp}
use matrix_os.CString.Texts.{text, strncmp_iff, IsBytes}
use matrix_os.Loader.{Loader}
use matrix_os.DevFs.{devfs_init}
use matrix_os.RamFs.{ramfs_init}
use matrix_os.Loader.Search.{is_zero-pos}
use matrix_os.Vfs.{
  Filesystem, FileOperations, Vfs, vfs_register_fs, vfs_resolve_fs, vfs_find_registered, dev_prefix,
  devfs_name, ramfs_name, is_zero, vfs_init,
}
use matrix_os.Kmalloc.{kmalloc}
use matrix_os.Kernel.{
  Store, machine, kmalloc_store, ramfs_ops, devfs_ops, mount_ramfs, mount_devfs, boot_vfs_init,
}

-- The entries that the two registrations leave: a name is an array of 16 bytes.
abbrev stored_name : List ℕ → List ℕ
stored_name name = set (strncpy (replicate 16 0) name 15) 15 0

abbrev pub ramfs_entry : ℕ → Filesystem Store
ramfs_entry files_addr = record { name = stored_name ramfs_name; ops = ramfs_ops files_addr }

abbrev pub devfs_entry : Filesystem Store
devfs_entry = record { name = stored_name devfs_name; ops = devfs_ops }

registered :
    (name : List ℕ) (ops : FileOperations Store) (v : Vfs Store) (k : Store)
    → 0 < (kmalloc_store 24 k).0
    → (vfs_register_fs machine (some name) (some ops) v k).1.fs_list
      ≡ record { name = stored_name name; ops = ops } ∷ v.fs_list
unfolding vfs_register_fs
registered name ops v k room = rw (ne→==_false (kmalloc_store 24 k).0 0 (omega (arith, room))) refl

booted :
    (files_addr : ℕ) (l : Loader) (k : Store)
    → 0 < (kmalloc 24 k.heap k.devices.memory).0
    → 0 < (kmalloc_store 24 (mount_ramfs files_addr l vfs_init k).1).0
    → (boot_vfs_init files_addr l k).0.fs_list ≡ devfs_entry ∷ ramfs_entry files_addr ∷ []
unfolding boot_vfs_init mount_ramfs mount_devfs devfs_init
booted files_addr l k first second =
    let (v, k') = mount_ramfs files_addr l vfs_init k in
    registered devfs_name devfs_ops v (record k' { devices = devfs_init k'.devices }) second
    ∙ ap (◌∷◌ devfs_entry) (
        registered ramfs_name (ramfs_ops files_addr) vfs_init (record k { ramfs = ramfs_init l })
          first
        ∙ start)
  where
    start : ramfs_entry files_addr ∷ (vfs_init {K = Store}).fs_list ≡ ramfs_entry files_addr ∷ []
    start = unfold vfs_init in refl

-- The search by name on the two entries.
found_devfs :
    (files_addr : ℕ)
    → vfs_find_registered devfs_name (devfs_entry ∷ ramfs_entry files_addr ∷ []) ≡ some devfs_entry
unfolding vfs_find_registered strcmp strncpy
found_devfs files_addr = refl

found_ramfs :
    (files_addr : ℕ)
    → vfs_find_registered ramfs_name (devfs_entry ∷ ramfs_entry files_addr ∷ [])
      ≡ some (ramfs_entry files_addr)
unfolding vfs_find_registered strcmp strncpy
found_ramfs files_addr = refl

dev_prefix-IsBytes : IsBytes dev_prefix
dev_prefix-IsBytes =
    (omega arith, (omega arith, (omega arith, (omega arith, (omega arith, (omega arith, tt))))))

nonzero : (r : ℤ) → is_zero r ≡ false → r ≢ pos 0
nonzero r e same = absurd (let bad : true ≡ false = rw (same) at e in ground arith)

-- Once booted with a heap that had room for the two entries, 24 bytes each, one after the other, a path
-- leads to devfs exactly where its first five bytes are "/dev/", and else to ramfs.
pub vfs_resolve_fs_lem :
    (files_addr : ℕ) (l : Loader) (k : Store) (path : List ℕ)
    → 0 < (kmalloc 24 k.heap k.devices.memory).0
    → 0 < (kmalloc_store 24 (mount_ramfs files_addr l vfs_init k).1).0
    → IsBytes path
    → let found = vfs_resolve_fs path (boot_vfs_init files_addr l k).0 in
      ((take 5 (text path) ≡ take 5 (text dev_prefix)) × (found ≡ some devfs_entry))
      ⊎ ((take 5 (text path) ≢ take 5 (text dev_prefix)) × (found ≡ some (ramfs_entry files_addr)))
unfolding vfs_resolve_fs
vfs_resolve_fs_lem files_addr l k path first second bytes =
    elim (Bool-cases (is_zero (strncmp path dev_prefix 5))) [
      | inl device ↦ inl (
        (strncmp_iff path dev_prefix 5 bytes dev_prefix-IsBytes).0
            (is_zero-pos (strncmp path dev_prefix 5) device),
        ap (vfs_find_registered _) (booted files_addr l k first second)
            ∙ rw (device) (found_devfs files_addr),
      )
      | inr file ↦ inr (
        λ same.
            nonzero (strncmp path dev_prefix 5) file
              ((strncmp_iff path dev_prefix 5 bytes dev_prefix-IsBytes).1 same),
        ap (vfs_find_registered _) (booted files_addr l k first second)
            ∙ rw (file) (found_ramfs files_addr),
      )
    ]
