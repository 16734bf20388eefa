-- ===== src/RamFs.antt =====
-- kernel/fs/ramfs.c: the file system over the loaded modules. A pointer to a file is its index in
-- `files`; a name is the list of the 256 bytes of its array.
pub mod Reading
pub mod Handles
pub mod Calls
mod Tests
use Prim.Native.Nat.{bit_and}
use matrix_os.Prelude.{
  ℕ, zero, suc, ◌+◌, ◌-◌, ◌*◌, ◌%◌, ◌^◌, ◌<◌, Bool, true, false, ◌&&◌, ◌||◌, List, [], ◌∷◌, Option,
  none, some, ◌==◌, ltb, leb, if◌then◌else◌, get_or, set, replicate,
}
use matrix_os.Prelude.Int.{ℤ, pos, negsuc, signed32, unsigned32}
use matrix_os.Prelude.Word.{add32, sub32}
use matrix_os.CString.{Memory, strncpy, strcmp, memcpy}
use matrix_os.Loader.{Loader, loader_get_module_count, loader_get_module}
use matrix_os.Vfs.{FileStat, enoent, eacces, emfile, ebadf, einval, o_wronly, has_flag, is_zero}

abbrev pub max_ramfs_files : ℕ
max_ramfs_files = 64

-- `struct ramfs_file`.
pub record RamFile : Type 0 where
  pub name : List ℕ
  pub contents : ℕ
  pub size : ℕ
  pub mode : ℕ
  pub type : ℕ

-- `struct ramfs_private`.
pub record RamHandle : Type 0 where
  pub file : Option ℕ
  pub pos : ℕ

pub record RamFs : Type 0 where
  pub files : List RamFile
  pub file_count : ℕ
  pub ramfs_handles : List RamHandle

abbrev pub no_file : RamFile
no_file = record { name = replicate 256 0; contents = 0; size = 0; mode = 0; type = 0 }

abbrev pub free_handle : RamHandle
free_handle = record { file = none; pos = 0 }

abbrev pub file_at : RamFs → ℕ → RamFile
file_at r i = get_or r.files i no_file

abbrev pub handle_at : RamFs → ℕ → RamHandle
handle_at r h = get_or r.ramfs_handles h free_handle

abbrev pub set_handle : RamFs → ℕ → RamHandle → RamFs
set_handle r h p = record r { ramfs_handles = set r.ramfs_handles h p }

-- `while (*filename == '/') filename++`.
unfoldable pub skip_slashes : List ℕ → List ℕ
skip_slashes [] = []
skip_slashes (c ∷ path) = let rest = skip_slashes path in if c == b'/' then rest else c ∷ path

-- The search from index `i` on, with the rounds left.
unfoldable pub find_file_from : ℕ → ℕ → List ℕ → List RamFile → Option ℕ
find_file_from zero i filename files = none
find_file_from (suc n) i filename files =
    let later = find_file_from n (i + 1) filename files in
    if is_zero (strcmp (get_or files i no_file).name filename) then some i else later

unfoldable pub ramfs_find_file : List ℕ → RamFs → Option ℕ
ramfs_find_file path r = find_file_from r.file_count 0 (skip_slashes path) r.files

abbrev is_free : RamHandle → Bool
is_free h = elim h.file [ none ↦ true | some _ ↦ false ]

-- The search for a free handle, over the handles from index `i` on.
unfoldable pub find_handle : ℕ → List RamHandle → Option ℕ
find_handle i [] = none
find_handle i (h ∷ rest) =
    let later = find_handle (i + 1) rest in if is_free h then some i else later

-- 0222 is 146.
abbrev pub is_forbidden : ℕ → RamFile → Bool
is_forbidden flags f = has_flag flags o_wronly && (bit_and f.mode 146 == 0)

unfoldable pub ramfs_open : List ℕ → ℕ → RamFs → ℤ × RamFs
ramfs_open path flags r = elim (ramfs_find_file path r) [
  | none ↦ (enoent, r)
  | some i ↦
      if is_forbidden flags (file_at r i)
      then (eacces, r)
      else (elim (find_handle 0 r.ramfs_handles) [
        | none ↦ (emfile, r)
        | some h ↦ (pos h, set_handle r h (record { file = some i; pos = 0 }))
      ])
]

abbrev pub held_by : ℕ → Option ℕ → Option (ℕ × ℕ)
held_by h none = none
held_by h (some i) = some (h, i)

-- A handle in range whose file is set, with the index of the file.
abbrev pub open_file : ℤ → RamFs → Option (ℕ × ℕ)
open_file (negsuc n) r = none
open_file (pos h) r = if leb 32 h then none else held_by h (handle_at r h).file

unfoldable pub ramfs_close : ℤ → RamFs → ℤ × RamFs
ramfs_close handle r = elim (open_file handle r) [
  | none ↦ (ebadf, r)
  | some (h, i) ↦ (pos 0, set_handle r h free_handle)
]

-- `to_read`: the test adds in 32 bits.
abbrev pub clipped : ℕ → ℕ → ℕ → ℕ
clipped size p count = if ltb size (add32 p count) then sub32 size p else count

unfoldable pub read_at : ℕ → ℕ → ℕ → ℕ → RamFs → Memory → ℤ × RamFs × Memory
read_at h i buf count r m =
    let p = (handle_at r h).pos in
    let f = file_at r i in
    let to_read = clipped f.size p count in
    if leb f.size p then (pos 0, r, m) else (
      signed32 to_read,
      set_handle r h (record (handle_at r h) { pos = add32 p to_read }),
      memcpy buf (f.contents + p) to_read m,
    )

unfoldable pub ramfs_read : ℤ → ℕ → ℕ → RamFs → Memory → ℤ × RamFs × Memory
ramfs_read handle buf count r m = elim (open_file handle r) [
  | none ↦ (ebadf, r, m)
  | some (h, i) ↦ read_at h i buf count r m
]

unfoldable pub ramfs_write : ℤ → ℕ → ℕ → ℤ
ramfs_write handle buf count = eacces

-- The position that a seek asks for, `none` for an unknown `whence`.
unfoldable pub seek_target : ℕ → ℕ → ℤ → ℤ → Option ℕ
seek_target size p offset (negsuc n) = none
seek_target size p offset (pos whence) =
    if whence == 0
    then some (unsigned32 offset)
    else if whence == 1
    then some (add32 p (unsigned32 offset))
    else if whence == 2
    then some (add32 size (unsigned32 offset))
    else none

unfoldable pub seek_at : ℕ → ℕ → ℤ → ℤ → RamFs → ℤ × RamFs
seek_at h i offset whence r =
    let size = (file_at r i).size in
    elim (seek_target size (handle_at r h).pos offset whence) [
      | none ↦ (einval, r)
      | some p ↦
          let p' = if ltb size p then size else p in
          (signed32 p', set_handle r h (record (handle_at r h) { pos = p' }))
    ]

unfoldable pub ramfs_seek : ℤ → ℤ → ℤ → RamFs → ℤ × RamFs
ramfs_seek handle offset whence r = elim (open_file handle r) [
  | none ↦ (ebadf, r)
  | some (h, i) ↦ seek_at h i offset whence r
]

unfoldable pub ramfs_ioctl : ℤ → ℤ → ℕ → ℤ
ramfs_ioctl handle request argp = einval

-- The inode is the address of the file's record: 272 bytes a record, from `files_addr` on.
unfoldable pub ramfs_stat : ℕ → List ℕ → RamFs → ℤ × Option FileStat
ramfs_stat files_addr path r = elim (ramfs_find_file path r) [
  | none ↦ (enoent, none)
  | some i ↦
      let f = file_at r i in
      (
        pos 0,
        some (record {
          size = f.size;
          mode = f.mode;
          type = f.type;
          inode = add32 files_addr (i * 272);
        }),
      )
]

-- One round of the registration: the name is cut to 255 bytes, the mode is 0444.
unfoldable pub register_module : ℕ → Loader → RamFs → RamFs
register_module i l r = elim (loader_get_module i l) [
  | none ↦ r
  | some mod_info ↦
      let old = file_at r r.file_count in
      record r {
        files = set r.files r.file_count (record {
          name = set (strncpy old.name mod_info.name 255) 255 0;
          contents = mod_info.start;
          size = mod_info.size;
          mode = 292;
          type = 1;
        });
        file_count = r.file_count + 1;
      }
]

-- `for (i = 0; i < mod_count && file_count < MAX_RAMFS_FILES; i++)`, with the rounds left.
unfoldable pub register_from : ℕ → ℕ → Loader → RamFs → RamFs
register_from zero i l r = r
register_from (suc n) i l r =
    let rest = register_from n (i + 1) l (register_module i l r) in
    if ltb r.file_count max_ramfs_files then rest else r

-- The arrays zeroed, then the modules registered; the call of vfs_register_fs comes after it.
unfoldable pub ramfs_init : Loader → RamFs
ramfs_init l = register_from (loader_get_module_count l) 0 l (record {
  files = replicate 64 no_file;
  file_count = 0;
  ramfs_handles = replicate 32 free_handle;
})
