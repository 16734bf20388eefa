-- ===== src/Vfs.antt =====
-- kernel/fs/vfs.c and vfs.h: the file descriptor table and the dispatch to the registered file
-- systems. `K` is the state of everything else in the kernel, which the operations of a file system
-- change; a path is the list of the bytes from its pointer on, `none` for NULL.
pub mod Table
pub mod Access
pub mod Calls
mod Tests
use Prim.Native.Nat.{bit_and}
use matrix_os.Prelude.{
  ℕ, zero, suc, ◌+◌, ◌-◌, ◌%◌, ◌<◌, Bool, true, false, ◌&&◌, ◌||◌, not, List, [], ◌∷◌, Option, none,
  some, ◌==◌, ltb, leb, if◌then◌else◌, get_or, set, drop, replicate,
}
use matrix_os.Prelude.Int.{ℤ, pos, negsuc, signed32, unsigned32, is_neg, is_positive}
use matrix_os.Prelude.Word.{add32}
use matrix_os.CString.{strcmp, strncmp, strncpy}

abbrev pub max_open_files : ℕ
max_open_files = 32

abbrev pub o_rdonly : ℕ
o_rdonly = 1

abbrev pub o_wronly : ℕ
o_wronly = 2

abbrev pub o_rdwr : ℕ
o_rdwr = 3

-- The error codes, -1 to -7.
abbrev pub enoent : ℤ
enoent = negsuc 0

abbrev pub eacces : ℤ
eacces = negsuc 1

abbrev pub emfile : ℤ
emfile = negsuc 2

abbrev pub ebadf : ℤ
ebadf = negsuc 3

abbrev pub einval : ℤ
einval = negsuc 4

abbrev pub eio : ℤ
eio = negsuc 5

abbrev pub enomem : ℤ
enomem = negsuc 6

-- `struct file_stat`.
pub record FileStat : Type 0 where
  pub size : ℕ
  pub mode : ℕ
  pub type : ℕ
  pub inode : ℕ

-- `struct file_operations`, `none` for a null member. The members take what the C functions take, the
-- path, the handle, the address of the buffer and the rest, with the state. What `stat` writes through
-- its pointer is the record of its result.
pub record FileOperations (K : Type 0) : Type 0 where
  pub open_file : Option (List ℕ → ℕ → K → ℤ × K)
  pub close : Option (ℤ → K → ℤ × K)
  pub read : Option (ℤ → ℕ → ℕ → K → ℤ × K)
  pub write : Option (ℤ → ℕ → ℕ → K → ℤ × K)
  pub seek : Option (ℤ → ℤ → ℤ → K → ℤ × K)
  pub ioctl : Option (ℤ → ℤ → ℕ → K → ℤ × K)
  pub stat : Option (List ℕ → K → ℤ × Option FileStat)

-- `struct filesystem`; the list's `next` is the list.
pub record Filesystem (K : Type 0) : Type 0 where
  pub name : List ℕ
  pub ops : FileOperations K

-- `struct file_handle`. `ref_count` is an int that is never below 0.
pub record FileHandle (K : Type 0) : Type 0 where
  pub fs : Option (Filesystem K)
  pub private_data : ℕ
  pub pos : ℕ
  pub flags : ℕ
  pub ref_count : ℕ

pub record Vfs (K : Type 0) : Type 0 where
  pub fs_list : List (Filesystem K)
  pub open_files : List (FileHandle K)

-- What vfs.c calls in the rest of the kernel: a byte of memory, a character to the screen, and the heap
-- (0 for NULL).
pub record Machine (K : Type 0) : Type 0 where
  pub load : K → ℕ → ℕ
  pub fb_putchar : ℕ → K → K
  pub kmalloc : ℕ → K → ℕ × K

-- The text of a C literal.
abbrev pub ramfs_name : List ℕ
ramfs_name = b'r' ∷ b'a' ∷ b'm' ∷ b'f' ∷ b's' ∷ 0 ∷ []

abbrev pub devfs_name : List ℕ
devfs_name = b'd' ∷ b'e' ∷ b'v' ∷ b'f' ∷ b's' ∷ 0 ∷ []

abbrev pub dev_prefix : List ℕ
dev_prefix = b'/' ∷ b'd' ∷ b'e' ∷ b'v' ∷ b'/' ∷ 0 ∷ []

abbrev pub is_zero : ℤ → Bool
is_zero (pos n) = n == 0
is_zero (negsuc n) = false

-- `flags & mask`, as a test.
abbrev pub has_flag : ℕ → ℕ → Bool
has_flag flags mask = not (bit_and flags mask == 0)

module _ {K : Type 0} where
  -- What `memset(…, 0, sizeof(struct file_handle))` leaves.
  abbrev pub closed : FileHandle K
  closed = record { fs = none; private_data = 0; pos = 0; flags = 0; ref_count = 0 }

  abbrev pub standard : ℕ → FileHandle K
  standard flags = record closed { flags = flags; ref_count = 1 }

  unfoldable pub vfs_init : Vfs K
  vfs_init = record {
    fs_list = [];
    open_files = standard o_rdonly ∷ standard o_wronly ∷ standard o_wronly ∷ replicate 29 closed;
  }

  -- The block from `kmalloc` is zeroed, and holds the name's 16 bytes.
  unfoldable pub vfs_register_fs :
      Machine K → Option (List ℕ) → Option (FileOperations K) → Vfs K → K → ℤ × Vfs K × K
  vfs_register_fs m none ops v k = (einval, v, k)
  vfs_register_fs m (some name) none v k = (einval, v, k)
  vfs_register_fs m (some name) (some ops) v k =
      let (block, k') = m.kmalloc 24 k in
      let new_fs : Filesystem K = record {
        name = set (strncpy (replicate 16 0) name 15) 15 0;
        ops = ops;
      } in
      if block == 0 then (enomem, v, k') else (pos 0, record v { fs_list = new_fs ∷ v.fs_list }, k')

  unfoldable pub vfs_find_registered : List ℕ → List (Filesystem K) → Option (Filesystem K)
  vfs_find_registered fs_name [] = none
  vfs_find_registered fs_name (fs ∷ rest) =
      if is_zero (strcmp fs.name fs_name) then some fs else vfs_find_registered fs_name rest

  unfoldable pub vfs_resolve_fs : List ℕ → Vfs K → Option (Filesystem K)
  vfs_resolve_fs path v =
      vfs_find_registered (if is_zero (strncmp path dev_prefix 5) then devfs_name else ramfs_name)
        v.fs_list

  abbrev pub handle : Vfs K → ℕ → FileHandle K
  handle v fd = get_or v.open_files fd closed

  abbrev pub set_handle : Vfs K → ℕ → FileHandle K → Vfs K
  set_handle v fd h = record v { open_files = set v.open_files fd h }

  -- The search for a handle with no reference, over the handles from index `i` on.
  unfoldable pub find_free : ℕ → List (FileHandle K) → Option ℕ
  find_free i [] = none
  find_free i (h ∷ rest) =
      let later = find_free (i + 1) rest in if h.ref_count == 0 then some i else later

  -- After the call of the file system's `open`.
  unfoldable pub install : ℕ → Filesystem K → ℕ → Vfs K → ℤ × K → ℤ × Vfs K × K
  install fd fs flags v (result, k) = if is_neg result then (result, v, k) else (
    pos fd,
    set_handle v fd (record {
      fs = some fs;
      private_data = unsigned32 result;
      pos = 0;
      flags = flags;
      ref_count = 1;
    }),
    k,
  )

  unfoldable pub open_on : Filesystem K → List ℕ → ℕ → Vfs K → K → ℤ × Vfs K × K
  open_on fs path flags v k = elim (fs.ops.open_file) [
    | none ↦ (enoent, v, k)
    | some f ↦ elim (find_free 3 (drop 3 v.open_files)) [
      | none ↦ (emfile, v, k)
      | some fd ↦ install fd fs flags v (f path flags k)
    ]
  ]

  unfoldable pub vfs_open : Option (List ℕ) → ℕ → Vfs K → K → ℤ × Vfs K × K
  vfs_open none flags v k = (einval, v, k)
  vfs_open (some path) flags v k = elim (vfs_resolve_fs path v) [
    | none ↦ (enoent, v, k)
    | some fs ↦ open_on fs path flags v k
  ]

  -- The handle behind a descriptor, where it is in range and in use; else the callers answer EBADF.
  unfoldable pub in_use : ℤ → Vfs K → Option ℕ
  in_use (negsuc n) v = none
  in_use (pos n) v = if leb max_open_files n || (handle v n).ref_count == 0 then none else some n

  -- The call of the file system's `close`, where there is one; its result is not used.
  unfoldable pub close_private : FileHandle K → K → K
  close_private h k = elim h.fs [
    | none ↦ k
    | some fs ↦ elim (fs.ops.close) [ none ↦ k | some f ↦ (f (signed32 h.private_data) k).1 ]
  ]

  unfoldable pub vfs_close : ℤ → Vfs K → K → ℤ × Vfs K × K
  vfs_close fd v k = elim (in_use fd v) [
    | none ↦ (ebadf, v, k)
    | some n ↦
        let left = (handle v n).ref_count - 1 in
        if ltb 0 left
        then (pos 0, set_handle v n (record (handle v n) { ref_count = left }), k)
        else (pos 0, set_handle v n closed, close_private (handle v n) k)
  ]

  -- `if (result > 0) fh->pos += result`.
  unfoldable pub advance : ℕ → Vfs K → ℤ × K → ℤ × Vfs K × K
  advance n v (result, k) = (
    result,
    (if is_positive result
        then set_handle v n
            (record (handle v n) { pos = add32 (handle v n).pos (unsigned32 result) })
        else v),
    k,
  )

  unfoldable pub vfs_read : ℤ → ℕ → ℕ → Vfs K → K → ℤ × Vfs K × K
  vfs_read fd buf count v k = elim (in_use fd v) [
    | none ↦ (ebadf, v, k)
    | some n ↦
        let h = handle v n in
        if not (has_flag h.flags o_rdonly) && not (has_flag h.flags o_rdwr)
        then (eacces, v, k)
        else (elim h.fs [
          | none ↦ (eio, v, k)
          | some fs ↦ elim (fs.ops.read) [
            | none ↦ (eio, v, k)
            | some f ↦ advance n v (f (signed32 h.private_data) buf count k)
          ]
        ])
  ]

  -- `for (i = 0; i < count; i++) fb_putchar(str[i])`, from index `i`, with the rounds left.
  unfoldable pub put_text : Machine K → ℕ → ℕ → ℕ → K → K
  put_text m zero i buf k = k
  put_text m (suc n) i buf k = put_text m n (i + 1) buf (m.fb_putchar (m.load k (buf + i)) k)

  unfoldable pub vfs_write : Machine K → ℤ → ℕ → ℕ → Vfs K → K → ℤ × Vfs K × K
  vfs_write m fd buf count v k = elim (in_use fd v) [
    | none ↦ (ebadf, v, k)
    | some n ↦
        let h = handle v n in
        if not (has_flag h.flags o_wronly) && not (has_flag h.flags o_rdwr)
        then (eacces, v, k)
        else if n == 1 || n == 2
        then (signed32 count, v, put_text m count 0 buf k)
        else (elim h.fs [
          | none ↦ (eio, v, k)
          | some fs ↦ elim (fs.ops.write) [
            | none ↦ (eio, v, k)
            | some f ↦ advance n v (f (signed32 h.private_data) buf count k)
          ]
        ])
  ]

  unfoldable pub vfs_seek : ℤ → ℤ → ℤ → Vfs K → K → ℤ × K
  vfs_seek fd offset whence v k = elim (in_use fd v) [
    | none ↦ (ebadf, k)
    | some n ↦ elim ((handle v n).fs) [
      | none ↦ (eio, k)
      | some fs ↦ elim (fs.ops.seek) [
        | none ↦ (eio, k)
        | some f ↦ f (signed32 (handle v n).private_data) offset whence k
      ]
    ]
  ]

  unfoldable pub vfs_ioctl : ℤ → ℤ → ℕ → Vfs K → K → ℤ × K
  vfs_ioctl fd request argp v k = elim (in_use fd v) [
    | none ↦ (ebadf, k)
    | some n ↦ elim ((handle v n).fs) [
      | none ↦ (einval, k)
      | some fs ↦ elim (fs.ops.ioctl) [
        | none ↦ (einval, k)
        | some f ↦ f (signed32 (handle v n).private_data) request argp k
      ]
    ]
  ]

  -- `has_stat` says whether the pointer for the result is not NULL.
  unfoldable pub vfs_stat : Option (List ℕ) → Bool → Vfs K → K → ℤ × Option FileStat
  vfs_stat none has_stat v k = (einval, none)
  vfs_stat (some path) false v k = (einval, none)
  vfs_stat (some path) true v k = elim (vfs_resolve_fs path v) [
    | none ↦ (enoent, none)
    | some fs ↦ elim (fs.ops.stat) [ none ↦ (enoent, none) | some f ↦ f path k ]
  ]
