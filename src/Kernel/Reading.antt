-- ===== src/Kernel/Reading.antt =====
-- vfs_read of a file, from the descriptor down to the bytes of the module.
use matrix_os.Prelude.{
  ℕ, ◌+◌, ◌-◌, ◌%◌, ◌^◌, ◌≤◌, ◌<◌, ◌≡◌, ◌≢◌, refl, ap, ◌∙◌, ◌⊎◌, if◌then◌else◌, some, ne→==_false,
}
use matrix_os.Prelude.Int.{ℤ, pos, signed32}
use matrix_os.CString.Blocks.{within}
use matrix_os.Vfs.{Vfs, handle, in_use, vfs_read, advance}
use matrix_os.Vfs.Access.{vfs_read_access, transfer}
use matrix_os.RamFs.{file_at, handle_at, open_file}
use matrix_os.RamFs.Reading.{available, ramfs_read_lem}
use matrix_os.Kernel.{Store, ramfs_ops, ramfs_read_store}
use matrix_os.Kernel.Dispatch.{ramfs_entry}

-- What vfs_read comes to on a descriptor that leads to an open file of ramfs.
vfs_read-ramfs_read_store :
    (files_addr : ℕ) (fd : ℤ) (n h buf count : ℕ) (v : Vfs Store) (k : Store)
    → in_use fd v ≡ some n
    → (handle v n).flags % 4 ≢ 0
    → (handle v n).fs ≡ some (ramfs_entry files_addr)
    → signed32 (handle v n).private_data ≡ pos h
    → vfs_read fd buf count v k ≡ advance n v (ramfs_read_store (pos h) buf count k)
unfolding ramfs_ops
vfs_read-ramfs_read_store files_addr fd n h buf count v k used readable leads private =
    vfs_read_access fd n buf count v k used
    ∙ rw (ne→==_false ((handle v n).flags % 4) 0 readable)
        (rw (leads, transfer) (rw (private) refl))

-- Reading a file through a descriptor: for a descriptor in use that was opened for reading or writing and
-- leads to an open file of ramfs of less than 2^31 bytes, with the position not behind the end of the
-- file, the position and the count together below 2^32, and a buffer that does not start inside the
-- file behind its first byte, a read returns the number of bytes asked for or left, whichever is less,
-- stores those bytes of the file from its position on in the buffer, and changes no other byte of
-- memory.
pub vfs_read-ramfs_lem :
    (files_addr : ℕ) (fd : ℤ) (n h i buf count : ℕ) (v : Vfs Store) (k : Store) (x : ℕ)
    → in_use fd v ≡ some n
    → (handle v n).flags % 4 ≢ 0
    → (handle v n).fs ≡ some (ramfs_entry files_addr)
    → signed32 (handle v n).private_data ≡ pos h
    → open_file (pos h) k.ramfs ≡ some (h, i)
    → (handle_at k.ramfs h).pos ≤ (file_at k.ramfs i).size
    → (file_at k.ramfs i).size < 2 ^ 31
    → (handle_at k.ramfs h).pos + count < 2 ^ 32
    → (buf ≤ (file_at k.ramfs i).contents)
      ⊎ ((file_at k.ramfs i).contents + (file_at k.ramfs i).size ≤ buf)
    → let size = available (file_at k.ramfs i).size (handle_at k.ramfs h).pos count in
      let from = (file_at k.ramfs i).contents + (handle_at k.ramfs h).pos in
      ((vfs_read fd buf count v k).0 ≡ pos size)
      × ((vfs_read fd buf count v k).2.devices.memory x
          ≡ (if within buf size x then k.devices.memory (x - buf + from) else k.devices.memory x))
unfolding advance
vfs_read-ramfs_lem files_addr fd n h i buf count v k x used readable leads private is_open inside
      small fits apart =
    let read =
      ramfs_read_lem (pos h) h i buf count k.ramfs k.devices.memory x is_open inside small fits
        apart in
    let whole =
      vfs_read-ramfs_read_store files_addr fd n h buf count v k used readable leads private in
    (ap (λ r. r.0) whole ∙ read.0, ap (λ r. r.2.devices.memory x) whole ∙ read.2)
