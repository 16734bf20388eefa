-- ===== src/Vfs/Access.antt =====
-- The access checks of vfs_read and vfs_write, and what the two do to the table.
use matrix_os.Prelude.{
  ℕ, ◌%◌, ◌≡◌, refl, ap, ◌||◌, ◌&&◌, not, arith, ◌==◌, if◌then◌else◌, Option, none, some,
}
use matrix_os.Prelude.Int.{ℤ, signed32}
use matrix_os.Prelude.Word.{bit_and-one, bit_and-two, bit_and-three}
use matrix_os.Vfs.{
  Vfs, FileOperations, Machine, handle, in_use, vfs_read, vfs_write, advance, put_text, has_flag,
  eacces, eio, o_rdonly, o_wronly, o_rdwr,
}

has_flag-rdonly : (flags : ℕ) → has_flag flags o_rdonly ≡ not (flags % 2 == 0)
has_flag-rdonly flags = ap (λ t. not (t == 0)) (bit_and-one flags)

-- The two tests of vfs_read come to one on the two lowest bits, and so do those of vfs_write.
denied_read :
    (flags : ℕ) → (not (has_flag flags o_rdonly) && not (has_flag flags o_rdwr)) ≡ (flags % 4 == 0)
denied_read flags = rw (bit_and-one flags, bit_and-three flags) (ground arith)

denied_write :
    (flags : ℕ) → (not (has_flag flags o_wronly) && not (has_flag flags o_rdwr)) ≡ (flags % 4 == 0)
denied_write flags = rw (bit_and-two flags, bit_and-three flags) (ground arith)

module _ {K : Type 0} where
  -- The transfer that a member of the operations makes for the handle, EIO where there is none.
  abbrev pub transfer :
      (FileOperations K → Option (ℤ → ℕ → ℕ → K → ℤ × K)) → ℕ → ℕ → ℕ → Vfs K → K → ℤ × Vfs K × K
  transfer member n buf count v k = elim ((handle v n).fs) [
    | none ↦ (eio, v, k)
    | some fs ↦ elim (member fs.ops) [
      | none ↦ (eio, v, k)
      | some f ↦ advance n v (f (signed32 (handle v n).private_data) buf count k)
    ]
  ]

  pub vfs_read_access :
      (fd : ℤ) (n buf count : ℕ) (v : Vfs K) (k : K)
      → in_use fd v ≡ some n
      → vfs_read fd buf count v k ≡ (
          if (handle v n).flags % 4 == 0
          then (eacces, v, k)
          else transfer (λ ops. ops.read) n buf count v k)
  unfolding vfs_read
  vfs_read_access fd n buf count v k used =
      rw (used, vfs_read) (rw (denied_read (handle v n).flags) refl)

  pub vfs_write_access :
      (m : Machine K) (fd : ℤ) (n buf count : ℕ) (v : Vfs K) (k : K)
      → in_use fd v ≡ some n
      → vfs_write m fd buf count v k ≡ (
          if (handle v n).flags % 4 == 0
          then (eacces, v, k)
          else if n == 1 || n == 2
          then (signed32 count, v, put_text m count 0 buf k)
          else transfer (λ ops. ops.write) n buf count v k)
  unfolding vfs_write
  vfs_write_access m fd n buf count v k used =
      rw (used, vfs_write) (rw (denied_write (handle v n).flags) refl)

  -- Both directions of access turn on the same test: for a descriptor in use, vfs_read and vfs_write
  -- answer EACCES where the two lowest bits of the flags are zero, and else they transfer, whichever of
  -- O_RDONLY and O_WRONLY the file was opened with; descriptors 1 and 2 write to the screen instead.
  pub vfs_access_lem :
      (m : Machine K) (fd : ℤ) (n buf count : ℕ) (v : Vfs K) (k : K)
      → in_use fd v ≡ some n
      → (vfs_read fd buf count v k ≡ (
          if (handle v n).flags % 4 == 0
          then (eacces, v, k)
          else transfer (λ ops. ops.read) n buf count v k))
        × (vfs_write m fd buf count v k ≡ (
            if (handle v n).flags % 4 == 0
            then (eacces, v, k)
            else if n == 1 || n == 2
            then (signed32 count, v, put_text m count 0 buf k)
            else transfer (λ ops. ops.write) n buf count v k))
  vfs_access_lem m fd n buf count v k used =
      (vfs_read_access fd n buf count v k used, vfs_write_access m fd n buf count v k used)
