-- ===== src/RamFs/Reading.antt =====
-- ramfs_read: what it copies and where it stops.
use matrix_os.Prelude.{
  ℕ, ◌+◌, ◌-◌, ◌^◌, ◌≤◌, ◌<◌, ◌≡◌, refl, sym, ap, ◌∙◌, ◌⊎◌, inl, inr, false, arith, ltb, leb,
  if◌then◌else◌, some, Bool-cases, min, ltb→lt, ltb_false→le, set-get_or,
}
use matrix_os.Prelude.Int.{ℤ, pos, signed32}
use matrix_os.Prelude.Word.{add32}
use matrix_os.CString.{Memory, memcpy}
use matrix_os.CString.Blocks.{within, memcpy_lem}
use matrix_os.RamFs.{
  RamFs, free_handle, file_at, handle_at, set_handle, open_file, clipped, read_at, ramfs_read,
}

-- How many bytes a read gives: what is asked for, or what is left of the file.
abbrev pub available : ℕ → ℕ → ℕ → ℕ
available size p count = min count (size - p)

clipped-available :
    (size p count : ℕ)
    → p < size
    → size < 2 ^ 32
    → p + count < 2 ^ 32
    → clipped size p count ≡ available size p count
clipped-available size p count inside small fits = ground arith

read_at-eof :
    (h i buf count : ℕ) (r : RamFs) (m : Memory)
    → (file_at r i).size ≤ (handle_at r h).pos
    → read_at h i buf count r m ≡ (pos 0, r, m)
unfolding read_at
read_at-eof h i buf count r m over = ground arith

read_at-inside :
    (h i buf count : ℕ) (r : RamFs) (m : Memory)
    → (handle_at r h).pos < (file_at r i).size
    → (file_at r i).size < 2 ^ 31
    → (handle_at r h).pos + count < 2 ^ 32
    → let n = available (file_at r i).size (handle_at r h).pos count in
      read_at h i buf count r m ≡ (
        pos n,
        set_handle r h (record (handle_at r h) { pos = (handle_at r h).pos + n }),
        memcpy buf ((file_at r i).contents + (handle_at r h).pos) n m,
      )
unfolding read_at
read_at-inside h i buf count r m inside small fits =
    let n = available (file_at r i).size (handle_at r h).pos count in
    let all : clipped (file_at r i).size (handle_at r h).pos count ≡ n =
      clipped-available (file_at r i).size (handle_at r h).pos count inside (omega arith) fits in
    let more : leb (file_at r i).size (handle_at r h).pos ≡ false = ground arith in
    let low : signed32 n ≡ pos n = ground arith in
    let moved : add32 (handle_at r h).pos n ≡ (handle_at r h).pos + n = omega arith in
    rw (more) (rw (all) (rw (low) (rw (moved) refl)))

-- A read of an open file whose size is below 2^31 and whose end position does not pass 2^32 returns the
-- number of bytes available, moves the position by it, puts exactly those bytes of the file in the buffer
-- and changes no other byte; the buffer must not begin inside the bytes that are read.
pub ramfs_read_lem :
    (handle : ℤ) (h i buf count : ℕ) (r : RamFs) (m : Memory) (x : ℕ)
    → open_file handle r ≡ some (h, i)
    → (handle_at r h).pos ≤ (file_at r i).size
    → (file_at r i).size < 2 ^ 31
    → (handle_at r h).pos + count < 2 ^ 32
    → (buf ≤ (file_at r i).contents) ⊎ ((file_at r i).contents + (file_at r i).size ≤ buf)
    → let n = available (file_at r i).size (handle_at r h).pos count in
      let from = (file_at r i).contents + (handle_at r h).pos in
      ((ramfs_read handle buf count r m).0 ≡ pos n)
      × ((ramfs_read handle buf count r m).1
          ≡ set_handle r h (record (handle_at r h) { pos = (handle_at r h).pos + n }))
      × ((ramfs_read handle buf count r m).2 x
          ≡ (if within buf n x then m (x - buf + from) else m x))
unfolding ramfs_read
ramfs_read_lem handle h i buf count r m x is_open inside small fits apart =
    elim (Bool-cases (ltb (handle_at r h).pos (file_at r i).size)) [
      | inl before ↦
          rw (is_open, ramfs_read)
            (rw (read_at-inside h i buf count r m (ltb→lt _ _ before) small fits) (
              refl,
              refl,
              memcpy_lem buf ((file_at r i).contents + (handle_at r h).pos)
                  (available (file_at r i).size (handle_at r h).pos count) m x
                  (omega (arith, apart)),
            ))
      | inr end ↦
          let none_left : available (file_at r i).size (handle_at r h).pos count ≡ 0 =
            ground arith in
          let still : (handle_at r h).pos ≡ (handle_at r h).pos + 0 = omega arith in
          let rest : r ≡ set_handle r h (record (handle_at r h) { pos = (handle_at r h).pos + 0 }) =
            sym
              (ap (λ l. record r { ramfs_handles = l }) (set-get_or r.ramfs_handles h free_handle))
            ∙ ap (λ t. set_handle r h (record (handle_at r h) { pos = t })) still in
          rw (is_open, ramfs_read)
            (rw (read_at-eof h i buf count r m (ltb_false→le _ _ end))
              (rw (none_left) (refl, rest, ground arith)))
    ]

-- A read whose end position passes 2^32, by no more than the size of the file, is not cut at the file's
-- end: from a position inside the file it copies all `count` bytes, though fewer are left, and the
-- position moves back by 2^32 less `count`.
pub ramfs_read_overruns :
    (handle : ℤ) (h i buf count : ℕ) (r : RamFs) (m : Memory)
    → open_file handle r ≡ some (h, i)
    → (handle_at r h).pos < (file_at r i).size
    → (file_at r i).size < 2 ^ 32
    → count < 2 ^ 32
    → 2 ^ 32 ≤ (handle_at r h).pos + count
    → (handle_at r h).pos + count - 2 ^ 32 ≤ (file_at r i).size
    → (available (file_at r i).size (handle_at r h).pos count < count)
      × ((ramfs_read handle buf count r m).2
          ≡ memcpy buf ((file_at r i).contents + (handle_at r h).pos) count m)
      × ((ramfs_read handle buf count r m).1
          ≡ set_handle r h (record (handle_at r h) { pos = (handle_at r h).pos + count - 2 ^ 32 }))
unfolding ramfs_read read_at
ramfs_read_overruns handle h i buf count r m is_open inside small word wraps misses =
    let more : leb (file_at r i).size (handle_at r h).pos ≡ false = ground arith in
    let all : clipped (file_at r i).size (handle_at r h).pos count ≡ count = ground arith in
    let moved : add32 (handle_at r h).pos count ≡ (handle_at r h).pos + count - 2 ^ 32 =
      omega arith in
    (
      omega arith,
      rw (is_open, ramfs_read) (rw (more, read_at) (rw (all) refl)),
      rw (is_open, ramfs_read) (rw (more, read_at) (rw (all) (rw (moved) refl))),
    )
