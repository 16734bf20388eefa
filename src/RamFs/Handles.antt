-- ===== src/RamFs/Handles.antt =====
-- The handles of ramfs.c: opening, seeking and closing.
use matrix_os.Prelude.{
  ℕ, ◌^◌, ◌≤◌, ◌<◌, ◌≡◌, sym, ◌∙◌, subst, inl, inr, arith, ◌==◌, ltb, leb, if◌then◌else◌, Option,
  none, some, Bool-cases, Option-cases, length, get_or, set, length-set, get_or-set_self,
  get_or-set_ne, ==→eq, ==_false→ne,
}
use matrix_os.Prelude.Int.{ℤ, pos, negsuc}
use matrix_os.Prelude.Word.{add32}
use matrix_os.CString.{Memory}
use matrix_os.RamFs.{
  RamFs, RamHandle, free_handle, file_at, handle_at, set_handle, open_file, held_by, seek_target,
  seek_at, read_at, clipped,
}

-- Every handle that holds a file stands at most at the end of that file, whose size is a 32-bit number.
pub record IsSound (r : RamFs) : Type 0 where
  pub size : length r.ramfs_handles ≡ 32
  pub sized : (i : ℕ) → (file_at r i).size < 2 ^ 32
  pub within_file :
      (h i : ℕ) → (handle_at r h).file ≡ some i → (handle_at r h).pos ≤ (file_at r i).size

looked_up : (n h i : ℕ) (o : Option ℕ) → held_by n o ≡ some (h, i) → (n ≡ h) × (o ≡ some i)
looked_up n h i none e = absurd (ground arith)
looked_up n h i (some j) e = (ground arith, ground arith)

file_unique : (o : Option ℕ) (i j : ℕ) → o ≡ some i → o ≡ some j → i ≡ j
file_unique o i j p q = ground arith

pub open_file-below :
    (handle : ℤ) (h i : ℕ) (r : RamFs)
    → open_file handle r ≡ some (h, i)
    → (h < 32) × ((handle_at r h).file ≡ some i)
open_file-below (negsuc n) h i r e = absurd (ground arith)
open_file-below (pos n) h i r e = elim (Bool-cases (leb 32 n)) [
  | inl out ↦ absurd (let gone : none ≡ some (h, i) = rw (out) at e in ground arith)
  | inr inside ↦
      let found = looked_up n h i ((handle_at r n).file) (rw (inside) at e) in
      (ground (arith, found.0), subst (λ (t : ℕ). (handle_at r t).file ≡ some i) found.0 found.1)
]

pub set_handle-IsSound :
    (r : RamFs) (h : ℕ) (p : RamHandle)
    → IsSound r
    → h < 32
    → ((i : ℕ) → p.file ≡ some i → p.pos ≤ (file_at r i).size)
    → IsSound (set_handle r h p)
set_handle-IsSound r h p sound inside fits = record {
  size = length-set r.ramfs_handles h p ∙ sound.size;
  sized = sound.sized;
  within_file = at;
}
  where
    at :
        (j i : ℕ)
        → (get_or (set r.ramfs_handles h p) j free_handle).file ≡ some i
        → (get_or (set r.ramfs_handles h p) j free_handle).pos ≤ (file_at r i).size
    at j i = elim (Bool-cases (h == j)) [
      | inl here ↦ rw (sym (==→eq h j here)) (
          rw (get_or-set_self r.ramfs_handles h p free_handle (omega (arith, sound.size))) (fits i))
      | inr away ↦
          rw (get_or-set_ne r.ramfs_handles h j p free_handle (==_false→ne h j away))
            (sound.within_file j i)
    ]

-- The position that a seek leaves.
abbrev pub clamped : ℕ → ℕ → ℕ
clamped size p = if ltb size p then size else p

clamped_le : (size p : ℕ) → clamped size p ≤ size
clamped_le size p = ground arith

pub seek_at-IsSound :
    (h i : ℕ) (offset whence : ℤ) (r : RamFs)
    → IsSound r
    → h < 32
    → (handle_at r h).file ≡ some i
    → IsSound (seek_at h i offset whence r).1
unfolding seek_at
seek_at-IsSound h i offset whence r sound inside holds =
    elim (Option-cases (seek_target (file_at r i).size (handle_at r h).pos offset whence)) [
      | inl unknown ↦ rw (unknown, seek_at) sound
      | inr (p, target) ↦
          rw (target, seek_at)
            (set_handle-IsSound r h _ sound inside (λ j same.
              let here : i ≡ j = file_unique ((handle_at r h).file) i j holds same in
              subst (λ (t : ℕ). clamped (file_at r i).size p ≤ (file_at r t).size) here
                (clamped_le (file_at r i).size p)))
    ]

-- What `read_at` adds to the position does not pass the end, even where the sum wraps.
read_position_le :
    (size p count : ℕ) → p < size → size < 2 ^ 32 → add32 p (clipped size p count) ≤ size
read_position_le size p count inside small = ground arith

pub read_at-IsSound :
    (h i buf count : ℕ) (r : RamFs) (m : Memory)
    → IsSound r
    → h < 32
    → (handle_at r h).file ≡ some i
    → IsSound (read_at h i buf count r m).1
unfolding read_at
read_at-IsSound h i buf count r m sound inside holds =
    elim (Bool-cases (leb (file_at r i).size (handle_at r h).pos)) [
      | inl end ↦ rw (end, read_at) sound
      | inr before ↦
          rw (before, read_at)
            (set_handle-IsSound r h _ sound inside (λ j same.
              let here : i ≡ j = file_unique ((handle_at r h).file) i j holds same in
              subst
                (λ (t : ℕ).
                  add32 (handle_at r h).pos (clipped (file_at r i).size (handle_at r h).pos count)
                  ≤ (file_at r t).size)
                here
                (read_position_le (file_at r i).size (handle_at r h).pos count (ground arith)
                  (sound.sized i))))
    ]
