-- ===== src/RamFs/Calls.antt =====
-- ramfs.c under any sequence of calls: no handle stands behind the end of its file.
use matrix_os.Prelude.{
  ℕ, ◌≤◌, zero, suc, ◌+◌, ◌^◌, ◌<◌, ◌≡◌, refl, sym, ap, ◌∙◌, subst, inl, inr, arith, ◌==◌, ltb, leb,
  List, [], ◌∷◌, Option, none, some, Bool-cases, Option-cases, length, get_or, set, get_or-set_self,
  get_or-set_ne, ==→eq, ==_false→ne, replicate, get_or-replicate, set_ge, ltb→lt, ltb_false→le,
}
use matrix_os.Prelude.Int.{ℤ}
use matrix_os.CString.{Memory}
use matrix_os.Loader.{Loader, Module, no_module, loader_get_module}
use matrix_os.RamFs.{
  RamFs, RamFile, RamHandle, free_handle, no_file, file_at, handle_at, open_file, is_free,
  is_forbidden, find_handle, register_module, register_from, ramfs_init, ramfs_find_file,
  ramfs_open, ramfs_read, ramfs_seek, ramfs_close,
}
use matrix_os.RamFs.Handles.{
  IsSound, set_handle-IsSound, open_file-below, read_at-IsSound, seek_at-IsSound,
}

find_handle-below :
    (i : ℕ) (l : List RamHandle) (h : ℕ) → find_handle i l ≡ some h → h < i + length l
unfolding find_handle
find_handle-below i [] h e = absurd (ground arith)
find_handle-below i (p ∷ l) h e = elim (Bool-cases (is_free p)) [
  | inl here ↦ ground arith
  | inr taken ↦ omega (arith, find_handle-below (i + 1) l h (rw (taken) at e))
]

ramfs_open-IsSound :
    (path : List ℕ) (flags : ℕ) (r : RamFs) → IsSound r → IsSound (ramfs_open path flags r).1
unfolding ramfs_open
ramfs_open-IsSound path flags r sound = elim (Option-cases (ramfs_find_file path r)) [
  | inl missing ↦ rw (missing, ramfs_open) sound
  | inr (i, found) ↦ elim (Bool-cases (is_forbidden flags (file_at r i))) [
    | inl denied ↦ rw (found, ramfs_open) (rw (denied) sound)
    | inr allowed ↦ elim (Option-cases (find_handle 0 r.ramfs_handles)) [
      | inl full ↦ rw (found, ramfs_open) (rw (allowed) (rw (full) sound))
      | inr (h, free) ↦
          rw (found, ramfs_open)
            (rw (allowed) (
              rw (free) (
                set_handle-IsSound r h (record { file = some i; pos = 0 }) sound
                  (omega (arith, find_handle-below 0 r.ramfs_handles h free, sound.size))
                  (λ j same. omega arith))))
    ]
  ]
]

ramfs_close-IsSound : (handle : ℤ) (r : RamFs) → IsSound r → IsSound (ramfs_close handle r).1
unfolding ramfs_close
ramfs_close-IsSound handle r sound = elim (Option-cases (open_file handle r)) [
  | inl bad ↦ rw (bad, ramfs_close) sound
  | inr ((h, i), held) ↦
      rw (held, ramfs_close)
        (set_handle-IsSound r h free_handle sound (open_file-below handle h i r held).0
          (λ j same. omega arith))
]

ramfs_read-IsSound :
    (handle : ℤ) (buf count : ℕ) (r : RamFs) (m : Memory)
    → IsSound r
    → IsSound (ramfs_read handle buf count r m).1
unfolding ramfs_read
ramfs_read-IsSound handle buf count r m sound = elim (Option-cases (open_file handle r)) [
  | inl bad ↦ rw (bad, ramfs_read) sound
  | inr ((h, i), held) ↦
      let at = open_file-below handle h i r held in
      rw (held, ramfs_read) (read_at-IsSound h i buf count r m sound at.0 at.1)
]

ramfs_seek-IsSound :
    (handle offset whence : ℤ) (r : RamFs)
    → IsSound r
    → IsSound (ramfs_seek handle offset whence r).1
unfolding ramfs_seek
ramfs_seek-IsSound handle offset whence r sound = elim (Option-cases (open_file handle r)) [
  | inl bad ↦ rw (bad, ramfs_seek) sound
  | inr ((h, i), held) ↦
      let at = open_file-below handle h i r held in
      rw (held, ramfs_seek) (seek_at-IsSound h i offset whence r sound at.0 at.1)
]

-- The calls that change the state, with what they leave.
pub data Call (r : RamFs) : RamFs → Type 0 where
  opening : (path : List ℕ) (flags : ℕ) → Call r (ramfs_open path flags r).1
  closing : (handle : ℤ) → Call r (ramfs_close handle r).1
  reading : (handle : ℤ) (buf count : ℕ) (m : Memory) → Call r (ramfs_read handle buf count r m).1
  seeking : (handle offset whence : ℤ) → Call r (ramfs_seek handle offset whence r).1

pub data Reach (l : Loader) : RamFs → Type 0 where
  started : Reach l (ramfs_init l)
  called : (r t : RamFs) → Reach l r → Call r t → Reach l t

Call-IsSound : (r t : RamFs) → Call r t → IsSound r → IsSound t
Call-IsSound r _ (opening path flags) sound = ramfs_open-IsSound path flags r sound
Call-IsSound r _ (closing handle) sound = ramfs_close-IsSound handle r sound
Call-IsSound r _ (reading handle buf count m) sound = ramfs_read-IsSound handle buf count r m sound
Call-IsSound r _ (seeking handle offset whence) sound =
    ramfs_seek-IsSound handle offset whence r sound

-- All handles are free, and the files registered so far have 32-bit sizes.
record IsFresh (r : RamFs) : Type 0 where
  handles : r.ramfs_handles ≡ replicate 32 free_handle
  sized : (i : ℕ) → (file_at r i).size < 2 ^ 32

IsFresh-IsSound : (r : RamFs) → IsFresh r → IsSound r
IsFresh-IsSound r fresh = record {
  size = ap length fresh.handles;
  sized = fresh.sized;
  within_file = λ h i held.
      let free : handle_at r h ≡ free_handle =
        ap (λ l. get_or l h free_handle) fresh.handles ∙ get_or-replicate 32 h free_handle in
      absurd (let gone : none ≡ some i = ap (λ p. p.file) (sym free) ∙ held in ground arith);
}

-- The modules of the loader have 32-bit sizes.
abbrev pub IsLoaded : Loader → Type 0
IsLoaded l = (i : ℕ) → (get_or l.modules i no_module).size < 2 ^ 32

value : Option Module → Module
value none = no_module
value (some m) = m

loaded_size :
    (i : ℕ) (l : Loader) (mod_info : Module)
    → IsLoaded l
    → loader_get_module i l ≡ some mod_info
    → mod_info.size < 2 ^ 32
unfolding loader_get_module value
loaded_size i l mod_info loaded e = elim (Bool-cases (leb l.module_count i)) [
  | inl out ↦ absurd (let gone : none ≡ some mod_info = rw (out) at e in ground arith)
  | inr inside ↦
      let same : some (get_or l.modules i no_module) ≡ some mod_info = rw (inside) at e in
      subst (λ (t : Module). t.size < 2 ^ 32) (ap value same) (loaded i)
]

set-small :
    (files : List RamFile) (i j : ℕ) (f : RamFile)
    → ((k : ℕ) → (get_or files k no_file).size < 2 ^ 32)
    → f.size < 2 ^ 32
    → (get_or (set files i f) j no_file).size < 2 ^ 32
set-small files i j f old new = elim (Bool-cases (i == j)) [
  | inl here ↦ elim (Bool-cases (ltb i (length files))) [
    | inl inside ↦
        rw (sym (==→eq i j here)) (rw (get_or-set_self files i f no_file (ltb→lt _ _ inside)) new)
    | inr outside ↦ rw (set_ge files i f (ltb_false→le _ _ outside)) (old j)
  ]
  | inr away ↦ rw (get_or-set_ne files i j f no_file (==_false→ne i j away)) (old j)
]

register_module-IsFresh :
    (i : ℕ) (l : Loader) (r : RamFs) → IsLoaded l → IsFresh r → IsFresh (register_module i l r)
unfolding register_module
register_module-IsFresh i l r loaded fresh = elim (Option-cases (loader_get_module i l)) [
  | inl missing ↦ rw (missing, register_module) fresh
  | inr (mod_info, there) ↦
      rw (there, register_module)
        (record {
          handles = fresh.handles;
          sized = λ j.
              set-small r.files r.file_count j _ fresh.sized
                (loaded_size i l mod_info loaded there);
        })
]

register_from-IsFresh :
    (n i : ℕ) (l : Loader) (r : RamFs) → IsLoaded l → IsFresh r → IsFresh (register_from n i l r)
unfolding register_from
register_from-IsFresh zero i l r loaded fresh = fresh
register_from-IsFresh (suc n) i l r loaded fresh = elim (Bool-cases (ltb r.file_count 64)) [
  | inl room ↦ rw (room) (
      register_from-IsFresh n (i + 1) l (register_module i l r) loaded
        (register_module-IsFresh i l r loaded fresh))
  | inr full ↦ rw (full) fresh
]

ramfs_init-IsFresh : (l : Loader) → IsLoaded l → IsFresh (ramfs_init l)
unfolding ramfs_init
ramfs_init-IsFresh l loaded =
    register_from-IsFresh l.module_count 0 l _ loaded
      (record { handles = refl; sized = λ i. rw (get_or-replicate 64 i no_file) (omega arith) })

Reach-IsSound : (l : Loader) (r : RamFs) → IsLoaded l → Reach l r → IsSound r
Reach-IsSound l _ loaded started = IsFresh-IsSound (ramfs_init l) (ramfs_init-IsFresh l loaded)
Reach-IsSound l r loaded (called t _ before call) =
    Call-IsSound t r call (Reach-IsSound l t loaded before)

-- How far a handle at `p` may stand: at most at the end of its file; anywhere where it holds none.
abbrev pub limit : RamFs → Option ℕ → ℕ → ℕ
limit r none p = p
limit r (some i) p = (file_at r i).size

within_limit :
    (r : RamFs) (h : ℕ) (o : Option ℕ)
    → IsSound r
    → (handle_at r h).file ≡ o
    → (handle_at r h).pos ≤ limit r o (handle_at r h).pos
within_limit r h none sound e = omega arith
within_limit r h (some i) sound e = sound.within_file h i e

-- From `ramfs_init` on, over modules with 32-bit sizes, no sequence of open, close, read and seek brings a
-- handle behind the end of its file, a read whose sum wraps and a seek to anywhere included; and no file
-- gets larger than 32 bits can tell.
pub ramfs_position_le :
    (l : Loader) (r : RamFs) (h i : ℕ)
    → IsLoaded l
    → Reach l r
    → ((handle_at r h).pos ≤ limit r (handle_at r h).file (handle_at r h).pos)
      × ((file_at r i).size < 2 ^ 32)
ramfs_position_le l r h i loaded reach =
    let sound = Reach-IsSound l r loaded reach in
    (within_limit r h (handle_at r h).file sound refl, sound.sized i)
