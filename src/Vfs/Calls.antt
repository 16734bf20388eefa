-- ===== src/Vfs/Calls.antt =====
-- The descriptor table under any sequence of the calls that change it.
use matrix_os.Prelude.{
  ℕ, zero, suc, ◌%◌, ◌<◌, ◌≡◌, refl, sym, ap, ◌∙◌, subst, ◌⊎◌, inl, inr, ◌||◌, arith, ◌==◌, List,
  Option, none, some, Bool-cases, Option-cases, length, get_or, set, length-set, get_or-set_self,
  get_or-set_ne, get_or-replicate, ==→eq,
}
use matrix_os.Prelude.Int.{ℤ, pos, negsuc, is_positive, signed32}
use matrix_os.Vfs.{
  Vfs, FileHandle, Machine, closed, handle, set_handle, vfs_init, vfs_open, vfs_close, vfs_read,
  vfs_write, in_use, FileOperations, vfs_register_fs, advance,
}
use matrix_os.Vfs.Table.{Opens, vfs_open_lem, Opening}
use matrix_os.Vfs.Access.{vfs_read_access, vfs_write_access, transfer}

module _ {K : Type 0} where
  -- The table that a call leaves.
  abbrev pub table : ℤ × Vfs K × K → Vfs K
  table (result, v, k) = v

  -- A handle is the zeroed one or has one reference.
  abbrev pub IsHeld : FileHandle K → Type 0
  IsHeld h = (h ≡ closed) ⊎ (h.ref_count ≡ 1)

  pub record IsSound (v : Vfs K) : Type 0 where
    pub size : length v.open_files ≡ 32
    pub held : (i : ℕ) → IsHeld (handle v i)

  set_handle-IsSound :
      (v : Vfs K) (i : ℕ) (h : FileHandle K)
      → IsSound v
      → i < 32
      → IsHeld h
      → IsSound (set_handle v i h)
  set_handle-IsSound v i h sound inside new = record {
    size = length-set v.open_files i h ∙ sound.size;
    held = λ j. at j;
  }
    where
      at : (j : ℕ) → IsHeld (get_or (set v.open_files i h) j closed)
      at j = elim (Bool-cases (i == j)) [
        | inl here ↦
            subst (λ (t : ℕ). IsHeld (get_or (set v.open_files i h) t closed)) (==→eq i j here)
              (subst IsHeld
                (sym (get_or-set_self v.open_files i h closed (omega (arith, sound.size)))) new)
        | inr away ↦
            subst IsHeld (sym (get_or-set_ne v.open_files i j h closed (ground arith)))
              (sound.held j)
      ]

  pub vfs_init-IsSound : IsSound (vfs_init {K = K})
  unfolding vfs_init
  vfs_init-IsSound = record { size = refl; held = at }
    where
      at : (i : ℕ) → IsHeld (handle vfs_init i)
      at zero = inr refl
      at (suc zero) = inr refl
      at (suc (suc zero)) = inr refl
      at (suc (suc (suc i))) = inl (get_or-replicate 29 i closed)

  opened-IsSound : (flags : ℕ) (v w : Vfs K) (r : ℤ) → IsSound v → Opens flags v w r → IsSound w
  opened-IsSound flags v w r sound o = record { size = moved.size; held = moved.held }
    where
      put : IsSound (set_handle v o.fd (handle w o.fd))
      put = set_handle-IsSound v o.fd (handle w o.fd) sound o.below (inr o.used)

      moved : IsSound w
      moved = record {
        size = ap length o.table ∙ put.size;
        held = λ i. subst (λ l. IsHeld (get_or l i closed)) (sym o.table) (put.held i);
      }

  -- The descriptors in use are those of handles with a reference, from 0 to 31.
  in_use-below : (fd : ℤ) (v : Vfs K) (n : ℕ) → in_use fd v ≡ some n → n < 32
  unfolding in_use
  in_use-below (negsuc m) v n e = absurd (ground arith)
  in_use-below (pos m) v n e = ground arith

  advance-IsSound :
      (n : ℕ) (v : Vfs K) (r : ℤ × K)
      → IsSound v
      → n < 32
      → (handle v n).ref_count ≡ 1
      → IsSound (table (advance n v r))
  unfolding advance
  advance-IsSound n v (result, k) sound inside one = elim (Bool-cases (is_positive result)) [
    | inl some_read ↦ rw (some_read) (set_handle-IsSound v n _ sound inside (inr one))
    | inr none_read ↦ rw (none_read) sound
  ]

  used-one :
      (fd : ℤ) (v : Vfs K) (n : ℕ) → IsSound v → in_use fd v ≡ some n → (handle v n).ref_count ≡ 1
  unfolding in_use
  used-one (negsuc m) v n sound e = absurd (ground arith)
  used-one (pos m) v n sound e = elim (sound.held n) [
    | inl free ↦
        let none_left : (handle v n).ref_count ≡ 0 = ap (λ h. h.ref_count) free in
        absurd (ground arith)
    | inr one ↦ one
  ]

  transfer-IsSound :
      (member : _) (n buf count : ℕ) (v : Vfs K) (k : K)
      → IsSound v
      → n < 32
      → (handle v n).ref_count ≡ 1
      → IsSound (table (transfer member n buf count v k))
  transfer-IsSound member n buf count v k sound inside one = elim (Option-cases ((handle v n).fs)) [
    | inl missing ↦ rw (missing, table, transfer) sound
    | inr (fs, there) ↦ elim (Option-cases (member fs.ops)) [
      | inl missing ↦ rw (there, table, transfer) (rw (missing) sound)
      | inr (f, present) ↦
          rw (there, table, transfer)
            (rw (present) (
              advance-IsSound n v (f (signed32 (handle v n).private_data) buf count k) sound inside
                one))
    ]
  ]

  vfs_close-IsSound : (fd : ℤ) (v : Vfs K) (k : K) → IsSound v → IsSound (table (vfs_close fd v k))
  unfolding vfs_close
  vfs_close-IsSound fd v k sound = elim (Option-cases (in_use fd v)) [
    | inl unused ↦ rw (unused, table, vfs_close) sound
    | inr (n, used) ↦
        rw (used, table, vfs_close)
          (rw (used-one fd v n sound used)
            (set_handle-IsSound v n closed sound (in_use-below fd v n used) (inl refl)))
  ]

  vfs_read-IsSound :
      (fd : ℤ) (buf count : ℕ) (v : Vfs K) (k : K)
      → IsSound v
      → IsSound (table (vfs_read fd buf count v k))
  unfolding vfs_read
  vfs_read-IsSound fd buf count v k sound = elim (Option-cases (in_use fd v)) [
    | inl unused ↦ rw (unused, table, vfs_read) sound
    | inr (n, used) ↦ elim (Bool-cases ((handle v n).flags % 4 == 0)) [
      | inl denied ↦ rw (vfs_read_access fd n buf count v k used) (rw (denied) sound)
      | inr granted ↦ rw (vfs_read_access fd n buf count v k used) (
          rw (granted) (
            transfer-IsSound (λ ops. ops.read) n buf count v k sound (in_use-below fd v n used)
              (used-one fd v n sound used)))
    ]
  ]

  vfs_write-IsSound :
      (m : Machine K) (fd : ℤ) (buf count : ℕ) (v : Vfs K) (k : K)
      → IsSound v
      → IsSound (table (vfs_write m fd buf count v k))
  unfolding vfs_write
  vfs_write-IsSound m fd buf count v k sound = elim (Option-cases (in_use fd v)) [
    | inl unused ↦ rw (unused, table, vfs_write) sound
    | inr (n, used) ↦ elim (Bool-cases ((handle v n).flags % 4 == 0)) [
      | inl denied ↦ rw (vfs_write_access m fd n buf count v k used) (rw (denied) sound)
      | inr granted ↦ elim (Bool-cases (n == 1 || n == 2)) [
        | inl screen ↦
            rw (vfs_write_access m fd n buf count v k used) (rw (granted) (rw (screen) sound))
        | inr file ↦ rw (vfs_write_access m fd n buf count v k used) (
            rw (granted) (
              rw (file) (
                transfer-IsSound (λ ops. ops.write) n buf count v k sound (in_use-below fd v n used)
                  (used-one fd v n sound used))))
      ]
    ]
  ]

  pub register-IsSound :
      (m : Machine K) (name : Option (List ℕ)) (ops : Option (FileOperations K)) (v : Vfs K) (k : K)
      → IsSound v
      → IsSound (table (vfs_register_fs m name ops v k))
  unfolding vfs_register_fs
  register-IsSound m none ops v k sound = sound
  register-IsSound m (some name) none v k sound = sound
  register-IsSound m (some name) (some ops) v k sound =
      elim (Bool-cases ((m.kmalloc 24 k).0 == 0)) [
        | inl full ↦ rw (full) sound
        | inr fits ↦ rw (fits) (record { size = sound.size; held = sound.held })
      ]

  -- A call that may change the table, with what it leaves of it; the rest of the kernel may have run before
  -- it, so its state `k` is any.
  pub data Call (v : Vfs K) : Vfs K → Type 0 where
    opening :
        (path : Option (List ℕ)) (flags : ℕ) (k : K) → Call v (table (vfs_open path flags v k))
    closing : (fd : ℤ) (k : K) → Call v (table (vfs_close fd v k))
    reading : (fd : ℤ) (buf count : ℕ) (k : K) → Call v (table (vfs_read fd buf count v k))
    writing :
        (m : Machine K) (fd : ℤ) (buf count : ℕ) (k : K)
        → Call v (table (vfs_write m fd buf count v k))
    registering :
        (m : Machine K) (name : Option (List ℕ)) (ops : Option (FileOperations K)) (k : K)
        → Call v (table (vfs_register_fs m name ops v k))

  pub data Reach : Vfs K → Type 0 where
    started : Reach vfs_init
    called : (v w : Vfs K) → Reach v → Call v w → Reach w

  pub Call-IsSound : (v w : Vfs K) → Call v w → IsSound v → IsSound w
  Call-IsSound v _ (opening path flags k) sound =
      go (vfs_open path flags v k) (vfs_open_lem path flags v k sound.size)
    where
      go : (r : ℤ × Vfs K × K) → Opening flags v r → IsSound (table r)
      go (result, w, k) (inl (negative, kept)) = subst IsSound (sym kept) sound
      go (result, w, k) (inr o) = opened-IsSound flags v w result sound o
  Call-IsSound v _ (closing fd k) sound = vfs_close-IsSound fd v k sound
  Call-IsSound v _ (reading fd buf count k) sound = vfs_read-IsSound fd buf count v k sound
  Call-IsSound v _ (writing m fd buf count k) sound = vfs_write-IsSound m fd buf count v k sound
  Call-IsSound v _ (registering m name ops k) sound = register-IsSound m name ops v k sound

  -- After any sequence of calls from start-up on, whatever the file systems do, the table has 32 handles,
  -- and each is either all zeros or has a reference count of exactly 1.
  pub vfs_Reach-IsSound : (v : Vfs K) → Reach v → IsSound v
  vfs_Reach-IsSound _ started = vfs_init-IsSound
  vfs_Reach-IsSound w (called v _ before call) = Call-IsSound v w call (vfs_Reach-IsSound v before)
