-- ===== src/Vfs/Table.antt =====
-- The descriptor table of vfs.c: what open and close do to it.
use matrix_os.Prelude.{
  subst, ℕ, zero, suc, ◌+◌, ◌-◌, ◌≤◌, ◌<◌, ◌≡◌, refl, sym, ap, ◌∙◌, ◌⊎◌, inl, inr, true, arith,
  ◌==◌, List, [], ◌∷◌, Option, none, some, Bool-cases, Option-cases, length, get_or, set, drop,
  get_or-set_self, set-set_self, set-get_or, ==→eq,
}
use matrix_os.Prelude.Int.{ℤ, pos, negsuc, is_neg, unsigned32}
use matrix_os.Vfs.{
  Vfs, FileHandle, Filesystem, closed, handle, find_free, install, open_on, vfs_open, in_use,
  close_private, vfs_close, vfs_resolve_fs,
}

abbrev value : ℤ → ℕ
value (pos n) = n
value (negsuc n) = 0

module _ {K : Type 0} where
  get_or-drop :
      (n j : ℕ) (l : List (FileHandle K)) → get_or (drop n l) j closed ≡ get_or l (n + j) closed
  get_or-drop zero j l = ap (λ i. get_or l i closed) (omega arith)
  get_or-drop (suc n) j [] = refl
  get_or-drop (suc n) j (h ∷ l) = get_or-drop n j l ∙ sym (ap (λ i. get_or (h ∷ l) i closed) e)
    where
      e : suc n + j ≡ suc (n + j)
      e = omega arith

  length-drop : (n : ℕ) (l : List (FileHandle K)) → length (drop n l) ≡ length l - n
  length-drop zero l = omega arith
  length-drop (suc n) [] = omega arith
  length-drop (suc n) (h ∷ l) = omega (arith, length-drop n l)

  -- The handle that the search finds: free, and in the list.
  record IsFree (i : ℕ) (l : List (FileHandle K)) (fd : ℕ) : Type 0 where
    index : ℕ
    at : fd ≡ i + index
    inside : index < length l
    unused : (get_or l index closed).ref_count ≡ 0

  find_free-IsFree :
      (i : ℕ) (l : List (FileHandle K)) (fd : ℕ) → find_free i l ≡ some fd → IsFree i l fd
  unfolding find_free
  find_free-IsFree i [] fd e = absurd (ground arith)
  find_free-IsFree i (h ∷ l) fd e = elim (Bool-cases (h.ref_count == 0)) [
    | inl here ↦ record {
      index = 0;
      at = ground arith;
      inside = omega arith;
      unused = ==→eq h.ref_count 0 here;
    }
    | inr later ↦
        let rest = find_free-IsFree (i + 1) l fd (rw later at e) in
        record {
          index = suc rest.index;
          at = omega (arith, rest.at);
          inside = omega (arith, rest.inside);
          unused = rest.unused;
        }
  ]

  -- A descriptor has been handed out: one from 3 to 31 that was free; its handle is open with the flags
  -- asked for, at position 0, and the rest of the table is as before.
  pub record Opens (flags : ℕ) (v w : Vfs K) (result : ℤ) : Type 0 where
    pub fd : ℕ
    pub returned : result ≡ pos fd
    pub above : 3 ≤ fd
    pub below : fd < 32
    pub unused : (handle v fd).ref_count ≡ 0
    pub table : w.open_files ≡ set v.open_files fd (handle w fd)
    pub used : (handle w fd).ref_count ≡ 1
    pub mode : (handle w fd).flags ≡ flags
    pub start : (handle w fd).pos ≡ 0
    pub systems : w.fs_list ≡ v.fs_list

  abbrev pub Opening : ℕ → Vfs K → ℤ × Vfs K × K → Type 0
  Opening flags v (result, w, k) = ((is_neg result ≡ true) × (w ≡ v)) ⊎ Opens flags v w result

  install-Opening :
      (fd : ℕ) (fs : Filesystem K) (flags : ℕ) (v : Vfs K) (r : ℤ × K)
      → length v.open_files ≡ 32
      → IsFree 3 (drop 3 v.open_files) fd
      → Opening flags v (install fd fs flags v r)
  unfolding install
  install-Opening fd fs flags v (negsuc n, k) size free = inl (refl, refl)
  install-Opening fd fs flags v (pos n, k) size free =
      let new : FileHandle K = record {
        fs = some fs;
        private_data = unsigned32 (pos n);
        pos = 0;
        flags = flags;
        ref_count = 1;
      } in
      let inside : fd < length v.open_files =
        omega (arith, free.at, free.inside, length-drop 3 v.open_files) in
      let stored : get_or (set v.open_files fd new) fd closed ≡ new =
        get_or-set_self v.open_files fd new closed inside in
      inr (record {
        fd = fd;
        returned = refl;
        above = omega (arith, free.at);
        below = omega (arith, inside);
        unused =
            ap (λ i. (get_or v.open_files i closed).ref_count) free.at
            ∙ ap (λ h. h.ref_count) (sym (get_or-drop 3 free.index v.open_files))
            ∙ free.unused;
        table = ap (set v.open_files fd) (sym stored);
        used = ap (λ h. h.ref_count) stored;
        mode = ap (λ h. h.flags) stored;
        start = ap (λ h. h.pos) stored;
        systems = refl;
      })

  open_on-Opening :
      (fs : Filesystem K) (path : List ℕ) (flags : ℕ) (v : Vfs K) (k : K)
      → length v.open_files ≡ 32
      → Opening flags v (open_on fs path flags v k)
  unfolding open_on
  open_on-Opening fs path flags v k size = elim (Option-cases fs.ops.open_file) [
    | inl missing ↦ rw (missing, open_on) (inl (refl, refl))
    | inr (f, present) ↦ elim (Option-cases (find_free 3 (drop 3 v.open_files))) [
      | inl full ↦ rw (present, open_on, full) (inl (refl, refl))
      | inr (fd, found) ↦
          rw (present, open_on, found)
            (install-Opening fd fs flags v (f path flags k) size
              (find_free-IsFree 3 (drop 3 v.open_files) fd found))
    ]
  ]

  -- A successful or refused open, whatever the file system's `open` does: with a table of 32 handles,
  -- `vfs_open` either answers a negative code and leaves the table alone, or hands out a descriptor from
  -- 3 to 31 that no one held, with the flags asked for and position 0, and changes no other handle and no file system.
  pub vfs_open_lem :
      (path : Option (List ℕ)) (flags : ℕ) (v : Vfs K) (k : K)
      → length v.open_files ≡ 32
      → Opening flags v (vfs_open path flags v k)
  unfolding vfs_open
  vfs_open_lem none flags v k size = inl (refl, refl)
  vfs_open_lem (some path) flags v k size = elim (Option-cases (vfs_resolve_fs path v)) [
    | inl unknown ↦ rw (unknown, vfs_open) (inl (refl, refl))
    | inr (fs, known) ↦ rw (known, vfs_open) (open_on-Opening fs path flags v k size)
  ]

  in_use-open :
      (n : ℕ) (v : Vfs K) → n < 32 → (handle v n).ref_count ≡ 1 → in_use (pos n) v ≡ some n
  unfolding in_use
  in_use-open n v below one = ground arith

  close-Opens :
      (flags fd : ℕ) (v w : Vfs K) (k : K)
      → Opens flags v w (pos fd)
      → length v.open_files ≡ 32
      → handle v fd ≡ closed
      → vfs_close (pos fd) w k ≡ (pos 0, v, close_private (handle w fd) k)
  unfolding vfs_close
  close-Opens flags fd v w k o size free =
      let here : o.fd ≡ fd = sym (ap value o.returned) in
      let back : set w.open_files fd closed ≡ v.open_files =
        ap (λ l. set l fd closed) o.table
        ∙ ap (λ i. set (set v.open_files i (handle w i)) fd closed) here
        ∙ set-set_self v.open_files fd (handle w fd) closed
        ∙ ap (set v.open_files fd) (sym free)
        ∙ set-get_or v.open_files fd closed in
      let one : (handle w fd).ref_count ≡ 1 =
        ap (λ i. (handle w i).ref_count) (sym here) ∙ o.used in
      let used : in_use (pos fd) w ≡ some fd =
        in_use-open fd w (omega (arith, o.below, here)) one in
      let restored : (pos 0, record w { open_files = v.open_files }, close_private (handle w fd) k)
          ≡ (pos 0, v, close_private (handle w fd) k) =
        ap (λ l. (pos 0, record v { fs_list = l }, close_private (handle w fd) k)) o.systems in
      rw (used, vfs_close) (rw (one) (rw (back) restored))

  -- Closing what was just opened gives the table back: where `vfs_open` on a table of 32 handles answered
  -- `fd`, whose handle held zeros before, `vfs_close` of `fd` answers 0, the table and the list of file
  -- systems are those before the opening, and the file system is told to close its own handle, in
  -- whatever state the rest of the kernel then is.
  pub vfs_close-vfs_open :
      (path : Option (List ℕ)) (flags fd : ℕ) (v w : Vfs K) (k k' later : K)
      → length v.open_files ≡ 32
      → handle v fd ≡ closed
      → vfs_open path flags v k ≡ (pos fd, w, k')
      → vfs_close (pos fd) w later ≡ (pos 0, v, close_private (handle w fd) later)
  vfs_close-vfs_open path flags fd v w k k' later size free opened =
      elim (subst (Opening flags v) opened (vfs_open_lem path flags v k size)) [
        | inl (negative, kept) ↦ absurd (ground arith)
        | inr o ↦ close-Opens flags fd v w later o size free
      ]
