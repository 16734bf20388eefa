-- ===== src/Vmm/Copy.antt =====
-- A page through its temporary mapping: it is cleared, and the kernel's entries are copied to it.
use matrix_os.Prelude.{
  ℕ, zero, suc, ◌+◌, ◌*◌, ◌/◌, ◌%◌, ◌^◌, ◌≤◌, ◌<◌, ◌≡◌, ◌⊎◌, inl, inr, refl, sym, ap, ◌∙◌, arith,
  Option, some, ◌==◌, if◌then◌else◌, ltb, Bool-cases, ◌>>=◌, ltb→lt, ltb_false→le, ==→eq, ne_above,
  ==_false→ne,
}
use matrix_os.Prelude.Word.{align_down}
use matrix_os.CString.{Memory, memset}
use matrix_os.CString.Blocks.{memset_lem}
use matrix_os.Paging.{
  Mm, set_phys, load_word, store_word, directory_entry, table_entry, translate, temp_mapping_addr,
  clear_page,
}
use matrix_os.Paging.Words.{load_word-store_word, byte_elsewhere}
use matrix_os.Paging.Entries.{HasTable, entry_at, translate-present}
use matrix_os.Vmm.{put_word, copy_entries}
use matrix_os.Vmm.Pages.{
  Agrees, load_word-cong, load_word-Agrees, load_word-word, slot_table, PagesApart, from_start,
  around, sooner,
}

-- A page `p` that the address `v` leads to, apart from the page directory and the slots' table.
module _ (s : Mm) (p v : ℕ) (has : HasTable s) (near : v / 2 ^ 22 ≡ 768) (whole : v % 4096 ≡ 0)
    (on : load_word s.phys (table_entry v s) % 2 ≡ 1)
    (leads : align_down (load_word s.phys (table_entry v s)) 4096 ≡ p)
    (no_table : PagesApart p (slot_table s)) (no_directory : PagesApart p s.directory) where
  pub one_word :
      (m : Memory)
      → Agrees p s.phys m
      → load_word m (directory_entry temp_mapping_addr s)
        ≡ load_word s.phys (directory_entry temp_mapping_addr s)
  one_word m agrees =
      load_word-Agrees p s.phys m (directory_entry temp_mapping_addr s) agrees
        (elim no_directory [ inl h ↦ inr (omega (arith, h)) | inr h ↦ inl (omega (arith, h)) ])

  pub Agrees-HasTable : (m : Memory) → Agrees p s.phys m → HasTable (set_phys m s)
  Agrees-HasTable m agrees = record {
    present = ap (λ (w : ℕ). w % 2) (one_word m agrees) ∙ has.present;
    apart = rw (one_word m agrees) has.apart;
  }

  module _ (m : Memory) (agrees : Agrees p s.phys m) (d : ℕ) (inside : d < 4096) where
    near_too : (v + d) / 2 ^ 22 ≡ 768
    near_too = omega (arith, near, whole)

    pub same_entry : table_entry (v + d) (set_phys m s) ≡ table_entry v s
    same_entry = omega (
      arith,
      entry_at (set_phys m s) (Agrees-HasTable m agrees) (v + d) near_too,
      entry_at s has v near,
      one_word m agrees,
      whole,
    )

    entry_word :
        load_word m (table_entry (v + d) (set_phys m s)) ≡ load_word s.phys (table_entry v s)
    entry_word =
        ap (load_word m) same_entry
        ∙ load_word-Agrees p s.phys m (table_entry v s) agrees (elim no_table [
          | inl h ↦ inr (omega (arith, h, entry_at s has v near))
          | inr h ↦ inl (omega (arith, h, entry_at s has v near))
        ])

    pub translate-Agrees : translate (v + d) (set_phys m s) ≡ some (p + d)
    translate-Agrees =
        translate-present (set_phys m s) (Agrees-HasTable m agrees) (v + d) near_too
          (load_word s.phys (table_entry v s)) entry_word on
        ∙ ap some (omega (arith, leads, whole))

  -- What the copy of the kernel's entries from number `i` on leaves.
  pub record Copied (i : ℕ) (m : Memory) (result : Option Mm) : Type 0 where
    pub final : Memory
    pub returns : result ≡ some (set_phys final s)
    pub same : (a : ℕ) → (a < p + 4 * i) ⊎ (p + 4096 ≤ a) → final a ≡ m a
    pub words :
        (j : ℕ)
        → i ≤ j
        → j < 1024
        → load_word final (p + 4 * j) ≡ load_word s.phys (s.directory + 4 * j)

  directory_word_kept :
      (m : Memory) (i : ℕ)
      → Agrees p s.phys m
      → i < 1024
      → load_word m (s.directory + 4 * i) ≡ load_word s.phys (s.directory + 4 * i)
  directory_word_kept m i agrees small =
      load_word-Agrees p s.phys m (s.directory + 4 * i) agrees
        (elim no_directory [ inl h ↦ inr (omega (arith, h)) | inr h ↦ inl (omega (arith, h)) ])

  here :
      (m : Memory) (i : ℕ) (final : Memory)
      → Agrees p s.phys m
      → ((x : ℕ) → s.phys x < 256)
      → i < 1024
      → ((a : ℕ)
          → (a < p + 4 * (i + 1)) ⊎ (p + 4096 ≤ a)
          → final a ≡ store_word m (p + 4 * i) (load_word m (s.directory + 4 * i)) a)
      → load_word final (p + 4 * i) ≡ load_word s.phys (s.directory + 4 * i)
  here m i final agrees bytes small same =
      let a = p + 4 * i in
      let word = load_word m (s.directory + 4 * i) in
      let kept = directory_word_kept m i agrees small in
      load_word-cong (store_word m a word) final a (same a (inl (omega arith)))
        (same (a + 1) (inl (omega arith))) (same (a + 2) (inl (omega arith)))
        (same (a + 3) (inl (omega arith)))
      ∙ load_word-store_word m a word
          (omega (arith, kept, load_word-word s.phys (s.directory + 4 * i) bytes))
      ∙ kept

  copy_entries-Copied :
      ((x : ℕ) → s.phys x < 256)
      → (n i : ℕ) (m : Memory) → i + n ≡ 1024
      → Agrees p s.phys m
      → Copied i m (copy_entries n i v (set_phys m s))
  unfolding copy_entries put_word
  copy_entries-Copied bytes zero i m sum agrees = record {
    final = m;
    returns = refl;
    same = λ a h. refl;
    words = λ j from to. absurd (omega arith);
  }
  copy_entries-Copied bytes (suc n) i m sum agrees =
      let word = load_word m (s.directory + 4 * i) in
      let m_next = store_word m (p + 4 * i) word in
      let outside = λ (x : ℕ) (h : (x < p + 4 * i) ⊎ (p + 4 * i + 4 ≤ x)).
        byte_elsewhere m (p + 4 * i) word x h in
      let agrees_next : Agrees p s.phys m_next =
        λ x h. outside x (around p i x (omega arith) (from_start p i x h)) ∙ agrees x h in
      let rest = copy_entries-Copied bytes n (i + 1) m_next (omega arith) agrees_next in
      record {
        final = rest.final;
        returns = rw (translate-Agrees m agrees (4 * i) (omega arith)) rest.returns;
        same = λ a h.
            rest.same a (sooner p i (i + 1) a (omega arith) h)
            ∙ outside a (around p i a (omega arith) h);
        words = λ j from to. elim (Bool-cases (i == j)) [
          | inl e ↦
              ap (λ (k : ℕ). load_word rest.final (p + 4 * k)) (sym (==→eq i j e))
              ∙ here m i rest.final agrees bytes (omega arith) rest.same
              ∙ ap (λ (k : ℕ). load_word s.phys (s.directory + 4 * k)) (==→eq i j e)
          | inr e ↦ rest.words j (ne_above i j from (λ o. ==_false→ne i j e (sym o))) to
        ];
      }

  abbrev cleared : Memory
  cleared = memset p 0 4096 s.phys

  cleared-Agrees : Agrees p s.phys cleared
  cleared-Agrees x (inl h) = ground (arith, memset_lem p 0 4096 s.phys x)
  cleared-Agrees x (inr h) = ground (arith, memset_lem p 0 4096 s.phys x)

  cleared_byte : (x : ℕ) → p ≤ x → x < p + 4096 → cleared x ≡ 0
  cleared_byte x from to = ground (arith, memset_lem p 0 4096 s.phys x)

  cleared_word : (j : ℕ) → j < 1024 → load_word cleared (p + 4 * j) ≡ 0
  unfolding load_word
  cleared_word j small = omega (
    arith,
    cleared_byte (p + 4 * j) (omega arith) (omega arith),
    cleared_byte (p + 4 * j + 1) (omega arith) (omega arith),
    cleared_byte (p + 4 * j + 2) (omega arith) (omega arith),
    cleared_byte (p + 4 * j + 3) (omega arith) (omega arith),
  )

  -- The page cleared, and the kernel's entries copied to it.
  pub record Filled : Type 0 where
    pub final : Memory
    pub returns :
        (more : Mm → Option Mm)
        → (do t ← clear_page v s; u ← copy_entries 256 768 v t; more u) ≡ more (set_phys final s)
    pub agrees : Agrees p s.phys final
    pub words :
        (j : ℕ)
        → j < 1024
        → load_word final (p + 4 * j)
          ≡ (if ltb j 768 then 0 else load_word s.phys (s.directory + 4 * j))

  pub clear_and_copy : ((x : ℕ) → s.phys x < 256) → Filled
  unfolding clear_page
  clear_and_copy bytes =
      let copied = copy_entries-Copied bytes 256 768 cleared (omega arith) cleared-Agrees in
      let here : translate v s ≡ some p =
        ap (λ (a : ℕ). translate a s) (omega arith)
        ∙ translate-Agrees s.phys (λ x h. refl) 0 (omega arith)
        ∙ ap some (omega arith) in
      record {
        final = copied.final;
        returns = λ more. rw (here, copied.returns) refl;
        agrees = λ x h. copied.same x (from_start p 768 x h) ∙ cleared-Agrees x h;
        words = λ j small. elim (Bool-cases (ltb j 768)) [
          | inl e ↦
              let low = ltb→lt j 768 e in
              rw e (
                load_word-cong cleared copied.final (p + 4 * j)
                  (copied.same (p + 4 * j) (inl (omega arith)))
                  (copied.same (p + 4 * j + 1) (inl (omega arith)))
                  (copied.same (p + 4 * j + 2) (inl (omega arith)))
                  (copied.same (p + 4 * j + 3) (inl (omega arith)))
                ∙ cleared_word j small)
          | inr e ↦ rw e (copied.words j (ltb_false→le j 768 e) small)
        ];
      }
