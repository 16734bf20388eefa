-- ===== src/Vmm/Pages.antt =====
-- Memory up to one page, and pages that share no byte.
use matrix_os.Prelude.{ℕ, ◌+◌, ◌*◌, ◌^◌, ◌≤◌, ◌<◌, ◌≡◌, ◌⊎◌, inl, inr, arith}
use matrix_os.Prelude.Word.{align_down}
use matrix_os.CString.{Memory}
use matrix_os.Paging.{Mm, load_word, directory_entry, temp_mapping_addr}

-- Outside the page at `p`.
abbrev pub Beyond : ℕ → ℕ → Type 0
Beyond p x = (x < p) ⊎ (p + 4096 ≤ x)

-- Memory that differs from `m` at most in the page at `p`.
abbrev pub Agrees : ℕ → Memory → Memory → Type 0
Agrees p m n = (x : ℕ) → Beyond p x → n x ≡ m x

pub load_word-cong :
    (m n : Memory) (a : ℕ)
    → n a ≡ m a
    → n (a + 1) ≡ m (a + 1)
    → n (a + 2) ≡ m (a + 2)
    → n (a + 3) ≡ m (a + 3)
    → load_word n a ≡ load_word m a
unfolding load_word
load_word-cong m n a e f g h = omega (arith, e, f, g, h)

pub load_word-Agrees :
    (p : ℕ) (m n : Memory) (a : ℕ)
    → Agrees p m n
    → (a + 4 ≤ p) ⊎ (p + 4096 ≤ a)
    → load_word n a ≡ load_word m a
load_word-Agrees p m n a agrees (inl below) =
    load_word-cong m n a (agrees a (inl (omega arith))) (agrees (a + 1) (inl (omega arith)))
      (agrees (a + 2) (inl (omega arith))) (agrees (a + 3) (inl (omega arith)))
load_word-Agrees p m n a agrees (inr above) =
    load_word-cong m n a (agrees a (inr (omega arith))) (agrees (a + 1) (inr (omega arith)))
      (agrees (a + 2) (inr (omega arith))) (agrees (a + 3) (inr (omega arith)))

pub load_word-word : (m : Memory) (a : ℕ) → ((x : ℕ) → m x < 256) → load_word m a < 2 ^ 32
unfolding load_word
load_word-word m a bytes = omega (arith, bytes a, bytes (a + 1), bytes (a + 2), bytes (a + 3))

-- The address of the page table that holds the slots.
abbrev pub slot_table : Mm → ℕ
slot_table s = align_down (load_word s.phys (directory_entry temp_mapping_addr s)) 4096

-- Two pages that share no byte.
abbrev pub PagesApart : ℕ → ℕ → Type 0
PagesApart a b = (a + 4096 ≤ b) ⊎ (b + 4096 ≤ a)

pub sooner :
    (p i k a : ℕ) → i ≤ k → (a < p + 4 * i) ⊎ (p + 4096 ≤ a) → (a < p + 4 * k) ⊎ (p + 4096 ≤ a)
sooner p i k a le (inl h) = inl (omega arith)
sooner p i k a le (inr h) = inr h

pub from_start : (p i a : ℕ) → Beyond p a → (a < p + 4 * i) ⊎ (p + 4096 ≤ a)
from_start p i a (inl h) = inl (omega arith)
from_start p i a (inr h) = inr h

pub around :
    (p i a : ℕ)
    → i < 1024
    → (a < p + 4 * i) ⊎ (p + 4096 ≤ a)
    → (a < p + 4 * i) ⊎ (p + 4 * i + 4 ≤ a)
around p i a small (inl h) = inl h
around p i a small (inr h) = inr (omega arith)
