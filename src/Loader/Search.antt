-- ===== src/Loader/Search.antt =====
-- What loader.c finds, and the names it stores.
use matrix_os.Prelude.{
  ℕ, zero, suc, ◌+◌, ◌<◌, ◌≡◌, ◌≢◌, ap, subst, inl, inr, true, false, arith, List, Option, none,
  some, Bool-cases, get_or, ==→eq,
}
use matrix_os.Prelude.Int.{ℤ, pos, negsuc}
use matrix_os.CString.{strcmp}
use matrix_os.CString.Texts.{text, strcmp_iff}
use matrix_os.Vfs.{is_zero}
use matrix_os.Loader.{Loader, no_module, find_module_from, loader_find_module}

abbrev pub name_of : Loader → ℕ → List ℕ
name_of l i = text (get_or l.modules i no_module).name

-- None of the first `n` modules has the name.
abbrev pub NoneNamed : List ℕ → Loader → ℕ → Type 0
NoneNamed name l zero = Unit
NoneNamed name l (suc n) = NoneNamed name l n × (name_of l n ≢ text name)

-- What a search over `count` modules promises: the first that has the name, if there is one.
pub data Finds (name : List ℕ) (l : Loader) (count : ℕ) : Option ℕ → Type 0 where
  missing : NoneNamed name l count → Finds name l count none
  first :
      (i : ℕ)
      → i < count
      → name_of l i ≡ text name
      → NoneNamed name l i
      → Finds name l count (some i)

pub is_zero-pos : (r : ℤ) → is_zero r ≡ true → r ≡ pos 0
is_zero-pos (pos n) e = ap pos (==→eq n 0 e)
is_zero-pos (negsuc n) e = absurd (ground arith)

strcmp-is_zero : (s t : List ℕ) → is_zero (strcmp s t) ≡ true → text s ≡ text t
strcmp-is_zero s t e = (strcmp_iff s t).0 (is_zero-pos (strcmp s t) e)

strcmp_nonzero : (s t : List ℕ) → is_zero (strcmp s t) ≡ false → text s ≢ text t
strcmp_nonzero s t e same =
    let zero_result : strcmp s t ≡ pos 0 = (strcmp_iff s t).1 same in
    absurd (let bad : true ≡ false = rw (zero_result) at e in ground arith)

-- The search over the `n` modules from index `i` on, where the earlier ones have another name.
find_module_from-Finds :
    (n i : ℕ) (name : List ℕ) (l : Loader)
    → NoneNamed name l i
    → Finds name l (i + n) (find_module_from n i name l.modules)
unfolding find_module_from
find_module_from-Finds zero i name l before =
    subst (λ (t : ℕ). Finds name l t none) (omega arith) (missing before)
find_module_from-Finds (suc n) i name l before =
    elim (Bool-cases (is_zero (strcmp (get_or l.modules i no_module).name name))) [
      | inl here ↦ rw (here) (
          first i (omega arith) (strcmp-is_zero (get_or l.modules i no_module).name name here)
            before)
      | inr other ↦
          let so_far : NoneNamed name l (suc i) =
            (before, strcmp_nonzero (get_or l.modules i no_module).name name other) in
          let next : suc i ≡ i + 1 = omega arith in
          rw (other) (
            subst (λ (t : ℕ). Finds name l t (find_module_from n (i + 1) name l.modules))
              (omega arith)
              (find_module_from-Finds n (i + 1) name l (subst (NoneNamed name l) next so_far)))
    ]

-- `loader_find_module` gives the first of the loaded modules whose name is the one asked for, and NULL
-- exactly where none has it.
pub loader_find_module_lem :
    (name : List ℕ) (l : Loader) → Finds name l l.module_count (loader_find_module name l)
unfolding loader_find_module
loader_find_module_lem name l =
    subst (λ (t : ℕ). Finds name l t (loader_find_module name l)) (omega arith)
      (find_module_from-Finds l.module_count 0 name l tt)
