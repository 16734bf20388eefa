-- ===== src/CString/Texts.antt =====
-- What the string comparisons of lib/string.c decide.
use matrix_os.Prelude.{
  ℕ, zero, suc, ◌+◌, ◌<◌, ◌≡◌, refl, ap, ◌∙◌, ◌↔◌, not, List, [], ◌∷◌, arith, ◌==◌, if◌then◌else◌,
  length, get_or, take,
}
use matrix_os.Prelude.Int.{pos}
use matrix_os.CString.{strlen_from, strlen, strcmp, strncmp_from, strncmp, char_diff}

-- The bytes before the terminator.
abbrev pub text : List ℕ → List ℕ
text [] = []
text (c ∷ s) = if c == 0 then [] else c ∷ text s

strlen_from_lem : (s : List ℕ) (n : ℕ) → strlen_from s n ≡ n + length (text s)
unfolding strlen_from
strlen_from_lem [] n = omega arith
strlen_from_lem (c ∷ s) n = ground (arith, strlen_from_lem s (n + 1))

-- `strlen` counts the bytes before the terminator.
pub strlen_lem : (s : List ℕ) → strlen s ≡ length (text s)
unfolding strlen
strlen_lem s = omega (arith, strlen_from_lem s 0)

-- `strcmp` returns 0 exactly when the two strings hold the same bytes before their terminators.
pub strcmp_iff : (s t : List ℕ) → (strcmp s t ≡ pos 0) ↔ (text s ≡ text t)
unfolding strcmp
strcmp_iff [] [] = (λ e. refl, λ e. refl)
strcmp_iff [] (b ∷ t) = (λ e. ground arith, λ e. ground arith)
strcmp_iff (a ∷ s) [] = (λ e. ground arith, λ e. ground arith)
strcmp_iff (a ∷ s) (b ∷ t) =
    (λ e. ground (arith, strcmp_iff s t), λ e. ground (arith, strcmp_iff s t))

char_diff-zero : (a b : ℕ) → a < 256 → b < 256 → char_diff a b ≡ pos 0 → a ≡ b
char_diff-zero a b h k e = ground arith

abbrev pub IsBytes : List ℕ → Type 0
IsBytes [] = Unit
IsBytes (c ∷ s) = (c < 256) × IsBytes s

abbrev tail : List ℕ → List ℕ
tail [] = []
tail (c ∷ s) = s

get_or-tail : (s : List ℕ) (i : ℕ) → get_or s (suc i) 0 ≡ get_or (tail s) i 0
get_or-tail [] i = refl
get_or-tail (c ∷ s) i = refl

strncmp_from-tail :
    (s t : List ℕ) (i n : ℕ) → strncmp_from s t (suc i) n ≡ strncmp_from (tail s) (tail t) i n
unfolding strncmp_from
strncmp_from-tail s t i zero = refl
strncmp_from-tail s t i (suc n) =
    let next : strncmp_from s t (suc i + 1) n ≡ strncmp_from (tail s) (tail t) (i + 1) n =
      ap (λ k. strncmp_from s t k n) (omega arith) ∙ strncmp_from-tail s t (i + 1) n in
    simp (get_or-tail, next)

strncmp_step :
    (s t : List ℕ) (n : ℕ)
    → strncmp_from s t 0 (suc n) ≡ (
        if not (get_or s 0 0 == get_or t 0 0)
        then char_diff (get_or s 0 0) (get_or t 0 0)
        else if get_or s 0 0 == 0
        then pos 0
        else strncmp_from (tail s) (tail t) 0 n)
unfolding strncmp_from
strncmp_step s t n =
    let next : strncmp_from s t (0 + 1) n ≡ strncmp_from (tail s) (tail t) 0 n =
      ap (λ k. strncmp_from s t k n) (omega arith) ∙ strncmp_from-tail s t 0 n in
    simp next

strncmp_none : (s t : List ℕ) (i : ℕ) → strncmp_from s t i zero ≡ pos 0
unfolding strncmp_from
strncmp_none s t i = refl

strncmp_zero_iff :
    (s t : List ℕ) (n : ℕ)
    → IsBytes s
    → IsBytes t
    → (strncmp_from s t 0 n ≡ pos 0) ↔ (take n (text s) ≡ take n (text t))
strncmp_zero_iff s t zero h k = (λ e. refl, λ e. strncmp_none s t 0)
strncmp_zero_iff [] [] (suc n) h k = (λ e. refl, λ e. ground (arith, strncmp_step [] [] n))
strncmp_zero_iff [] (b ∷ t) (suc n) h k = (
  λ e. ground (arith, strncmp_step [] (b ∷ t) n, char_diff-zero 0 b),
  λ e. ground (arith, strncmp_step [] (b ∷ t) n),
)
strncmp_zero_iff (a ∷ s) [] (suc n) h k = (
  λ e. ground (arith, strncmp_step (a ∷ s) [] n, char_diff-zero a 0),
  λ e. ground (arith, strncmp_step (a ∷ s) [] n),
)
strncmp_zero_iff (a ∷ s) (b ∷ t) (suc n) h k =
    let rest = strncmp_zero_iff s t n h.1 k.1 in
    (
      λ e. ground (arith, strncmp_step (a ∷ s) (b ∷ t) n, char_diff-zero a b, rest),
      λ e. ground (arith, strncmp_step (a ∷ s) (b ∷ t) n, rest),
    )

-- `strncmp` returns 0 exactly when the first `n` bytes of the two strings agree, up to a terminator.
pub strncmp_iff :
    (s t : List ℕ) (n : ℕ)
    → IsBytes s
    → IsBytes t
    → (strncmp s t n ≡ pos 0) ↔ (take n (text s) ≡ take n (text t))
unfolding strncmp
strncmp_iff s t n h k = strncmp_zero_iff s t n h k
