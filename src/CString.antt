-- ===== src/CString.antt =====
-- lib/string.c. The mem functions work on the bytes of memory, by address. A C string is the list
-- of the bytes from its pointer on; a read past the list is a read of the terminator. A `dest` array
-- is the list of its bytes.
pub mod Blocks
pub mod Texts
pub mod Copies
mod Tests
use matrix_os.Prelude.{
  ℕ, zero, suc, ◌+◌, ◌%◌, ◌<◌, ◌≡◌, Bool, true, false, ◌&&◌, not, List, [], ◌∷◌, ◌==◌, ltb,
  if◌then◌else◌, get_or, set,
}
use matrix_os.Prelude.Int.{ℤ, pos, sub_ℕ}
use matrix_os.Prelude.Loops.{for_range}

abbrev pub Memory : Type 0
Memory = ℕ → ℕ

abbrev pub store : Memory → ℕ → ℕ → Memory
store m a v x = if x == a then v else m x

unfoldable pub memset : ℕ → ℕ → ℕ → Memory → Memory
memset ptr value num m = for_range num 0 (λ i m. store m (ptr + i) (value % 256)) m

-- `for (i = 0; i < num; i++) d[i] = s[i]`.
copy_up : ℕ → ℕ → ℕ → Memory → Memory
copy_up d s num m = for_range num 0 (λ i m. store m (d + i) (m (s + i))) m

unfoldable pub memcpy : ℕ → ℕ → ℕ → Memory → Memory
unfolding copy_up
memcpy dest src num m = copy_up dest src num m

-- `for (i = num; i > 0; i--) d[i - 1] = s[i - 1]`.
copy_down : ℕ → ℕ → ℕ → Memory → Memory
copy_down d s zero m = m
copy_down d s (suc i) m = copy_down d s i (store m (d + i) (m (s + i)))

unfoldable pub memmove : ℕ → ℕ → ℕ → Memory → Memory
unfolding copy_up copy_down
memmove dest src num m = if ltb dest src then copy_up dest src num m else copy_down dest src num m

-- The loop of `memcmp` from index `i`, with the rounds left.
memcmp_from : ℕ → ℕ → ℕ → ℕ → Memory → ℤ
memcmp_from zero i p q m = pos 0
memcmp_from (suc n) i p q m =
    let rest = memcmp_from n (i + 1) p q m in
    if m (p + i) == m (q + i) then rest else sub_ℕ (m (p + i)) (m (q + i))

unfoldable pub memcmp : ℕ → ℕ → ℕ → Memory → ℤ
unfolding memcmp_from
memcmp p q num m = memcmp_from num 0 p q m

strlen_from : List ℕ → ℕ → ℕ
strlen_from [] len = len
strlen_from (c ∷ s) len = let rest = strlen_from s (len + 1) in if c == 0 then len else rest

unfoldable pub strlen : List ℕ → ℕ
unfolding strlen_from
strlen s = strlen_from s 0

-- The bytes are compared as `unsigned char`.
unfoldable pub strcmp : List ℕ → List ℕ → ℤ
strcmp [] t = sub_ℕ 0 (get_or t 0 0)
strcmp (a ∷ s) [] = sub_ℕ a 0
strcmp (a ∷ s) (b ∷ t) =
    let rest = strcmp s t in if not (a == 0) && (a == b) then rest else sub_ℕ a b

-- The difference of two bytes as `char`, which is signed on i386.
abbrev pub char_diff : ℕ → ℕ → ℤ
char_diff a b = sub_ℕ ((a + 128) % 256) ((b + 128) % 256)

strncmp_from : List ℕ → List ℕ → ℕ → ℕ → ℤ
strncmp_from s t i zero = pos 0
strncmp_from s t i (suc n) =
    let rest = strncmp_from s t (i + 1) n in
    let a = get_or s i 0 in
    let b = get_or t i 0 in if not (a == b) then char_diff a b else if a == 0 then pos 0 else rest

unfoldable pub strncmp : List ℕ → List ℕ → ℕ → ℤ
unfolding strncmp_from
strncmp s t num = strncmp_from s t 0 num

-- `for (; i < num; i++) d[i] = '\0'`, with the rounds left.
pad_from : ℕ → ℕ → List ℕ → List ℕ
pad_from zero i d = d
pad_from (suc n) i d = pad_from n (i + 1) (set d i 0)

-- `for (i = 0; i < num && src[i]; i++) d[i] = src[i]`, then the padding.
strncpy_from : ℕ → ℕ → List ℕ → List ℕ → List ℕ
unfolding pad_from
strncpy_from zero i d src = d
strncpy_from (suc n) i d src =
    let rest = strncpy_from n (i + 1) (set d i (get_or src i 0)) src in
    if get_or src i 0 == 0 then pad_from (suc n) i d else rest

unfoldable pub strncpy : List ℕ → List ℕ → ℕ → List ℕ
unfolding strncpy_from
strncpy dest src num = strncpy_from num 0 dest src

-- `while (*src) *d++ = *src++; *d = '\0'`, writing from index `i` of the array.
copy_text_at : List ℕ → ℕ → List ℕ → List ℕ
copy_text_at d i [] = set d i 0
copy_text_at d i (c ∷ src) =
    let rest = copy_text_at (set d i c) (i + 1) src in if c == 0 then set d i 0 else rest

unfoldable pub strcpy : List ℕ → List ℕ → List ℕ
unfolding copy_text_at
strcpy dest src = copy_text_at dest 0 src

-- `while (*d) d++` is the index of the terminator.
unfoldable pub strcat : List ℕ → List ℕ → List ℕ
unfolding copy_text_at strlen
strcat dest src = copy_text_at dest (strlen dest) src
