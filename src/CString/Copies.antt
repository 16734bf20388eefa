-- ===== src/CString/Copies.antt =====
-- What strncpy, strcpy and strcat of lib/string.c leave in the destination array.
use matrix_os.Prelude.{
  ℕ, zero, suc, ◌+◌, ◌-◌, ◌≤◌, ◌<◌, ◌≡◌, ◌≢◌, refl, ap, ◌∙◌, inl, inr, ◌&&◌, List, [], ◌∷◌, ◌++◌,
  arith, ◌==◌, leb, ltb, if◌then◌else◌, Bool-cases, length, get_or, set, take, length-set,
  get_or-set_self, get_or-set_ne, length-append, ==_false→ne,
}
use matrix_os.CString.{pad_from, strncpy_from, strncpy, copy_text_at, strcpy, strlen, strcat}
use matrix_os.CString.Texts.{text, strlen_lem}

-- Up to its terminator a text is told by its bytes.
pub text_ext :
    (xs ys : List ℕ)
    → ((k : ℕ) → k ≤ length (text ys) → get_or xs k 0 ≡ get_or (text ys) k 0)
    → text xs ≡ text ys
text_ext [] [] h = refl
text_ext (a ∷ xs) [] h = ground (arith, h 0 (omega arith))
text_ext [] (b ∷ ys) h = ground (arith, h 0 (omega arith))
text_ext (a ∷ xs) (b ∷ ys) h = elim (Bool-cases (b == 0)) [
  | inl end ↦ ground (arith, h 0 (omega arith))
  | inr more ↦
      let next : (k : ℕ) → k ≤ length (text ys) → get_or xs k 0 ≡ get_or (text ys) k 0 =
        λ k l. ground (arith, h (suc k)) in
      ground (arith, h 0 (omega arith), text_ext xs ys next)
]

get_or-text : (s : List ℕ) (i : ℕ) → i ≤ length (text s) → get_or s i 0 ≡ get_or (text s) i 0
get_or-text [] i h = refl
get_or-text (c ∷ s) zero h = ground arith
get_or-text (c ∷ s) (suc i) h = ground (arith, get_or-text s i)

text-end : (s : List ℕ) (i : ℕ) → get_or s i 0 ≡ 0 → length (text s) ≤ i
text-end [] i h = omega arith
text-end (c ∷ s) zero h = ground arith
text-end (c ∷ s) (suc i) h = ground (arith, text-end s i)

text-more : (s : List ℕ) (i : ℕ) → i ≤ length (text s) → get_or s i 0 ≢ 0 → i < length (text s)
text-more [] i h ne = absurd (ne refl)
text-more (c ∷ s) zero h ne = ground arith
text-more (c ∷ s) (suc i) h ne = ground (arith, text-more s i)

get_or_ge : (s : List ℕ) (i : ℕ) → length s ≤ i → get_or s i 0 ≡ 0
get_or_ge [] i h = refl
get_or_ge (c ∷ s) zero h = absurd (omega arith)
get_or_ge (c ∷ s) (suc i) h = get_or_ge s i (omega arith)

get_or-pad_from :
    (n i : ℕ) (d : List ℕ) (k : ℕ)
    → i + n ≤ length d
    → get_or (pad_from n i d) k 0 ≡ (if leb i k && ltb k (i + n) then 0 else get_or d k 0)
unfolding pad_from
get_or-pad_from zero i d k h = ground arith
get_or-pad_from (suc n) i d k h = ground (
  arith,
  get_or-pad_from n (i + 1) (set d i 0) k,
  length-set d i 0,
  get_or-set_self d i 0 0,
  get_or-set_ne d i k 0 0,
)

length-pad_from : (n i : ℕ) (d : List ℕ) → length (pad_from n i d) ≡ length d
unfolding pad_from
length-pad_from zero i d = refl
length-pad_from (suc n) i d = length-pad_from n (i + 1) (set d i 0) ∙ length-set d i 0

length-strncpy_from : (n i : ℕ) (d src : List ℕ) → length (strncpy_from n i d src) ≡ length d
unfolding strncpy_from
length-strncpy_from zero i d src = refl
length-strncpy_from (suc n) i d src = ground (
  arith,
  length-pad_from n (i + 1) (set d i 0),
  length-set d i 0,
  length-set d i (get_or src i 0),
  length-strncpy_from n (i + 1) (set d i (get_or src i 0)) src,
)

get_or-strncpy_from :
    (n i : ℕ) (d src : List ℕ) (k : ℕ)
    → i + n ≤ length d
    → i ≤ length (text src)
    → get_or (strncpy_from n i d src) k 0
      ≡ (if leb i k && ltb k (i + n) then get_or (text src) k 0 else get_or d k 0)
unfolding strncpy_from
get_or-strncpy_from zero i d src k h l = ground arith
get_or-strncpy_from (suc n) i d src k h l = elim (Bool-cases (get_or src i 0 == 0)) [
  | inl end ↦ ground (
    arith,
    get_or-pad_from (suc n) i d k h,
    text-end src i (ground arith),
    get_or_ge (text src) k,
  )
  | inr more ↦
      let here = get_or-text src i l in
      let longer = text-more src i l (==_false→ne _ _ more) in
      let next =
        get_or-strncpy_from n (i + 1) (set d i (get_or src i 0)) src k
          (omega (arith, length-set d i (get_or src i 0))) (omega arith) in
      elim (Bool-cases (k == i)) [
        | inl at ↦
            let same : k ≡ i = ground arith in
            rw same (
              ground (
                arith,
                here,
                get_or-set_self d i (get_or src i 0) 0 (omega arith),
                rw same at next,
              ))
        | inr off ↦ ground (arith, next, get_or-set_ne d i k (get_or src i 0) 0)
      ]
]

get_or-take :
    (n : ℕ) (s : List ℕ) (k : ℕ) → get_or (take n s) k 0 ≡ (if ltb k n then get_or s k 0 else 0)
get_or-take zero s k = ground arith
get_or-take (suc n) [] k = ground arith
get_or-take (suc n) (c ∷ s) zero = ground arith
get_or-take (suc n) (c ∷ s) (suc k) = ground (arith, get_or-take n s k)

text-take-text : (n : ℕ) (s : List ℕ) → text (take n (text s)) ≡ take n (text s)
text-take-text zero s = refl
text-take-text (suc n) [] = refl
text-take-text (suc n) (c ∷ s) = ground (arith, text-take-text n s)

length-take-le : (n : ℕ) (s : List ℕ) → length (take n s) ≤ n
length-take-le zero s = omega arith
length-take-le (suc n) [] = omega arith
length-take-le (suc n) (c ∷ s) = omega (arith, length-take-le n s)

pub length-strncpy : (dest src : List ℕ) (n : ℕ) → length (strncpy dest src n) ≡ length dest
unfolding strncpy
length-strncpy dest src n = length-strncpy_from n 0 dest src

-- `strncpy(dest, src, n)` followed by `dest[n] = '\0'`, as the kernel fills its name fields: an array
-- of more than `n` bytes then holds the first `n` bytes of the string, and keeps its size.
pub strncpy_terminated :
    (dest src : List ℕ) (n : ℕ)
    → n < length dest
    → (text (set (strncpy dest src n) n 0) ≡ take n (text src))
      × (length (set (strncpy dest src n) n 0) ≡ length dest)
unfolding strncpy
strncpy_terminated dest src n h = (
  text_ext (set (strncpy_from n 0 dest src) n 0) (take n (text src)) (λ k l.
        rw (text-take-text n src) (
          ground (
            arith,
            length-take-le n (text src),
            ap length (text-take-text n src),
            get_or-take n (text src) k,
            get_or-set_self (strncpy_from n 0 dest src) n 0 0,
            get_or-set_ne (strncpy_from n 0 dest src) n k 0 0,
            length-strncpy_from n 0 dest src,
            get_or-strncpy_from n 0 dest src k,
          )))
      ∙ text-take-text n src,
  length-set (strncpy_from n 0 dest src) n 0 ∙ length-strncpy_from n 0 dest src,
)

get_or-cons : (c : ℕ) (s : List ℕ) (k : ℕ) → 0 < k → get_or (c ∷ s) k 0 ≡ get_or s (k - 1) 0
get_or-cons c s zero h = absurd (omega arith)
get_or-cons c s (suc k) h = ap (λ j. get_or s j 0) (omega arith)

get_or-copy_text_at :
    (src d : List ℕ) (i k : ℕ)
    → i + length (text src) < length d
    → get_or (copy_text_at d i src) k 0 ≡ (
        if leb i k && leb k (i + length (text src))
        then get_or (text src) (k - i) 0
        else get_or d k 0)
unfolding copy_text_at
get_or-copy_text_at [] d i k h = ground (arith, get_or-set_self d i 0 0, get_or-set_ne d i k 0 0)
get_or-copy_text_at (c ∷ src) d i k h = elim (Bool-cases (c == 0)) [
  | inl end ↦ ground (arith, get_or-set_self d i 0 0, get_or-set_ne d i k 0 0)
  | inr more ↦ rw more (
      ground (
        arith,
        rw more at h,
        get_or-copy_text_at src (set d i c) (i + 1) k,
        length-set d i c,
        get_or-set_self d i c 0,
        get_or-set_ne d i k c 0,
        get_or-cons c (text src) (k - i),
        index,
      ))
]
  where
    index : k - (i + 1) ≡ k - i - 1
    index = omega arith

get_or-append :
    (xs ys : List ℕ) (k : ℕ)
    → get_or (xs ++ ys) k 0
      ≡ (if ltb k (length xs) then get_or xs k 0 else get_or ys (k - length xs) 0)
get_or-append [] ys k = ground arith
get_or-append (x ∷ xs) ys zero = ground arith
get_or-append (x ∷ xs) ys (suc k) = ground (arith, get_or-append xs ys k)

text-text : (s : List ℕ) → text (text s) ≡ text s
text-text [] = refl
text-text (c ∷ s) = ground (arith, text-text s)

text-append-text : (s t : List ℕ) → text (text s ++ text t) ≡ text s ++ text t
text-append-text [] t = text-text t
text-append-text (c ∷ s) t = elim (Bool-cases (c == 0)) [
  | inl end ↦ rw end (text-text t)
  | inr more ↦ rw (more, more) (ap (◌∷◌ c) (text-append-text s t))
]

-- `strcpy` leaves the source's text in an array that has room for it and its terminator.
pub strcpy_lem :
    (dest src : List ℕ) → length (text src) < length dest → text (strcpy dest src) ≡ text src
unfolding strcpy
strcpy_lem dest src h =
    text_ext (copy_text_at dest 0 src) src (λ k l. ground (arith, get_or-copy_text_at src dest 0 k))

-- `strcat` appends the source's text to the text that the array holds, where there is room for both.
pub strcat_lem :
    (dest src : List ℕ)
    → length (text dest) + length (text src) < length dest
    → text (strcat dest src) ≡ text dest ++ text src
unfolding strcat
strcat_lem dest src h =
    text_ext (copy_text_at dest (strlen dest) src) (text dest ++ text src) (λ k l.
      rw (text-append-text dest src, strlen_lem dest)
        (ground (
          arith,
          ap length (text-append-text dest src),
          length-append (text dest) (text src),
          get_or-append (text dest) (text src) k,
          get_or-text dest k,
          get_or-copy_text_at src dest (length (text dest)) k,
        )))
    ∙ text-append-text dest src
