-- ===== src/Pmm/Cover.antt =====
-- What the free lists of pmm.c hold: how many free blocks an address lies in, which blocks may stand
-- in a list, and what the elementary updates do to both.

use matrix_os.Prelude.{
  refl, replicate, ℕ, zero, suc, ◌+◌, ◌*◌, ◌%◌, ◌^◌, ◌≤◌, ◌<◌, ◌≡◌, ◌∙◌, arith, leb, ltb, ◌&&◌,
  if◌then◌else◌, List, [], ◌∷◌, length, get_or, set, length-set,
}
use matrix_os.Pmm.{FreeArea, Buddy, area, no_blocks}
use matrix_os.Pmm.Xor.{block_size, block_size-suc}

-- 1 if the address `x` lies in the block of order `k` at `a`, and 0 if not.
abbrev pub in_block : ℕ → ℕ → ℕ → ℕ
in_block k a x = if leb a x && ltb x (a + block_size k) then 1 else 0

abbrev pub cover_list : ℕ → List ℕ → ℕ → ℕ
cover_list k [] x = 0
cover_list k (a ∷ l) x = in_block k a x + cover_list k l x

abbrev pub cover_areas : ℕ → List FreeArea → ℕ → ℕ
cover_areas k [] x = 0
cover_areas k (a ∷ areas) x = cover_list k a.free_list x + cover_areas (suc k) areas x

-- In how many free blocks the address `x` lies.
abbrev pub cover : Buddy → ℕ → ℕ
cover s x = cover_areas 0 s.free_area x

-- A block of order `k` starts at a multiple of its size from the base, and ends within 32 bits.
pub record IsBlock (base k a : ℕ) : Type 0 where
  pub index : ℕ
  pub starts : a ≡ base + index * block_size k
  pub ends : a + block_size k ≤ 2 ^ 32

abbrev pub AllBlocks : ℕ → ℕ → List ℕ → Type 0
AllBlocks base k [] = Unit
AllBlocks base k (a ∷ l) = IsBlock base k a × AllBlocks base k l

-- A list holds blocks of its order, and its counter is its length.
pub record IsArea (base k : ℕ) (a : FreeArea) : Type 0 where
  pub blocks : AllBlocks base k a.free_list
  pub count : a.nr_free ≡ length a.free_list % 2 ^ 32

abbrev pub AllAreas : ℕ → ℕ → List FreeArea → Type 0
AllAreas base k [] = Unit
AllAreas base k (a ∷ areas) = IsArea base k a × AllAreas base (suc k) areas

-- The state that `pmm_init` makes and every call keeps. The base is a multiple of the largest block.
pub record IsValid (s : Buddy) : Type 0 where
  pub base_multiple : ℕ
  pub base : s.base_addr ≡ base_multiple * block_size 11
  pub size : length s.free_area ≡ 12
  pub areas : AllAreas s.base_addr 0 s.free_area

-- Empty lists.
pub no_blocks-IsArea : (base k : ℕ) → IsArea base k no_blocks
no_blocks-IsArea base k = record { blocks = tt; count = refl }

pub no_blocks-AllAreas : (base k n : ℕ) → AllAreas base k (replicate n no_blocks)
no_blocks-AllAreas base k zero = tt
no_blocks-AllAreas base k (suc n) = (no_blocks-IsArea base k, no_blocks-AllAreas base (suc k) n)

-- The two halves of a block.
pub in_block-halves :
    (k a x : ℕ) → in_block (suc k) a x ≡ in_block k a x + in_block k (a + block_size k) x
in_block-halves k a x = ground (arith, block_size-suc k)

cover_areas-set :
    (areas : List FreeArea) (k j i : ℕ) (new : FreeArea) (x : ℕ)
    → j < length areas
    → i ≡ k + j
    → cover_areas k (set areas j new) x + cover_list i (get_or areas j no_blocks).free_list x
      ≡ cover_areas k areas x + cover_list i new.free_list x
cover_areas-set [] k j i new x h e = absurd (omega arith)
cover_areas-set (a ∷ areas) k zero i new x h e = let at : i ≡ k = omega arith in rw at (omega arith)
cover_areas-set (a ∷ areas) k (suc j) i new x h e =
    omega (arith, cover_areas-set areas (suc k) j i new x (omega arith) (omega arith))

AllAreas-get :
    (areas : List FreeArea) (base k j i : ℕ)
    → j < length areas
    → i ≡ k + j
    → AllAreas base k areas
    → IsArea base i (get_or areas j no_blocks)
AllAreas-get [] base k j i h e v = absurd (omega arith)
AllAreas-get (a ∷ areas) base k zero i h e v = let at : i ≡ k = omega arith in rw at v.0
AllAreas-get (a ∷ areas) base k (suc j) i h e v =
    AllAreas-get areas base (suc k) j i (omega arith) (omega arith) v.1

AllAreas-set :
    (areas : List FreeArea) (base k j i : ℕ) (new : FreeArea)
    → i ≡ k + j
    → AllAreas base k areas
    → IsArea base i new
    → AllAreas base k (set areas j new)
AllAreas-set [] base k j i new e v w = tt
AllAreas-set (a ∷ areas) base k zero i new e v w = let at : k ≡ i = omega arith in (rw at w, v.1)
AllAreas-set (a ∷ areas) base k (suc j) i new e v w =
    (v.0, AllAreas-set areas base (suc k) j i new (omega arith) v.1 w)

-- The area of an order up to 11.
pub IsValid-area : (s : Buddy) (k : ℕ) → k < 12 → IsValid s → IsArea s.base_addr k (area s k)
IsValid-area s k h v =
    AllAreas-get s.free_area s.base_addr 0 k k (omega (arith, v.size)) (omega arith) v.areas

-- Whatever puts a fitting area in the place of another keeps the state valid.
pub IsValid-set :
    (s t : Buddy) (k : ℕ) (new : FreeArea)
    → t.free_area ≡ set s.free_area k new
    → t.base_addr ≡ s.base_addr
    → IsValid s
    → IsArea s.base_addr k new
    → IsValid t
IsValid-set s t k new e b v w = record {
  base_multiple = v.base_multiple;
  base = b ∙ v.base;
  size = rw e (length-set s.free_area k new ∙ v.size);
  areas = rw (e, b) (AllAreas-set s.free_area s.base_addr 0 k k new (omega arith) v.areas w);
}

pub cover-set :
    (s t : Buddy) (k : ℕ) (new : FreeArea) (x : ℕ)
    → t.free_area ≡ set s.free_area k new
    → k < length s.free_area
    → cover t x + cover_list k (area s k).free_list x ≡ cover s x + cover_list k new.free_list x
cover-set s t k new x e h = rw e (cover_areas-set s.free_area 0 k k new x h (omega arith))
