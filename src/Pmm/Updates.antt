-- ===== src/Pmm/Updates.antt =====
-- The elementary updates of pmm.c: what each does to the free blocks, and that it keeps the state
-- valid.
use matrix_os.Prelude.{
  ℕ, suc, ◌+◌, ◌^◌, ◌<◌, ◌≡◌, refl, ap, ◌∙◌, arith, ◌==◌, Bool, true, if◌then◌else◌, List, [], ◌∷◌,
  length, ==→eq, ==_refl, Bool-cases, inl, inr,
}
use matrix_os.Prelude.Loops.{for_range_keeps}
use matrix_os.Pmm.{
  Buddy, area, push_block, mark, mark_pages, take_first, take_block, has_block, list_del, hand_out,
  page_index, add_block, leave,
}
use matrix_os.Pmm.Cover.{
  in_block, cover_list, cover, IsBlock, AllBlocks, IsValid, IsValid-area, IsValid-set, cover-set,
}

-- Two states with the same base and the same lists; they may differ in marks and orders.
pub record SameLists (s t : Buddy) : Type 0 where
  pub lists : t.free_area ≡ s.free_area
  pub bases : t.base_addr ≡ s.base_addr

pub mark_pages-SameLists :
    (b : Bool) (first n : ℕ) (s : Buddy) → SameLists s (mark_pages b first n s)
unfolding mark_pages
mark_pages-SameLists b first n s =
    for_range_keeps (SameLists s) (λ i t. mark b (first + i) t) n 0 s
      (λ j t h. record { lists = h.lists; bases = h.bases }) (record { lists = refl; bases = refl })

pub hand_out-SameLists : (addr order : ℕ) (s : Buddy) → SameLists s (hand_out addr order s)
unfolding hand_out
hand_out-SameLists addr order s =
    let h =
      mark_pages-SameLists true (page_index addr s) (2 ^ order)
        (record s { page_order = λ a. if a == addr then order else s.page_order a }) in
    record { lists = h.lists; bases = h.bases }

pub SameLists-IsValid : {s t : Buddy} → SameLists s t → IsValid s → IsValid t
SameLists-IsValid h v = record {
  base_multiple = v.base_multiple;
  base = h.bases ∙ v.base;
  size = rw h.lists v.size;
  areas = rw (h.lists, h.bases) v.areas;
}

pub SameLists-cover : {s t : Buddy} (x : ℕ) → SameLists s t → cover t x ≡ cover s x
SameLists-cover x h = rw h.lists

pub base-push_block : (k addr : ℕ) (s : Buddy) → (push_block k addr s).base_addr ≡ s.base_addr
unfolding push_block
base-push_block k addr s = refl

pub base-take_first :
    (k : ℕ) (rest : List ℕ) (s : Buddy) → (take_first k rest s).base_addr ≡ s.base_addr
unfolding take_first
base-take_first k rest s = refl

pub base-take_block : (k addr : ℕ) (s : Buddy) → (take_block k addr s).base_addr ≡ s.base_addr
unfolding take_block
base-take_block k addr s = refl

module _ (k addr : ℕ) (s : Buddy) (v : IsValid s) (h : k < 12) where
  pub cover-push_block : (x : ℕ) → cover (push_block k addr s) x ≡ cover s x + in_block k addr x
  unfolding push_block
  cover-push_block x = omega (
    arith,
    cover-set s (push_block k addr s) k (add_block addr (area s k)) x refl (omega (arith, v.size)),
  )

  pub push_block-IsValid : IsBlock s.base_addr k addr → IsValid (push_block k addr s)
  unfolding push_block
  push_block-IsValid b =
      let old = IsValid-area s k h v in
      IsValid-set s (push_block k addr s) k (add_block addr (area s k)) refl refl v
        (record { blocks = (b, old.blocks); count = omega (arith, old.count) })

module _ (k addr : ℕ) (rest : List ℕ) (s : Buddy) (v : IsValid s) (h : k < 12)
    (first : (area s k).free_list ≡ addr ∷ rest) where
  pub cover-take_first : (x : ℕ) → cover (take_first k rest s) x + in_block k addr x ≡ cover s x
  unfolding take_first
  cover-take_first x = omega (
    arith,
    cover-set s (take_first k rest s) k (leave rest (area s k)) x refl (omega (arith, v.size)),
    ap (λ l. cover_list k l x) first,
  )

  pub first-IsBlock : IsBlock s.base_addr k addr
  first-IsBlock = let b = rw first at (IsValid-area s k h v).blocks in b.0

  pub take_first-IsValid : IsValid (take_first k rest s)
  unfolding take_first
  take_first-IsValid =
      let old = IsValid-area s k h v in
      let b = rw first at old.blocks in
      IsValid-set s (take_first k rest s) k (leave rest (area s k)) refl refl v
        (record { blocks = b.1; count = omega (arith, old.count, ap length first) })

has_block-split :
    (base k addr : ℕ) (l : List ℕ)
    → has_block addr l ≡ true
    → AllBlocks base k l
    → IsBlock base k addr
      × AllBlocks base k (list_del addr l)
      × (length l ≡ suc (length (list_del addr l)))
unfolding has_block list_del
has_block-split base k addr [] e b = absurd (ground arith)
has_block-split base k addr (a ∷ l) e b = elim (Bool-cases (a == addr)) [
  | inl here ↦ let at : a ≡ addr = ==→eq a addr here in rw here (rw at at b.0, b.1, refl)
  | inr later ↦
      let (found, others, count) = has_block-split base k addr l (rw later at e) b.1 in
      rw later (found, (b.0, others), ap suc count)
]

cover_list-del :
    (k addr : ℕ) (l : List ℕ) (x : ℕ)
    → has_block addr l ≡ true
    → cover_list k l x ≡ in_block k addr x + cover_list k (list_del addr l) x
unfolding has_block list_del
cover_list-del k addr [] x e = absurd (ground arith)
cover_list-del k addr (a ∷ l) x e = elim (Bool-cases (a == addr)) [
  | inl here ↦ let at : a ≡ addr = ==→eq a addr here in rw (at, ==_refl addr)
  | inr later ↦ rw later (omega (arith, cover_list-del k addr l x (rw later at e)))
]

module _ (k addr : ℕ) (s : Buddy) (v : IsValid s) (h : k < 12)
    (found : has_block addr (area s k).free_list ≡ true) where
  pub cover-take_block : (x : ℕ) → cover (take_block k addr s) x + in_block k addr x ≡ cover s x
  unfolding take_block
  cover-take_block x = omega (
    arith,
    cover-set s (take_block k addr s) k (leave (list_del addr (area s k).free_list) (area s k)) x
        refl (omega (arith, v.size)),
    cover_list-del k addr (area s k).free_list x found,
  )

  pub found-IsBlock : IsBlock s.base_addr k addr
  found-IsBlock =
      (has_block-split s.base_addr k addr (area s k).free_list found
        (IsValid-area s k h v).blocks).0

  pub take_block-IsValid : IsValid (take_block k addr s)
  unfolding take_block
  take_block-IsValid =
      let old = IsValid-area s k h v in
      let (_, others, count) =
        has_block-split s.base_addr k addr (area s k).free_list found old.blocks in
      IsValid-set s (take_block k addr s) k (leave (list_del addr (area s k).free_list) (area s k))
        refl refl v (record { blocks = others; count = omega (arith, old.count, count) })
