-- ===== src/Pmm/History.antt =====
-- The page allocator of pmm.c over any history of calls by clients that give back only what they hold,
-- with the order that they asked for.
use matrix_os.Prelude.{
  ℕ, ◌+◌, ◌-◌, ◌/◌, ◌^◌, ◌≤◌, ◌<◌, ◌≡◌, ◌≢◌, refl, sym, ap, subst, ◌∙◌, inl, inr, arith, List, [],
  ◌∷◌, ◌++◌,
}
use matrix_os.Pmm.{Buddy, pmm_init, pmm_alloc_pages, pmm_free_pages}
use matrix_os.Pmm.Cover.{in_block, cover, IsBlock, IsValid}
use matrix_os.Pmm.Alloc.{pmm_alloc_pages_lem}
use matrix_os.Pmm.Init.{IsRange, in_run, pmm_init_lem}
use matrix_os.Pmm.Free.{pmm_free_pages_lem}

-- The allocator with the blocks that clients hold, an order and an address each.
pub record System : Type 0 where
  pub buddy : Buddy
  pub live : List (ℕ × ℕ)

-- How many held blocks an address lies in.
abbrev pub live_cover : List (ℕ × ℕ) → ℕ → ℕ
live_cover [] x = 0
live_cover ((k, a) ∷ live) x = in_block k a x + live_cover live x

pub data Step : System → System → Type 0 where
  allocate :
      (order : ℕ) (s : Buddy) (live : List (ℕ × ℕ))
      → order ≤ 11
      → (pmm_alloc_pages order s).0 ≢ 0
      → Step
          (record { buddy = s; live = live })
          (record {
            buddy = (pmm_alloc_pages order s).1;
            live = (order, (pmm_alloc_pages order s).0) ∷ live;
          })
  refuse :
      (order : ℕ) (s : Buddy) (live : List (ℕ × ℕ))
      → (pmm_alloc_pages order s).0 ≡ 0
      → Step
          (record { buddy = s; live = live })
          (record { buddy = (pmm_alloc_pages order s).1; live = live })
  release :
      (order addr : ℕ) (s : Buddy) (before after : List (ℕ × ℕ))
      → Step
          (record { buddy = s; live = before ++ (order, addr) ∷ after })
          (record { buddy = pmm_free_pages addr order s; live = before ++ after })

pub data Reach (s : System) : System → Type 0 where
  here : Reach s s
  next : {t u : System} → Reach s t → Step t u → Reach s u

abbrev AllHeld : ℕ → List (ℕ × ℕ) → Type 0
AllHeld base [] = Unit
AllHeld base ((k, a) ∷ live) = (k ≤ 11) × IsBlock base k a × AllHeld base live

-- The state is valid, page 0 is not managed, and clients hold blocks.
record IsSound (w : System) : Type 0 where
  valid : IsValid w.buddy
  managed : 0 < w.buddy.base_addr
  held : AllHeld w.buddy.base_addr w.live

-- How many blocks, free or held, an address lies in.
abbrev pub owners : System → ℕ → ℕ
owners w x = cover w.buddy x + live_cover w.live x

live_cover-remove :
    (before after : List (ℕ × ℕ)) (k a x : ℕ)
    → live_cover (before ++ (k, a) ∷ after) x ≡ in_block k a x + live_cover (before ++ after) x
live_cover-remove [] after k a x = refl
live_cover-remove ((j, b) ∷ before) after k a x =
    omega (arith, live_cover-remove before after k a x)

AllHeld-remove :
    (base : ℕ) (before after : List (ℕ × ℕ)) (k a : ℕ)
    → AllHeld base (before ++ (k, a) ∷ after)
    → (k ≤ 11) × IsBlock base k a × AllHeld base (before ++ after)
AllHeld-remove base [] after k a h = h
AllHeld-remove base ((j, b) ∷ before) after k a h =
    let (small, block, rest) = AllHeld-remove base before after k a h.2 in
    (small, block, (h.0, h.1, rest))

-- What one call keeps.
record Keeps (v w : System) : Type 0 where
  sound : IsSound w
  same : (x : ℕ) → owners w x ≡ owners v x

Step-Keeps : {v w : System} → Step v w → IsSound v → Keeps v w
Step-Keeps (allocate order s live small found) h = elim (pmm_alloc_pages_lem order s h.valid) [
  | inl refused ↦ absurd (found (ap (λ r. r.0) refused))
  | inr done ↦ record {
    sound = record {
      valid = done.valid;
      managed = omega (arith, done.bases, h.managed);
      held =
          subst (λ b. AllHeld b ((order, (pmm_alloc_pages order s).0) ∷ live)) (sym done.bases)
            (small, done.block, h.held);
    };
    same = λ x. omega (arith, done.covers x);
  }
]
Step-Keeps (refuse order s live none_found) h = elim (pmm_alloc_pages_lem order s h.valid) [
  | inl refused ↦
      subst (λ t. Keeps (record { buddy = s; live = live }) (record { buddy = t; live = live }))
        (sym (ap (λ r. r.1) refused)) (record { sound = h; same = λ x. refl })
  | inr done ↦ absurd (omega (arith, done.block.starts, h.managed))
]
Step-Keeps (release order addr s before after) h =
    let (small, block, rest) = AllHeld-remove s.base_addr before after order addr h.held in
    let done = pmm_free_pages_lem order addr s h.valid small block in
    record {
      sound = record {
        valid = done.valid;
        managed = omega (arith, done.bases, h.managed);
        held = subst (λ b. AllHeld b (before ++ after)) (sym done.bases) rest;
      };
      same = λ x. omega (arith, done.covers x, live_cover-remove before after order addr x);
    }

Reach-Keeps : {v w : System} → IsSound v → Reach v w → Keeps v w
Reach-Keeps h here = record { sound = h; same = λ x. refl }
Reach-Keeps h (next r st) =
    let first = Reach-Keeps h r in
    let last = Step-Keeps st first.sound in
    record { sound = last.sound; same = λ x. last.same x ∙ first.same x }

-- Over any history of allocations, refusals and releases, from a valid state with nothing held, each
-- address lies in as many free and held blocks together as it was free at the start, and the state
-- stays valid. Where every address was free at most once, no page is ever handed out twice or lost.
pub owners-Reach :
    (s : Buddy) (w : System) (x : ℕ)
    → IsValid s
    → 0 < s.base_addr
    → Reach (record { buddy = s; live = [] }) w
    → (owners w x ≡ cover s x) × IsValid w.buddy
owners-Reach s w x v m r =
    let kept = Reach-Keeps (record { valid = v; managed = m; held = tt }) r in
    (omega (arith, kept.same x), kept.sound.valid)

in_run-le : (n a x : ℕ) → in_run n a x ≤ 1
in_run-le n a x = ground arith

-- After `pmm_init` on a range that starts at a multiple of 8 MB other than 0, holds a page or more, and
-- ends 8 MB or more below the top of the address space, no history of calls, in which clients give
-- back what they hold with its order, makes an address belong to two blocks: held blocks never overlap
-- one another, nor a free one, and free ones never overlap.
pub owners-le-one :
    (memory_start memory_end : ℕ) (s : Buddy) (w : System) (x : ℕ)
    → IsRange memory_start memory_end
    → 0 < memory_start
    → Reach (record { buddy = pmm_init memory_start memory_end s; live = [] }) w
    → owners w x ≤ 1
owners-le-one memory_start memory_end s w x r p h =
    let (covers, valid, base) = pmm_init_lem memory_start memory_end s x r in
    let kept =
      owners-Reach (pmm_init memory_start memory_end s) w x valid (omega (arith, base)) h in
    omega (
      arith,
      kept.0,
      covers,
      in_run-le ((memory_end - memory_start) / 2 ^ 23) (memory_start + 2 ^ 23) x,
    )
