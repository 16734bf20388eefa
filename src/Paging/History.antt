-- ===== src/Paging/History.antt =====
-- Any sequence of temp_map_page and temp_unmap_page.
use matrix_os.Prelude.{
  ℕ, ◌%◌, ◌^◌, ◌<◌, ◌≡◌, ◌≢◌, inl, inr, refl, sym, ap, ◌∙◌, subst, Bool, true, false, List, [], ◌∷◌,
  Option, none, some, length, length-set, set,
}
use mathlib.Core.Option.{some-injective, some-ne-none}
use matrix_os.Paging.{Mm, temp_map_page, temp_unmap_page}
use matrix_os.Paging.Slots.{slots}
use matrix_os.Paging.Entries.{
  slot_addr, HasTable, with_entry, with_entry-HasTable, with_temp-HasTable,
}
use matrix_os.Paging.Mapping.{mapped, temp_map_page_lem}
use matrix_os.Paging.Release.{slot_of, unmapped, Unmaps, kept, freed, temp_unmap_page-Unmaps}
use matrix_os.Paging.Undo.{mapped-HasTable}

-- Calls one after another, each of which returned.
pub data MmCall (s : Mm) : Mm → Type 0 where
  map_call :
      (p v : ℕ) (t : Mm) → p % 4096 ≡ 0 → p < 2 ^ 32 → temp_map_page p s ≡ some (v, t) → MmCall s t
  unmap_call : (v : ℕ) (t : Mm) → temp_unmap_page v s ≡ some t → MmCall s t

pub data MmReach (s : Mm) : Mm → Type 0 where
  start : MmReach s s
  after : {t u : Mm} → MmReach s t → MmCall t u → MmReach s u

-- The manager describes a set of slots.
pub Sound : Mm → Type 0
Sound s = (used : List Bool) × (length used ≡ 4) × (s.temp ≡ slots used) × HasTable s

map-Sound :
    (p v : ℕ) (s t : Mm)
    → p % 4096 ≡ 0
    → p < 2 ^ 32
    → temp_map_page p s ≡ some (v, t)
    → Sound s
    → Sound t
unfolding Sound
map-Sound p v s t aligned word result (used, four, held, has) =
    elim (temp_map_page_lem p used s four held has aligned word) [
      | inl (slot, below, unused, answer, leads) ↦
          subst Sound
            (ap (λ r. r.1)
              (some-injective (slot_addr slot, mapped p slot used s) (v, t) (sym answer ∙ result)))
            (
              set used slot true,
              length-set used slot true ∙ four,
              refl,
              mapped-HasTable p used s four held has slot below unused,
            )
      | inr (answer, all_used) ↦
          subst Sound (ap (λ r. r.1) (some-injective (0, s) (v, t) (sym answer ∙ result)))
            (used, four, held, has)
    ]

unmapped-Sound :
    (v : ℕ) (used : List Bool) (s : Mm)
    → length used ≡ 4
    → HasTable s
    → (t : Mm) (result : Option Mm) → result ≡ some t
    → Unmaps v used s result
    → Sound s
    → Sound t
unfolding Sound
unmapped-Sound v used s four has t _ result kept sound =
    subst Sound (some-injective s t result) sound
unmapped-Sound v used s four has t _ result (freed near) sound =
    subst Sound (some-injective (unmapped v used s) t result) (
      set used (slot_of v) false,
      length-set used (slot_of v) false ∙ four,
      refl,
      with_temp-HasTable (slots (set used (slot_of v) false)) (with_entry v 0 s)
          (with_entry-HasTable s has v near 0),
    )

Unmaps-returns :
    (v : ℕ) (used : List Bool) (s : Mm) (result : Option Mm)
    → Unmaps v used s result
    → result ≢ none
Unmaps-returns v used s _ kept e = some-ne-none s e
Unmaps-returns v used s _ (freed near) e = some-ne-none (unmapped v used s) e

maps_return :
    (p : ℕ) (used : List Bool) (s : Mm)
    → length used ≡ 4
    → s.temp ≡ slots used
    → HasTable s
    → p % 4096 ≡ 0
    → p < 2 ^ 32
    → temp_map_page p s ≢ none
maps_return p used s four held has aligned word e =
    elim (temp_map_page_lem p used s four held has aligned word) [
      | inl (slot, below, unused, result, leads) ↦
          some-ne-none (slot_addr slot, mapped p slot used s) (sym result ∙ e)
      | inr (result, all_used) ↦ some-ne-none (0, s) (sym result ∙ e)
    ]

unmap-Sound : (v : ℕ) (s t : Mm) → temp_unmap_page v s ≡ some t → Sound s → Sound t
unfolding Sound
unmap-Sound v s t result (used, four, held, has) =
    unmapped-Sound v used s four has t (temp_unmap_page v s) result
      (temp_unmap_page-Unmaps v used s four held) (used, four, held, has)

temp_mapping-Sound : (s t : Mm) → MmReach s t → Sound s → Sound t
temp_mapping-Sound s t start sound = sound
temp_mapping-Sound s t (after {t = u} reach (map_call p v _ aligned word result)) sound =
    map-Sound p v u t aligned word result (temp_mapping-Sound s u reach sound)
temp_mapping-Sound s t (after {t = u} reach (unmap_call v _ result)) sound =
    unmap-Sound v u t result (temp_mapping-Sound s u reach sound)

-- From a manager whose four slots are free, over a page table for them, after any sequence of
-- temp_map_page of page addresses and temp_unmap_page of any addresses: the manager describes four
-- slots, free ones with their bit set and no reference, used ones with one reference; and the next
-- call returns again, whether a map of a page address or an unmap.
pub temp_mapping_calls_return :
    (s t : Mm) (p v : ℕ)
    → s.temp ≡ slots (false ∷ false ∷ false ∷ false ∷ [])
    → HasTable s
    → MmReach s t
    → p % 4096 ≡ 0
    → p < 2 ^ 32
    → ((used : List Bool) × (length used ≡ 4) × (t.temp ≡ slots used))
      × (temp_map_page p t ≢ none)
      × (temp_unmap_page v t ≢ none)
unfolding Sound
temp_mapping_calls_return s t p v idle has reach aligned word =
    let (used, four, held, still) =
      temp_mapping-Sound s t reach (false ∷ false ∷ false ∷ false ∷ [], refl, idle, has) in
    (
      (used, four, held),
      maps_return p used t four held still aligned word,
      Unmaps-returns v used t (temp_unmap_page v t) (temp_unmap_page-Unmaps v used t four held),
    )
