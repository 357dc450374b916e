-- ===== src/Start/Update/Added.antt =====
-- src/main.rs and src/acpi/handler.rs: what the kernel's tables translate after a region is added.
use okots_os.Base.{
  ℕ, ◌≤◌, ◌<◌, ◌≡◌, refl, sym, ap, subst, ◌∙◌, Bool, true, false, Option, some, List, [], ◌∷◌, ◌++◌,
  All, length, length-append, arith, Bool-cases, inl, inr,
}
use okots_os.Errors.{Result, ok}
use okots_os.Range.{MemRangeData}
use okots_os.Paging.Normalize.{Entry, zip}
use okots_os.Paging.Hardware.{Hardware, IsX86}
use okots_os.Paging.Table.{Memory}
use okots_os.Paging.Walk.{
  get_addr, walk_with, walk_pt, walk_pd, walk_pdpt, walk_pml4, walk_pml5, walk_entry,
}
use okots_os.Paging.Build.Slots.{IsMapped}
use okots_os.Paging.Build.Frame.{IsSupply, answer}
use okots_os.Paging.Build.Enough.{tables_below}
use okots_os.Paging.Create.Identity.{top_level, top_span}
use okots_os.Paging.Dealloc.{free_not_used_paging}
use okots_os.Paging.Update.Owned.{IsRaw}
use okots_os.Paging.Update.Top.{clean_recreate_fragment_level}
use okots_os.Paging.Update.Identity.{IsInUse, update_paging-IsUpdated}
use okots_os.Start.{Current, allow_huge_at}
use okots_os.Start.Tables.{kept, retain-IsRetained, allow-shallow}
use okots_os.Start.Update.{
  give_back, Told, update_kept, util_update_paging, util_update_add_paging, mapping,
}

-- Giving tables back changes no entry.
give_back-freed :
    (ts : List ℕ) (m : Memory) → (freed : List ℕ) × (give_back ts m ≡ record m { freed = freed })
give_back-freed [] m = (m.freed, refl)
give_back-freed (t ∷ ts) m =
    let (freed, e) = give_back-freed ts (record m { freed = t ∷ m.freed }) in (freed, e)

get_addr-freed :
    (hw : Hardware) (l5 : Bool) (t a : ℕ) (m : Memory) (freed : List ℕ)
    → get_addr hw l5 t a (record m { freed = freed }) ≡ get_addr hw l5 t a m
unfolding get_addr walk_pml5 walk_pml4 walk_pdpt walk_pd walk_pt walk_with walk_entry
get_addr-freed hw true t a m freed = refl
get_addr-freed hw false t a m freed = refl

-- What an update relies on: the current table is in use, its record of the map has as many ranges as
-- flags, and there are free pages for a complete tree.
pub record IsReady (hw : Hardware) (nx l5 : Bool) (c : Current) (ts : List ℕ) (m : Memory)
    : Type 0 where
  pub level : c.page_table.level ≡ top_level l5
  pub calm : c.page_table.page_fragmentation_level < clean_recreate_fragment_level
  pub current : c.page_table.virt ≡ c.cr3
  pub lengths : length c.page_table.memory_mapping.0 ≡ length c.page_table.memory_mapping.1
  pub in_use : IsInUse l5 c.page_table.virt ts m
  pub supply : IsSupply m.supply
  pub enough : tables_below (top_level l5) ≤ length m.supply

-- the map that is kept, with more ranges after it
abbrev pub added : Bool → Current → List MemRangeData → List ℕ → List Entry
added nx c map_list flags =
    kept nx
      (zip (c.page_table.memory_mapping.0 ++ map_list) (c.page_table.memory_mapping.1 ++ flags))

-- The other processors are told, and CR3 leads to tables that translate the entries.
abbrev pub IsTold :
    Hardware → Bool → List Entry → Current → Option (Result (Unit {0}) × Told) → Type 0
IsTold hw l5 es c r =
    (m' : Memory) × (r ≡ some (ok tt, (33 ∷ [], m')))
    × ((a : ℕ) → a < top_span l5 → get_addr hw l5 c.cr3 a m' ≡ answer es a)

module _ (hw : Hardware) (x : IsX86 hw) (raw : IsRaw hw) (free nx pdpt_huge l5 : Bool) (c : Current)
    (ts : List ℕ) (m : Memory) (h : IsReady hw nx l5 c ts m) where
  update_kept-IsTold :
      (ms : List MemRangeData) (fs : List ℕ)
      → All IsMapped (zip ms fs)
      → IsTold hw l5 (zip ms fs) c (update_kept hw free nx pdpt_huge c.page_table (some (ms, fs)) m)
  unfolding update_kept
  update_kept-IsTold ms fs mp =
      let (buf, top', m1, e, virt, mapping, walk) =
        update_paging-IsUpdated hw x raw (allow_huge_at pdpt_huge) (allow-shallow pdpt_huge) l5
          c.page_table ts ms fs m h.level h.calm mp h.in_use h.supply h.enough in
      let at_cr3 : top'.virt ≡ c.cr3 = virt ∙ h.current in
      let walks : (a : ℕ) → a < top_span l5 → get_addr hw l5 c.cr3 a m1 ≡ answer (zip ms fs) a =
        λ a lt. ap (λ t. get_addr hw l5 t a m1) (sym at_cr3) ∙ walk a lt in
      elim (Bool-cases free) [
        | inr kept_back ↦ (m1, rw (e, kept_back) refl, walks)
        | inl freeing ↦
            let back = free_not_used_paging hw buf m1.cell in
            let (freed, q) = give_back-freed back m1 in
            (
              give_back back m1,
              rw (e, freeing) refl,
              λ a lt.
                  ap (get_addr hw l5 c.cr3 a) q
                  ∙ get_addr-freed hw l5 c.cr3 a m1 freed
                  ∙ walks a lt,
            )
      ]

-- For a current table that is in use, with a fragmentation below 512 and as many ranges as flags in
-- its record of the map; as many added ranges as flags; all of these ranges non-empty runs of pages
-- below 2 ^ 52 with page flags without PAT and HUGE, once NX and the pairs without flags are taken
-- off; and as many distinct free pages as a complete tree of tables below the top table has (134480385
-- for four levels): `util_update_add_paging` succeeds with any features of the processor, tells the
-- other processors once, and CR3 leads to tables that translate what the record and the added ranges
-- hold, and nothing else.
pub util_update_add_paging-IsTold :
    (hw : Hardware)
    → IsX86 hw
    → IsRaw hw
    → (free nx pdpt_huge l5 : Bool) (c : Current) (ts : List ℕ) (ms : List MemRangeData)
      (fs : List ℕ) (m : Memory)
    → IsReady hw nx l5 c ts m
    → length ms ≡ length fs
    → All IsMapped (added nx c ms fs)
    → IsTold hw l5 (added nx c ms fs) c (util_update_add_paging hw free nx pdpt_huge ms fs c m)
unfolding util_update_add_paging util_update_paging
util_update_add_paging-IsTold hw x raw free nx pdpt_huge l5 c ts ms fs m h len mp =
    let (old, flag) = c.page_table.memory_mapping in
    let (ms', fs', e, len', z) =
      retain-IsRetained nx (old ++ ms) (flag ++ fs)
        (omega (arith, length-append old ms, length-append flag fs, h.lengths)) in
    let (m', done, walk) =
      update_kept-IsTold hw x raw free nx pdpt_huge l5 c ts m h ms' fs'
        (subst (All IsMapped) (sym z) mp) in
    (
      m',
      ap (λ o. update_kept hw free nx pdpt_huge c.page_table o m) e ∙ done,
      λ a lt. walk a lt ∙ ap (λ l. answer l a) z,
    )
