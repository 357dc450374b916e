-- ===== src/Paging/Update/Identity.antt =====
-- src/memory/paging.rs: what `get_addr` gives in the tables that `update_paging` has changed.
use okots_os.Base.{
  ℕ, ◌≤◌, ◌<◌, ◌≡◌, refl, sym, ap, subst, ◌∙◌, Bool, true, false, Option, some, List, [], All,
  length, arith, leb,
}
use okots_os.Errors.{Result, ok, err}
use okots_os.Range.{MemRangeData}
use okots_os.Paging.Normalize.{Entry, zip, normalize, normalize_map_list}
use okots_os.Paging.Normalize.Each.{All-normalize}
use okots_os.Paging.Level.{PageLevel, rank}
use okots_os.Paging.Hardware.{Hardware, IsX86, IsPage}
use okots_os.Paging.Table.{Memory}
use okots_os.Paging.Walk.{get_addr}
use okots_os.Paging.Build.Slots.{IsMapped}
use okots_os.Paging.Build.Frame.{has, IsSupply, answer}
use okots_os.Paging.Build.Enough.{tables_below}
use okots_os.Paging.Create.{TopPageTable}
use okots_os.Paging.Create.Identity.{
  top_level, top_span, zip-normalize_map_list, IsMapped-Closed, answer-normalize,
}
use okots_os.Paging.Update.{Updating, update_recursive}
use okots_os.Paging.Update.Owned.{IsRaw, Tree}
use okots_os.Paging.Update.Call.{Leaves}
use okots_os.Paging.Update.Levels.{tree_pml4, tree_pml5, pml4-IsUpdater, pml5-IsUpdater}
use okots_os.Paging.Update.Enough.{Spends, pml4-Spends, pml5-Spends}
use okots_os.Paging.Update.Top.{
  clean_recreate_fragment_level, UpdatePagingResults, Updates, update_paging,
}

abbrev pub top_tree : Bool → Tree
top_tree true = tree_pml5
top_tree false = tree_pml4

-- what both judgements say of a run
finished :
    {A : Type 0} (P : A → Memory → Type 0) (n k : ℕ) (r : Result A × Updating)
    → Leaves P r
    → Spends n k r
    → (a : A) × (s : Updating) × (r ≡ (ok a, s)) × P a s.memory
finished P n k (ok a, s) l u = (a, s, refl, l)
finished P n k (err e, s) l u = absurd u

-- What `update_paging` relies on: the table `t` and those below it, `ts`, are in use, are pages, and
-- are not in the allocator's supply.
pub record IsInUse (l5 : Bool) (t : ℕ) (ts : List ℕ) (m : Memory) : Type 0 where
  pub tree : top_tree l5 m.cell t ts
  pub outside : (p : ℕ) → has p ts ≡ true → has p m.supply ≡ false
  pub pages : (p : ℕ) → has p ts ≡ true → IsPage p

module _ (hw : Hardware) (x : IsX86 hw) (raw : IsRaw hw) (allow : PageLevel)
    (shallow : rank allow ≤ 2) (es : List Entry) (mapped : All IsMapped es) (t : ℕ) (ts : List ℕ)
    (u : Updating) (supply : IsSupply u.memory.supply) where
  -- a whole tree, changed, and read by `get_addr`
  changed_tree :
      (l5 : Bool)
      → IsInUse l5 t ts u.memory
      → tables_below (top_level l5) ≤ length u.memory.supply
      → (v : Unit {0}) × (s : Updating) × (update_recursive hw (top_level l5) allow t 0 es u
          ≡ (ok v, s))
        × ((a : ℕ) → a < top_span l5 → get_addr hw l5 t a s.memory ≡ answer es a)
  unfolding update_recursive get_addr
  changed_tree true in_use enough =
      let (v, s, e, done) =
        finished _ _ _ _
          (pml5-IsUpdater hw x raw allow shallow 0 t es u ts (omega arith) (omega arith) mapped
            supply in_use.tree in_use.outside in_use.pages)
          (pml5-Spends hw allow t 0 es u enough) in
      (v, s, e, λ a h. done.translates s.memory (λ p j k. refl) a (omega arith) (omega arith))
  changed_tree false in_use enough =
      let (v, s, e, done) =
        finished _ _ _ _
          (pml4-IsUpdater hw x raw allow shallow 0 t es u ts (omega arith) (omega arith) mapped
            supply in_use.tree in_use.outside in_use.pages)
          (pml4-Spends hw allow t 0 es u enough) in
      (v, s, e, λ a h. done.translates s.memory (λ p j k. refl) a (omega arith) (omega arith))

-- The run succeeds, the top table stays, its mapping is the new one, and so is what it translates.
abbrev pub IsUpdated : Hardware → Bool → List Entry → TopPageTable → Option Updates → Type 0
IsUpdated hw l5 es top r =
    (buf : UpdatePagingResults) × (top' : TopPageTable) × (m' : Memory) × (r
      ≡ some (ok buf, top', m'))
    × (top'.virt ≡ top.virt)
    × (zip top'.memory_mapping.0 top'.memory_mapping.1 ≡ normalize es)
    × ((a : ℕ) → a < top_span l5 → get_addr hw l5 top'.virt a m' ≡ answer es a)

not_reached :
    (n : ℕ) → n < clean_recreate_fragment_level → leb clean_recreate_fragment_level n ≡ false
not_reached n h = ground arith

-- For tables in use below the top level in use, none of them in the allocator's supply, a
-- fragmentation below `CLEAN_RECREATE_FRAGMENT_LEVEL`, and ranges and an allocator as
-- `create_page_table` wants them: `update_paging` succeeds, the top table stays where it is, its
-- `memory_mapping` is the new map, normalised, and `get_addr` gives every address below the top's
-- span back unchanged if some range of the new map holds it, and `NotFound` if none does, whatever
-- the tables translated before.
pub update_paging-IsUpdated :
    (hw : Hardware)
    → IsX86 hw
    → IsRaw hw
    → (allow : PageLevel) → rank allow ≤ 2
    → (l5 : Bool) (top : TopPageTable) (ts : List ℕ) (ms : List MemRangeData) (fs : List ℕ)
      (m : Memory)
    → top.level ≡ top_level l5
    → top.page_fragmentation_level < clean_recreate_fragment_level
    → All IsMapped (zip ms fs)
    → IsInUse l5 top.virt ts m
    → IsSupply m.supply
    → tables_below (top_level l5) ≤ length m.supply
    → IsUpdated hw l5 (zip ms fs) top (update_paging hw top ms fs allow m)
unfolding update_paging
update_paging-IsUpdated hw x raw allow sh l5 top ts ms fs m level calm mp in_use su enough =
    let (maps, flags) = normalize_map_list ms fs in
    let paired = zip-normalize_map_list ms fs in
    let mp' =
      subst (All IsMapped) (sym paired) (All-normalize IsMapped IsMapped-Closed (zip ms fs) mp) in
    let u : Updating = record { memory = m; tmp_vec = []; frlevel = 0 } in
    let (v, s, e, walk) =
      changed_tree hw x raw allow sh (zip maps flags) mp' top.virt ts u su l5 in_use enough in
    let below : leb clean_recreate_fragment_level top.page_fragmentation_level ≡ false =
      not_reached top.page_fragmentation_level calm in
    (
      s.tmp_vec,
      record top { memory_mapping = (maps, flags) },
      s.memory,
      rw (below, level, e) refl,
      refl,
      paired,
      λ a h. walk a h ∙ ap (λ l. answer l a) paired ∙ answer-normalize (zip ms fs) a mp,
    )
