-- ===== src/Paging/Update/Top.antt =====
-- src/memory/paging.rs, `update_paging`: the top table stays where it is, and the tables below it
-- are changed, or all made anew.
use okots_os.Base.{ℕ, zero, suc, ◌+◌, Option, none, some, List, [], ◌∷◌, ◌++◌, leb, if◌then◌else◌}
use okots_os.Errors.{Result, ok, err}
use okots_os.Range.{MemRangeData}
use okots_os.Paging.Normalize.{zip, normalize_map_list}
use okots_os.Paging.Level.{PageLevel, down}
use okots_os.Paging.Hardware.{Hardware}
use okots_os.Paging.Table.{Memory}
use okots_os.Paging.Create.{TopPageTable, create_page_table}
use okots_os.Paging.Update.{Updating, U, pure, ◌>>◌, store, update_recursive}

-- `CLEAN_RECREATE_FRAGMENT_LEVEL`
abbrev pub clean_recreate_fragment_level : ℕ
clean_recreate_fragment_level = 512

-- the tables that have fallen out, with their levels
abbrev pub UpdatePagingResults : Type 0
UpdatePagingResults = List (ℕ × PageLevel)

abbrev pub Updates : Type 0
Updates = Result UpdatePagingResults × TopPageTable × Memory

module _ (hw : Hardware) where
  -- One entry of the new top table goes into the old one.
  unfoldable pub copy_entry : PageLevel → ℕ → ℕ → ℕ → U (Unit {0})
  copy_entry tmp_level tmp top l s =
      let entry = s.memory.cell tmp l in
      store top l entry (
        if hw.is_present entry
        then record s { tmp_vec = s.tmp_vec ++ (hw.addr entry, tmp_level) ∷ [] }
        else s)

  -- the entries from `l` on, `n` of them
  unfoldable pub copy_from : PageLevel → ℕ → ℕ → ℕ → ℕ → U (Unit {0})
  unfolding copy_entry
  copy_from tmp_level tmp top l zero = pure tt
  copy_from tmp_level tmp top l (suc n) =
      copy_entry tmp_level tmp top l >> copy_from tmp_level tmp top (l + 1) n

  -- The new top table is copied, and given back.
  abbrev pub take_over : PageLevel → TopPageTable → Result TopPageTable × Memory → Updates
  take_over tmp_level top (err e, m) = (err e, top, m)
  take_over tmp_level top (ok tmp, m) =
      let s =
        (copy_from tmp_level tmp.virt top.virt 0 512
          (record { memory = m; tmp_vec = []; frlevel = 0 })).1 in
      (
        ok s.tmp_vec,
        record top { page_fragmentation_level = 0 },
        record s.memory { freed = tmp.virt ∷ s.memory.freed },
      )

  -- `none` is a panic.
  abbrev pub recreate :
      Option PageLevel
      → TopPageTable
      → List MemRangeData
      → List ℕ
      → PageLevel
      → Memory
      → Option Updates
  recreate none top maps fs allow_huge_at m = none
  recreate (some tmp_level) top maps fs allow_huge_at m =
      some (take_over tmp_level top (create_page_table hw maps fs allow_huge_at top.level m))

  abbrev pub keep_top :
      TopPageTable → List MemRangeData → List ℕ → Result (Unit {0}) × Updating → Updates
  keep_top top maps fs (err e, s) = (err e, top, s.memory)
  keep_top top maps fs (ok u, s) =
      (ok s.tmp_vec, record top { memory_mapping = (maps, fs) }, s.memory)

  unfoldable pub update_paging :
      TopPageTable → List MemRangeData → List ℕ → PageLevel → Memory → Option Updates
  unfolding normalize_map_list zip create_page_table copy_from update_recursive
  update_paging top new_map_list new_flags allow_huge_at m =
      let (maps, fs) = normalize_map_list new_map_list new_flags in
      if leb clean_recreate_fragment_level top.page_fragmentation_level
      then recreate (down top.level) top maps fs allow_huge_at m
      else some (
          keep_top top maps fs (
            update_recursive hw top.level allow_huge_at top.virt 0 (zip maps fs)
              (record { memory = m; tmp_vec = []; frlevel = 0 })))
