-- ===== src/Paging/Normalize.antt =====
-- src/memory/paging.rs, `normalize_map_list`: the map list and its flags, kept as parallel vectors,
-- become ordered ranges that do not overlap. A later range wins over an earlier one.
pub mod Lookup
pub mod Each
pub mod Normal
pub mod Order
use okots_os.Base.{
  ℕ, ◌+◌, Bool, true, false, ◌&&◌, List, [], ◌∷◌, ◌++◌, ltb, leb, ◌==◌, if◌then◌else◌, sub_word,
  add_word,
}
use okots_os.Range.{MemRangeData, new, end_of, set_start, set_len}

-- A range with the bits of its `PageEntryFlags`.
abbrev pub Entry : Type 0
Entry = MemRangeData × ℕ

-- `original_maps.into_iter().zip(original_flags.into_iter())`
unfoldable pub zip : List MemRangeData → List ℕ → List Entry
zip [] fs = []
zip (m ∷ ms) [] = []
zip (m ∷ ms) (f ∷ fs) = (m, f) ∷ zip ms fs

-- What the `while` loop makes of one old range: it is removed, split in two, shortened from either
-- side, or kept.
unfoldable pub cut : MemRangeData → Entry → List Entry
cut new_range (old_range, old_flag) =
    if ltb new_start old_end && ltb old_start new_end
    then (if leb new_start old_start && leb old_end new_end
        then []
        else if ltb old_start new_start && ltb new_end old_end
        then (set_len old_range (sub_word new_start old_start), old_flag)
          ∷ (new new_end (sub_word old_end new_end), old_flag)
          ∷ []
        else if ltb old_start new_start
        then (set_len old_range (sub_word new_start old_start), old_flag) ∷ []
        else (set_len (set_start old_range new_end) (sub_word old_end new_end), old_flag) ∷ [])
    else (old_range, old_flag) ∷ []
  where
    new_start : ℕ
    new_start = new_range.start

    new_end : ℕ
    new_end = end_of new_range

    old_start : ℕ
    old_start = old_range.start

    old_end : ℕ
    old_end = end_of old_range

-- The `while` loop over `final_list`, from the entry at `j` on. It goes past both halves of a split.
unfoldable pub carve : MemRangeData → List Entry → List Entry
carve new_range [] = []
carve new_range (old ∷ rest) = cut new_range old ++ carve new_range rest

-- The `for` loop over the original list.
unfoldable pub insert_all : List Entry → List Entry → List Entry
insert_all final_list [] = final_list
insert_all final_list ((new_range, new_flag) ∷ more) =
    insert_all (carve new_range final_list ++ (new_range, new_flag) ∷ []) more

-- `sort_unstable_by_key` on the starts, as an insertion sort.
unfoldable pub insert_sorted : Entry → List Entry → List Entry
insert_sorted e [] = e ∷ []
insert_sorted e (x ∷ xs) = if leb e.0.start x.0.start then e ∷ x ∷ xs else x ∷ insert_sorted e xs

unfoldable pub sort : List Entry → List Entry
sort [] = []
sort (e ∷ es) = insert_sorted e (sort es)

-- The loop that joins neighbours: `curr` is the range being grown.
unfoldable pub merge_from : Entry → List Entry → List Entry
merge_from curr [] = curr ∷ []
merge_from (curr_map, curr_flag) ((next_map, next_flag) ∷ rest) =
    let joined =
      merge_from (set_len curr_map (add_word next_map.len curr_map.len), curr_flag) rest in
    let apart = (curr_map, curr_flag) ∷ merge_from (next_map, next_flag) rest in
    if (end_of curr_map == next_map.start) && (curr_flag == next_flag) then joined else apart

unfoldable pub merge : List Entry → List Entry
merge [] = []
merge (first ∷ rest) = merge_from first rest

-- `normalize_map_list` on the zipped vectors. (Of vectors with no range both stay as they are.)
unfoldable pub normalize : List Entry → List Entry
unfolding insert_all sort merge
normalize es = merge (sort (insert_all [] es))

unfoldable pub unzip : List Entry → List MemRangeData × List ℕ
unzip [] = ([], [])
unzip ((m, f) ∷ es) = let (ms, fs) = unzip es in (m ∷ ms, f ∷ fs)

-- `normalize_map_list`
unfoldable pub normalize_map_list : List MemRangeData → List ℕ → List MemRangeData × List ℕ
unfolding zip normalize unzip
normalize_map_list [] flags = ([], flags)
normalize_map_list (m ∷ ms) flags = unzip (normalize (zip (m ∷ ms) flags))
