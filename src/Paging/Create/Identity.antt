-- ===== src/Paging/Create/Identity.antt =====
-- src/memory/paging.rs: what `get_addr` gives for the tables that `create_page_table` builds.
use okots_os.Base.{
  ℕ, ◌^◌, ◌≤◌, ◌<◌, ◌≡◌, refl, sym, ap, subst, ◌∙◌, Bool, true, false, Option, none, some, List, [],
  ◌∷◌, All, length, arith, ==_iff, if◌then◌else◌,
}
use okots_os.Range.{MemRangeData}
use okots_os.Errors.{Result, ok, err}
use okots_os.Paging.Normalize.{Entry, cut, zip, unzip, normalize, normalize_map_list}
use okots_os.Paging.Normalize.Lookup.{flags_at, AllFit}
use okots_os.Paging.Normalize.Order.{flags_at-normalize}
use okots_os.Paging.Normalize.Each.{Closed, All-normalize}
use okots_os.Paging.Level.{PageLevel, pml4, pml5, rank}
use okots_os.Paging.Hardware.{Hardware, IsX86}
use okots_os.Paging.Table.{Memory}
use okots_os.Paging.Walk.{absent, get_addr}
use okots_os.Paging.Build.{create_recursive}
use okots_os.Paging.Build.Slots.{IsMapped, covered}
use okots_os.Paging.Build.Frame.{IsSupply, answer, Outcome}
use okots_os.Paging.Build.Loop.{pml4-IsBuilder, pml5-IsBuilder}
use okots_os.Paging.Build.Enough.{Uses, tables_below, pml4-Uses, pml5-Uses}
use okots_os.Paging.Create.{TopPageTable, top_table, all_aligned, build_top, create_page_table}

-- `zip` undoes `unzip`.
pub zip-unzip : (es : List Entry) → zip (unzip es).0 (unzip es).1 ≡ es
unfolding zip unzip
zip-unzip [] = refl
zip-unzip ((m, f) ∷ es) = ap (◌∷◌ (m, f)) (zip-unzip es)

-- The vectors that `normalize_map_list` leaves pair up to the normalised entries.
pub zip-normalize_map_list :
    (ms : List MemRangeData) (fs : List ℕ)
    → let (ms', fs') = normalize_map_list ms fs in zip ms' fs' ≡ normalize (zip ms fs)
unfolding normalize_map_list zip normalize
zip-normalize_map_list [] fs = refl
zip-normalize_map_list (m ∷ ms) fs = zip-unzip (normalize (zip (m ∷ ms) fs))

abbrev is_some : Option ℕ → Bool
is_some none = false
is_some (some f) = true

-- An address is covered exactly when it has flags.
covered-flags_at : (es : List Entry) (a : ℕ) → covered es a ≡ is_some (flags_at es a)
unfolding covered flags_at
covered-flags_at [] a = refl
covered-flags_at (e ∷ es) a = ground (arith, covered-flags_at es a)

cut-IsMapped : (r e : Entry) → IsMapped r → IsMapped e → All IsMapped (cut r.0 e)
unfolding cut
cut-IsMapped (r, g) (o, f) hr he = ground arith

pub IsMapped-Closed : Closed IsMapped
IsMapped-Closed = record { cut = cut-IsMapped; join = λ c n cf nf hc hn e. ground arith }

-- what both judgements say of a run
pub finished :
    {A : Type 0} (P : A → Memory → Type 0) (n k : ℕ) (r : Result A × Memory)
    → Outcome P r
    → Uses n k r
    → (a : A) × (m : Memory) × (r ≡ (ok a, m)) × P a m
finished P n k (ok a, m) o u = (a, m, refl, o)
finished P n k (err e, m) o u = absurd u

pub all_aligned_of_mapped :
    (ms : List MemRangeData) (fs : List ℕ)
    → length ms ≡ length fs
    → All IsMapped (zip ms fs)
    → all_aligned ms ≡ true
unfolding all_aligned zip
all_aligned_of_mapped [] fs e h = refl
all_aligned_of_mapped (m ∷ ms) [] e h = absurd (omega arith)
all_aligned_of_mapped (m ∷ ms) (f ∷ fs) e h =
    ground (arith, all_aligned_of_mapped ms fs (omega arith) h.1)

All-Fits : (es : List Entry) → All IsMapped es → AllFit es
All-Fits [] h = tt
All-Fits (e ∷ es) h = (h.0.paged.fits, All-Fits es h.1)

-- Normalising changes no answer.
pub answer-normalize :
    (es : List Entry) (a : ℕ) → All IsMapped es → answer (normalize es) a ≡ answer es a
answer-normalize es a h =
    ap (λ (c : Bool). if c then ok a else err absent)
      (covered-flags_at (normalize es) a
        ∙ ap is_some (flags_at-normalize es a (All-Fits es h))
        ∙ sym (covered-flags_at es a))

-- the top level with and without L5_PAGING, the addresses below it and the tables it may take
abbrev pub top_level : Bool → PageLevel
top_level true = pml5
top_level false = pml4

abbrev pub top_span : Bool → ℕ
top_span true = 2 ^ 57
top_span false = 2 ^ 48

module _ (hw : Hardware) (x : IsX86 hw) (allow : PageLevel) (shallow : rank allow ≤ 2)
    (es : List Entry) (mapped : All IsMapped es) (m : Memory) (supply : IsSupply m.supply) where
  -- a whole tree, read by `get_addr`
  tree :
      (l5 : Bool)
      → tables_below (top_level l5) ≤ length m.supply
      → (t : ℕ) × (m' : Memory) × (create_recursive hw (top_level l5) allow 0 es m ≡ (ok t, m'))
        × ((a : ℕ) → a < top_span l5 → get_addr hw l5 t a m' ≡ answer es a)
  unfolding create_recursive get_addr
  tree true enough =
      let (t, m', e, built) =
        finished _ _ _ _
          (pml5-IsBuilder hw x allow shallow 0 es m (omega arith) (omega arith) mapped supply)
          (pml5-Uses hw allow 0 es m enough) in
      (t, m', e, λ a h. built.translates m' (λ p i k l. refl) a (omega arith) (omega arith))
  tree false enough =
      let (t, m', e, built) =
        finished _ _ _ _
          (pml4-IsBuilder hw x allow shallow 0 es m (omega arith) (omega arith) mapped supply)
          (pml4-Uses hw allow 0 es m enough) in
      (t, m', e, λ a h. built.translates m' (λ p i k l. refl) a (omega arith) (omega arith))

-- what the run of `create_page_table` returns, and what the walk then gives
abbrev pub IsIdentity : Hardware → Bool → List Entry → Result TopPageTable × Memory → Type 0
IsIdentity hw l5 es r =
    (top : TopPageTable) × (m' : Memory) × (r ≡ (ok top, m'))
    × (top.level ≡ top_level l5)
    × ((a : ℕ) → a < top_span l5 → get_addr hw l5 top.phys a m' ≡ answer es a)

build_top-IsIdentity :
    (hw : Hardware)
    → IsX86 hw
    → (allow : PageLevel) → rank allow ≤ 2
    → (l5 : Bool) (ms : List MemRangeData) (fs : List ℕ) (m : Memory) → All IsMapped (zip ms fs)
    → IsSupply m.supply
    → tables_below (top_level l5) ≤ length m.supply
    → IsIdentity hw l5 (zip ms fs) (build_top hw allow (top_level l5) ms fs m)
unfolding build_top
build_top-IsIdentity hw x allow sh true ms fs m mp su enough =
    let (t, m', e, walk) = tree hw x allow sh (zip ms fs) mp m su true enough in
    (top_table pml5 ms fs t, m', rw e, refl, walk)
build_top-IsIdentity hw x allow sh false ms fs m mp su enough =
    let (t, m', e, walk) = tree hw x allow sh (zip ms fs) mp m su false enough in
    (top_table pml4 ms fs t, m', rw e, refl, walk)

-- For as many flags as ranges, every range a non-empty run of pages of physical memory with neither
-- `PAT` nor `HUGE` set, huge pages allowed up to `Pdpt` at most, and an allocator that gives out
-- enough distinct pages: `create_page_table` succeeds for the top level in use, and in the tables
-- that it leaves `get_addr` gives every address below the top's span back unchanged if some range
-- holds it, and `NotFound` if none does.
pub create_page_table-IsIdentity :
    (hw : Hardware)
    → IsX86 hw
    → (allow : PageLevel) → rank allow ≤ 2
    → (l5 : Bool) (ms : List MemRangeData) (fs : List ℕ) (m : Memory) → length ms ≡ length fs
    → All IsMapped (zip ms fs)
    → IsSupply m.supply
    → tables_below (top_level l5) ≤ length m.supply
    → IsIdentity hw l5 (zip ms fs) (create_page_table hw ms fs allow (top_level l5) m)
unfolding create_page_table
create_page_table-IsIdentity hw x allow sh l5 ms fs m len mp su enough =
    let (ms', fs') = normalize_map_list ms fs in
    let paired = zip-normalize_map_list ms fs in
    let mp' =
      subst (All IsMapped) (sym paired) (All-normalize IsMapped IsMapped-Closed (zip ms fs) mp) in
    let (top, m', e, level, walk) = build_top-IsIdentity hw x allow sh l5 ms' fs' m mp' su enough in
    rw ((==_iff (length ms) (length fs)).1 len, all_aligned_of_mapped ms fs len mp)
      (
        top,
        m',
        e,
        level,
        λ a h. walk a h ∙ ap (λ l. answer l a) paired ∙ answer-normalize (zip ms fs) a mp,
      )
