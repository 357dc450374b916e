-- ===== src/Paging/Update/Call.antt =====
-- src/memory/paging.rs: a call of `update_recursive` on one table, and its entries without a table below.
use okots_os.Base.{
  ℕ, ◌+◌, ◌*◌, ◌%◌, ◌^◌, ◌≤◌, ◌≡◌, ◌≢◌, refl, sym, subst, inl, inr, true, false, ◌||◌, Option, none,
  some, List, [], ◌∷◌, All, arith, Bool-cases, ◌==◌, ==_iff,
}
use okots_os.Errors.{Result, ok, err}
use okots_os.Paging.Normalize.{Entry}
use okots_os.Paging.Level.{PageLevel, pt, rank, entry_size, down}
use okots_os.Paging.Hardware.{Hardware, IsX86, IsPage}
use okots_os.Paging.Table.{Memory, write_cell}
use okots_os.Paging.Walk.{Walk}
use okots_os.Paging.Build.{sub_map, can_be_huge, Below}
use okots_os.Paging.Build.Slots.{IsMapped, IsBase}
use okots_os.Paging.Build.Frame.{Outcome, has, IsSupply}
use okots_os.Paging.Build.Step.{IsBuilder}
use okots_os.Paging.Update.{
  Updating, U, raw_present, raw_huge, and_then, detach, detach_present, store, with_memory, Change,
  clear_slot, generate_huge_entry, put_huge,
}
use okots_os.Paging.Update.Owned.{IsRaw, Tree, IsTree, Owns}
use okots_os.Paging.Update.Frame.{Updated, ChangedTo}
use okots_os.Paging.Update.Row.{row_clear, row_huge}

-- what a run that succeeds leaves in memory
abbrev pub Leaves : {A : Type 0} → (A → Memory → Type 0) → Result A × Updating → Type 0
Leaves P (ok a, s) = P a s.memory
Leaves P (err e, s) = Unit

pub Leaves-and_then :
    {A B : Type 0} (P : A → Memory → Type 0) (Q : B → Memory → Type 0) (r : Result A × Updating)
    (f : A → U B)
    → Leaves P r
    → ((a : A) (s : Updating) → P a s.memory → Leaves Q (f a s))
    → Leaves Q (and_then r f)
Leaves-and_then P Q (ok a, s) f h k = k a s h
Leaves-and_then P Q (err e, s) f h k = tt

pub Leaves-with_memory :
    {A : Type 0} (P : A → Memory → Type 0) (s : Updating) (r : Result A × Memory)
    → Outcome P r
    → Leaves P (with_memory s r)
Leaves-with_memory P s (ok a, m) h = h
Leaves-with_memory P s (err e, m) h = tt

-- Gathering a table changes no memory.
detach-memory :
    (next : Option PageLevel) (e : ℕ) (s : Updating)
    → Leaves (λ u m. m ≡ s.memory) (detach next e s)
detach-memory none e s = refl
detach-memory (some next) e s = elim (Bool-cases (raw_huge e)) [
  | inl h ↦ rw h refl
  | inr h ↦ rw h refl
]

detach_present-memory :
    (next : Option PageLevel) (e : ℕ) (s : Updating)
    → Leaves (λ u m. m ≡ s.memory) (detach_present next e s)
detach_present-memory next e s = elim (Bool-cases (raw_present e)) [
  | inl h ↦ rw h (detach-memory next e s)
  | inr h ↦ rw h refl
]

-- Every table of a tree is updated right by `change`.
abbrev pub IsUpdater : Walk → Tree → Change → ℕ → Type 0
IsUpdater walk tree change span =
    (base t : ℕ) (es : List Entry) (s : Updating) (ts : List ℕ)
    → base % span ≡ 0
    → base + span ≤ 2 ^ 60
    → All IsMapped es
    → IsSupply s.memory.supply
    → tree s.memory.cell t ts
    → ((p : ℕ) → has p ts ≡ true → has p s.memory.supply ≡ false)
    → ((p : ℕ) → has p ts ≡ true → IsPage p)
    → Leaves (λ u m'. Updated walk base span es s.memory t ts m') (change t base es s)

-- What stands below a level.
pub data Storey (level : PageLevel)
    : Option (Change × Below) → Option Walk → Option Tree → Type 1 where
  lowest : level ≡ pt → Storey level none none none
  upper :
      {change : Change} {create : Below} {walk : Walk} {tree : Tree}
      → level ≢ pt
      → IsTree tree
      → IsUpdater walk tree change (entry_size level)
      → IsBuilder walk create (entry_size level)
      → Storey level (some (change, create)) (some walk) (some tree)

-- What a call on the table `t` relies on.
pub record Call (hw : Hardware) (allow : PageLevel) (t : ℕ) (es : List Entry) (s : Memory)
    (tree : Option Tree) (ts : List ℕ) : Type 1 where
  pub x : IsX86 hw
  pub raw : IsRaw hw
  pub shallow : rank allow ≤ 2
  pub mapped : All IsMapped es
  pub supply : IsSupply s.supply
  pub owns : Owns tree s.cell t ts
  pub outside : (p : ℕ) → has p ts ≡ true → has p s.supply ≡ false
  pub pages : (p : ℕ) → has p ts ≡ true → IsPage p

pub all_pages :
    {hw : Hardware} {allow : PageLevel} {t : ℕ} {es : List Entry} {s : Memory} {tree : Option Tree}
    {ts : List ℕ} (c : Call hw allow t es s tree ts) (p : ℕ)
    → (has p ts || has p s.supply) ≡ true
    → IsPage p
all_pages {s} {ts} c p h = elim (Bool-cases (has p ts)) [
  | inl k ↦ c.pages p k
  | inr k ↦ c.supply.pages p (ground arith)
]

module _ (hw : Hardware) (level allow : PageLevel) (base t : ℕ) (es : List Entry) (s : Memory)
    (tree : Option Tree) (ts : List ℕ) (k : Call hw allow t es s tree ts) where
  abbrev pub To : Option Walk → ℕ → Memory → Type 0
  To below i m = ChangedTo hw level below base t es s tree ts k.owns k.outside i m

  module _ (i : ℕ) (b : IsBase level base i) where
    abbrev pub start : ℕ
    start = base + i * entry_size level

    -- An entry is stored after a step that keeps the memory.
    stored :
        (below : Option Walk) (e : ℕ) (u : Updating) (r : Result (Unit {0}) × Updating)
        → Leaves (λ v m. m ≡ u.memory) r
        → To below (i + 1) (record u.memory { cell = write_cell u.memory.cell t i e })
        → Leaves (λ v m'. To below (i + 1) m') (and_then r (λ v. store t i e))
    stored below e u r same next =
        Leaves-and_then (λ v m. m ≡ u.memory) _ r (λ v. store t i e) same
          λ v u' q.
            subst (λ m. To below (i + 1) (record m { cell = write_cell m.cell t i e })) (sym q) next

    pub clear_slot-To :
        (below : Option Walk) (u : Updating)
        → To below i u.memory
        → sub_map start (start + entry_size level) es ≡ []
        → Leaves (λ v m'. To below (i + 1) m') (clear_slot level t i u)
    unfolding clear_slot
    clear_slot-To below u h sub =
        let (stands, cleared) =
          row_clear hw k.x k.raw level allow k.shallow base t es k.mapped s tree ts k.owns k.outside
            (all_pages k) below i u.memory b h sub in
        elim (Bool-cases (raw_present (u.memory.cell t i))) [
          | inl e ↦ rw e (
              stored below 0 u (detach (down level) (u.memory.cell t i) u)
                (detach-memory (down level) (u.memory.cell t i) u) cleared)
          | inr e ↦ rw e (stands e)
        ]

    pub put_huge-To :
        (below : Option Walk) (u : Updating) (first : Entry) (more : List Entry)
        → To below i u.memory
        → sub_map start (start + entry_size level) es ≡ first ∷ more
        → can_be_huge level allow start (start + entry_size level) (first ∷ more) ≡ true
        → Leaves
            (λ v m'. To below (i + 1) m')
            (put_huge hw level t i (generate_huge_entry hw level start first.1) u)
    unfolding put_huge
    put_huge-To below u first more h sub c =
        let (stands, written) =
          row_huge hw k.x k.raw level allow k.shallow base t es k.mapped s tree ts k.owns k.outside
            (all_pages k) below i u.memory b h first more sub c in
        let target : ℕ = generate_huge_entry hw level start first.1 in
        elim (Bool-cases (u.memory.cell t i == target)) [
          | inl e ↦ rw e (stands ((==_iff (u.memory.cell t i) target).0 e))
          | inr e ↦ rw e (
              stored below target u (detach_present (down level) (u.memory.cell t i) u)
                (detach_present-memory (down level) (u.memory.cell t i) u) written)
        ]
