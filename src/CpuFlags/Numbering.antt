-- ===== src/CpuFlags/Numbering.antt =====
-- local_macros/src/lib.rs: what `define_cpu_flags!` makes of a tree of flags. Parsing is left to syn.
use Prim.Native.String.{String}
use Prim.Native.String.{◌++◌ as ◌+++◌}
use okots_os.Base.{
  ℕ, ◌+◌, ◌/◌, ◌<◌, ◌≡◌, refl, sym, ap, ap₂, ◌∙◌, List, [], ◌∷◌, ◌++◌, length, append_assoc,
  append-nil, length-append, arith, All, ◌≤◌, subst,
}

mutual
  pub data FlagTree : Type 0 where
    leaf : String → FlagTree
    node : String → FlagTrees → FlagTree

  pub data FlagTrees : Type 0 where
    end : FlagTrees
    child : FlagTree → FlagTrees → FlagTrees

-- what is quoted: constants of a variant, and modules
mutual
  pub data Item : Type 0 where
    constant : String → String → Item
    module_of : String → Items → Item

  pub data Items : Type 0 where
    done : Items
    item : Item → Items → Items

-- `id_counter` and `flat_list`
pub record Flat : Type 0 where
  pub id_counter : ℕ
  pub flat_list : List (ℕ × String)

unfoldable mutual
  pub expand_tree : FlagTree → String → Flat → Item × Flat
  expand_tree (leaf name) prefix flat =
      let variant_name = prefix +++ name in
      (
        constant name variant_name,
        record {
          id_counter = flat.id_counter + 1;
          flat_list = flat.flat_list ++ (flat.id_counter, variant_name) ∷ [];
        },
      )
  expand_tree (node name body) prefix flat =
      let (children, flat') = expand_trees body (prefix +++ name +++ "_") flat in
      (module_of name children, flat')

  pub expand_trees : FlagTrees → String → Flat → Items × Flat
  expand_trees end prefix flat = (done, flat)
  expand_trees (child t ts) prefix flat =
      let (i, flat') = expand_tree t prefix flat in
      let (is, flat'') = expand_trees ts prefix flat' in (item i is, flat'')

pub record Expanded : Type 0 where
  pub flags : Items
  pub internal_variants : List (ℕ × String)
  pub num_u64 : ℕ

unfoldable pub define_cpu_flags : FlagTrees → Expanded
unfolding expand_tree
define_cpu_flags input =
    let (modules, flat) = expand_trees input "" (record { id_counter = 0; flat_list = [] }) in
    record {
      flags = modules;
      internal_variants = flat.flat_list;
      num_u64 = (flat.id_counter + 63) / 64;
    }

abbrev group : List FlagTree → FlagTrees
group [] = end
group (t ∷ ts) = child t (group ts)

-- the flags of src/cpu_flags/mod.rs
abbrev pub cpu_flags : FlagTrees
cpu_flags = group (
    node "current" (group (node "paging" (group (leaf "Pml5" ∷ [])) ∷ []))
    ∷ node "environment" (
        group (
          leaf "capabilities"
          ∷ node "cpuid" (group (leaf "SupportLeaf7" ∷ []))
          ∷ node "paging" (group (leaf "Pml5" ∷ leaf "PdptHuge" ∷ leaf "NX" ∷ []))
          ∷ node "tsc" (group (leaf "TscHardWareAdjust" ∷ leaf "InvariantTsc" ∷ leaf "Aux" ∷ []))
          ∷ node "apic" (group (leaf "X2Supported" ∷ []))
          ∷ []))
    ∷ [])

-- the names of the flags of a tree, in order
unfoldable mutual
  pub names : String → FlagTree → List String
  names prefix (leaf name) = (prefix +++ name) ∷ []
  names prefix (node name body) = names_all (prefix +++ name +++ "_") body

  pub names_all : String → FlagTrees → List String
  names_all prefix end = []
  names_all prefix (child t ts) = names prefix t ++ names_all prefix ts

-- the variants that the quoted constants stand for
unfoldable mutual
  pub variants : Item → List String
  variants (constant name variant) = variant ∷ []
  variants (module_of name is) = variants_all is

  pub variants_all : Items → List String
  variants_all done = []
  variants_all (item i is) = variants i ++ variants_all is

unfoldable pub numbered : ℕ → List String → List (ℕ × String)
numbered n [] = []
numbered n (name ∷ rest) = (n, name) ∷ numbered (n + 1) rest

numbered-append :
    (n : ℕ) (xs ys : List String)
    → numbered n (xs ++ ys) ≡ numbered n xs ++ numbered (n + length xs) ys
unfolding numbered
numbered-append n [] ys = ap (λ k. numbered k ys) (omega arith)
numbered-append n (x ∷ xs) ys =
    ap (λ l. (n, x) ∷ l)
      (numbered-append (n + 1) xs ys ∙ ap (λ k. numbered (n + 1) xs ++ numbered k ys) (omega arith))

-- the list that is passed on, with more names behind it
abbrev extended : Flat → List String → Flat
extended flat more = record {
  id_counter = flat.id_counter + length more;
  flat_list = flat.flat_list ++ numbered flat.id_counter more;
}

extended-append :
    (flat : Flat) (xs ys : List String) → extended (extended flat xs) ys ≡ extended flat (xs ++ ys)
extended-append flat xs ys =
    let n : ℕ = flat.id_counter in
    ap₂ (λ i l. record { id_counter = i; flat_list = l }) (omega (arith, length-append xs ys))
      (append_assoc flat.flat_list (numbered n xs) (numbered (n + length xs) ys)
        ∙ ap (λ l. flat.flat_list ++ l) (sym (numbered-append n xs ys)))

extended_nil : (flat : Flat) → flat ≡ extended flat []
unfolding numbered
extended_nil flat =
    ap₂ (λ i l. record { id_counter = i; flat_list = l }) (omega arith)
      (sym (append-nil flat.flat_list))

mutual
  unfolding expand_tree names variants numbered

  expand_tree-names :
      (t : FlagTree) (prefix : String) (flat : Flat)
      → ((expand_tree t prefix flat).1 ≡ extended flat (names prefix t))
        × (variants (expand_tree t prefix flat).0 ≡ names prefix t)
  expand_tree-names (leaf name) prefix flat = (refl, refl)
  expand_tree-names (node name body) prefix flat =
      expand_trees-names body (prefix +++ name +++ "_") flat

  expand_trees-names :
      (ts : FlagTrees) (prefix : String) (flat : Flat)
      → ((expand_trees ts prefix flat).1 ≡ extended flat (names_all prefix ts))
        × (variants_all (expand_trees ts prefix flat).0 ≡ names_all prefix ts)
  expand_trees-names end prefix flat = (extended_nil flat, refl)
  expand_trees-names (child t ts) prefix flat =
      let (e, v) = expand_tree-names t prefix flat in
      let (e', v') = expand_trees-names ts prefix (expand_tree t prefix flat).1 in
      (
        e'
            ∙ ap (λ f. extended f (names_all prefix ts)) e
            ∙ extended-append flat (names prefix t) (names_all prefix ts),
        ap₂ (λ x y. x ++ y) v v',
      )

numbered-bound :
    (xs : List String) (n k : ℕ)
    → n + length xs ≤ k
    → All (λ v. v.0 / 64 < (k + 63) / 64) (numbered n xs)
unfolding numbered
numbered-bound [] n k h = tt
numbered-bound (x ∷ xs) n k h = (omega arith, numbered-bound xs (n + 1) k (omega arith))

-- The flags of a tree are numbered from 0 on in the order in which they stand, each under the names
-- of the groups around it; the quoted constants are exactly these flags, in the same order; and the
-- arrays of the cache have a word for each of them.
pub define_cpu_flags-IsNumbered :
    (input : FlagTrees)
    → let e = define_cpu_flags input in
      (e.internal_variants ≡ numbered 0 (names_all "" input))
      × (variants_all e.flags ≡ names_all "" input)
      × All (λ v. v.0 / 64 < e.num_u64) e.internal_variants
unfolding define_cpu_flags
define_cpu_flags-IsNumbered input =
    let all : List String = names_all "" input in
    let (flat, quoted) = expand_trees-names input "" (record { id_counter = 0; flat_list = [] }) in
    let listed = ap (λ (f : Flat). f.flat_list) flat in
    let bounded =
      subst (λ (f : Flat). All (λ v. v.0 / 64 < (f.id_counter + 63) / 64) f.flat_list) (sym flat)
        (numbered-bound all 0 (0 + length all) (omega arith)) in
    (listed, quoted, bounded)
