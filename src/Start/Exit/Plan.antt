-- ===== src/Start/Exit/Plan.antt =====
-- src/main.rs, `update_paging`: what the vectors say of an address.
use okots_os.Base.{
  ℕ, ◌≡◌, refl, sym, ap, ◌∙◌, inl, inr, Bool-cases, List, [], ◌∷◌, ◌++◌, length, length-append,
  if◌then◌else◌, arith, append-nil, append_assoc,
}
use okots_os.Range.{MemRangeData, new}
use okots_os.Firmware.{MemoryDescriptor, is_code, is_mmio}
use okots_os.Paging.Normalize.{Entry, zip}
use okots_os.Start.Exit.{
  range_of, last_of, data_flags, code_flags, device_flags, Vectors, push, push_entry, push_all,
  update_paging,
}

-- two vectors that pair up to `es`
abbrev pub Pairs : List Entry → Vectors → Type 0
Pairs es (t, r) = (length t ≡ length r) × (zip t r ≡ es)

zip-push :
    (t : List MemRangeData) (r : List ℕ) (m : MemRangeData) (f : ℕ)
    → length t ≡ length r
    → zip (t ++ m ∷ []) (r ++ f ∷ []) ≡ zip t r ++ (m, f) ∷ []
unfolding zip
zip-push [] [] m f h = refl
zip-push [] (g ∷ r) m f h = absurd (omega arith)
zip-push (n ∷ t) [] m f h = absurd (omega arith)
zip-push (n ∷ t) (g ∷ r) m f h = ap (◌∷◌ (n, g)) (zip-push t r m f (omega arith))

Pairs-push :
    (es : List Entry) (v : Vectors) (m : MemRangeData) (f : ℕ)
    → Pairs es v
    → Pairs (es ++ (m, f) ∷ []) (push m f v)
Pairs-push es (t, r) m f (len, z) = (
  omega (arith, length-append t (m ∷ []), length-append r (f ∷ [])),
  zip-push t r m f len ∙ ap (λ (l : List Entry). l ++ (m, f) ∷ []) z,
)

-- the pairs of the descriptors, in order
abbrev pub entry_pairs : MemoryDescriptor → List Entry
entry_pairs i =
    if is_code i.ty
    then (range_of i, code_flags) ∷ []
    else if is_mmio i.ty
    then (range_of i, device_flags) ∷ []
    else []

unfoldable pub pairs : List MemoryDescriptor → List Entry
pairs [] = []
pairs (i ∷ map) = entry_pairs i ++ pairs map

Pairs-push_entry :
    (es : List Entry) (v : Vectors) (i : MemoryDescriptor)
    → Pairs es v
    → Pairs (es ++ entry_pairs i) (push_entry i v)
Pairs-push_entry es v i h = elim (Bool-cases (is_code i.ty)) [
  | inl c ↦ rw c (Pairs-push es v (range_of i) code_flags h)
  | inr c ↦ elim (Bool-cases (is_mmio i.ty)) [
    | inl d ↦ rw (c, d) (Pairs-push es v (range_of i) device_flags h)
    | inr d ↦ rw (c, d, append-nil es) h
  ]
]

Pairs-push_all :
    (map : List MemoryDescriptor) (es : List Entry) (v : Vectors)
    → Pairs es v
    → Pairs (es ++ pairs map) (push_all map v)
unfolding push_all pairs
Pairs-push_all [] es v h = rw (append-nil es) h
Pairs-push_all (i ∷ map) es v h =
    rw (sym (append_assoc es (entry_pairs i) (pairs map)))
      (Pairs-push_all map (es ++ entry_pairs i) (push_entry i v) (Pairs-push_entry es v i h))

-- all pairs but that of the null page
unfoldable pub plan : List MemoryDescriptor → MemRangeData → List Entry
unfolding pairs
plan map stack = (new 0 (last_of map), data_flags) ∷ pairs map ++ (stack, data_flags) ∷ []

pub update_paging-Pairs :
    (map : List MemoryDescriptor) (stack : MemRangeData)
    → Pairs (plan map stack ++ (new 0 4096, 0) ∷ []) (update_paging map stack)
unfolding update_paging plan zip
update_paging-Pairs map stack = Pairs-push (plan map stack) _ (new 0 4096) 0 (
    Pairs-push _ _ stack data_flags (
      Pairs-push_all map ((new 0 (last_of map), data_flags) ∷ [])
        (new 0 (last_of map) ∷ [], data_flags ∷ []) (refl, refl)))
