-- ===== src/PhysicalAllocator/Switch.antt =====
-- src/memory/physical_allocator.rs: what each allocator sees of the requests.
use okots_os.Base.{ℕ, ◌≡◌, refl, ap, true, false, List, [], ◌∷◌}
use okots_os.Range.Smart.{Layout}
use okots_os.PhysicalAllocator.{
  Allocator, OsPhysicalAllocator, change_to_os_allocator, os_alloc, os_alloc_zeroed, os_dealloc,
  os_realloc,
}

-- one request, and what an allocator alone does with it; the answer is an address, or 0
pub data Request : Type 0 where
  alloc alloc_zeroed : Layout → Request
  dealloc : ℕ → Layout → Request
  realloc : ℕ → Layout → ℕ → Request

abbrev serve : (a : Allocator) → Request → a.State → ℕ × a.State
serve a (alloc layout) s = a.alloc_in layout s
serve a (alloc_zeroed layout) s = a.alloc_zeroed_in layout s
serve a (dealloc ptr layout) s = (0, a.dealloc_in ptr layout s)
serve a (realloc ptr layout new_size) s = a.realloc_in ptr layout new_size s

-- the requests in turn, with the answers
abbrev pub serve_all : (a : Allocator) → List Request → a.State → List ℕ × a.State
serve_all a [] s = ([], s)
serve_all a (r ∷ rs) s =
    let (ptr, s') = serve a r s in let (ptrs, s'') = serve_all a rs s' in (ptr ∷ ptrs, s'')

module _ (uefi os : Allocator) where
  unfoldable pub handle : Request → OsPhysicalAllocator uefi os → ℕ × OsPhysicalAllocator uefi os
  unfolding os_alloc os_alloc_zeroed os_dealloc os_realloc
  handle (alloc layout) s = os_alloc uefi os layout s
  handle (alloc_zeroed layout) s = os_alloc_zeroed uefi os layout s
  handle (dealloc ptr layout) s = (0, os_dealloc uefi os ptr layout s)
  handle (realloc ptr layout new_size) s = os_realloc uefi os ptr layout new_size s

  abbrev pub handle_all :
      List Request → OsPhysicalAllocator uefi os → List ℕ × OsPhysicalAllocator uefi os
  handle_all [] s = ([], s)
  handle_all (r ∷ rs) s =
      let (ptr, s') = handle r s in let (ptrs, s'') = handle_all rs s' in (ptr ∷ ptrs, s'')

  one_before :
      (r : Request) (u : uefi.State) (o : os.State)
      → handle r (record { uefi_alloc = u; os_allocator = o; use_os_alloc = false }) ≡ (
        (serve uefi r u).0,
        record { uefi_alloc = (serve uefi r u).1; os_allocator = o; use_os_alloc = false },
      )
  unfolding handle
  one_before (alloc layout) u o = refl
  one_before (alloc_zeroed layout) u o = refl
  one_before (dealloc ptr layout) u o = refl
  one_before (realloc ptr layout new_size) u o = refl

  one_after :
      (r : Request) (u : uefi.State) (o : os.State)
      → handle r (record { uefi_alloc = u; os_allocator = o; use_os_alloc = true }) ≡ (
        (serve os r o).0,
        record { uefi_alloc = u; os_allocator = (serve os r o).1; use_os_alloc = true },
      )
  unfolding handle
  one_after (alloc layout) u o = refl
  one_after (alloc_zeroed layout) u o = refl
  one_after (dealloc ptr layout) u o = refl
  one_after (realloc ptr layout new_size) u o = refl

  before :
      (rs : List Request) (u : uefi.State) (o : os.State)
      → handle_all rs (record { uefi_alloc = u; os_allocator = o; use_os_alloc = false }) ≡ (
          let r = serve_all uefi rs u in
          (r.0, record { uefi_alloc = r.1; os_allocator = o; use_os_alloc = false }))
  before [] u o = refl
  before (r ∷ rs) u o =
      rw (one_before r u o)
        (ap (λ x. ((serve uefi r u).0 ∷ x.0, x.1)) (before rs (serve uefi r u).1 o))

  after :
      (rs : List Request) (u : uefi.State) (o : os.State)
      → handle_all rs (record { uefi_alloc = u; os_allocator = o; use_os_alloc = true }) ≡ (
          let r = serve_all os rs o in
          (r.0, record { uefi_alloc = u; os_allocator = r.1; use_os_alloc = true }))
  after [] u o = refl
  after (r ∷ rs) u o =
      rw (one_after r u o) (ap (λ x. ((serve os r o).0 ∷ x.0, x.1)) (after rs u (serve os r o).1))

-- For any two allocators and any calls of the four methods before and after the change: the answers before are those
-- of the firmware's allocator alone, the answers after those of the kernel's alone, which no
-- request before the change has reached.
pub handle_all-switch :
    (uefi os : Allocator) (early late : List Request) (u : uefi.State) (o : os.State)
    → let booted =
        handle_all uefi os early
          (record { uefi_alloc = u; os_allocator = o; use_os_alloc = false }) in
      let running = handle_all uefi os late (change_to_os_allocator uefi os booted.1) in
      (booted.0 ≡ (serve_all uefi early u).0)
      × (running.0 ≡ (serve_all os late o).0)
      × (running.1.uefi_alloc ≡ (serve_all uefi early u).1)
handle_all-switch uefi os early late u o =
    rw (before uefi os early u o, after uefi os late (serve_all uefi early u).1 o)
      (refl, refl, refl)
