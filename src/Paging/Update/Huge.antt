-- ===== src/Paging/Update/Huge.antt =====
-- src/memory/paging.rs: `update_recursive` writes the same huge entries as `create_recursive`.
use okots_os.Base.{ℕ, ◌≡◌, refl, sym, ap, ◌⊎◌, true, arith, bit_and, bit_or}
use okots_os.Paging.Level.{PageLevel, pt, pd, pdpt, pml4, pml5}
use okots_os.Paging.Hardware.{Hardware, IsX86, IsPage, known}
use okots_os.Paging.Flags.{to_pdptf, to_pdf}
use okots_os.Paging.Flags.Bits.{huge_bits, flags_bits}
use okots_os.Paging.Build.{huge_flags, huge_entry}
use okots_os.Paging.Build.Slots.{IsMapped}
use okots_os.Paging.Build.Entries.{Names, huge_bits-kept}
use okots_os.Paging.Build.Step.{huge-Names}
use okots_os.Paging.Normalize.{Entry}
use okots_os.Paging.Update.{generate_huge_entry}

module _ (hw : Hardware) (x : IsX86 hw) (a : ℕ) (page : IsPage a) (e : Entry) (h : IsMapped e) where
  -- `move_pat` and the truncation change nothing.
  same_flags :
      (l : PageLevel) (bits : ℕ)
      → known l ≡ known pd
      → bits ≡ huge_bits e.1
      → huge_flags hw l bits ≡ bit_or (bit_or bits (hw.bit_ps l)) (hw.bit_p l)
  unfolding huge_flags
  same_flags l bits k eq =
      let (moved, in_pd) = huge_bits-kept hw x a page e.1 h.flags h.no_pat h.no_huge in
      let in_type : bit_and (huge_bits e.1) (known l) ≡ huge_bits e.1 = rw k in_pd in
      rw (eq, moved, x.truncate_known l (huge_bits e.1) in_type) refl

  generate-huge_entry :
      (l : PageLevel)
      → (l ≡ pd) ⊎ (l ≡ pdpt)
      → generate_huge_entry hw l a e.1 ≡ huge_entry hw l a e.1
  unfolding generate_huge_entry huge_entry
  generate-huge_entry pt k = ground arith
  generate-huge_entry pd k =
      ap (hw.entry pd a) (sym (same_flags pd (to_pdf hw e.1) refl (flags_bits hw e.1 x h.flags).3))
  generate-huge_entry pdpt k =
      ap (hw.entry pdpt a)
        (sym (same_flags pdpt (to_pdptf hw e.1) refl (flags_bits hw e.1 x h.flags).2))
  generate-huge_entry pml4 k = ground arith
  generate-huge_entry pml5 k = ground arith

  pub generate_huge_entry-Names :
      (l : PageLevel)
      → (l ≡ pd) ⊎ (l ≡ pdpt)
      → Names hw (generate_huge_entry hw l a e.1) a
        × (hw.is_huge (generate_huge_entry hw l a e.1) ≡ true)
  generate_huge_entry-Names l k = rw (generate-huge_entry l k) (huge-Names hw l a 0 e x page h k)
