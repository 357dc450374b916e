-- ===== src/Paging/Build/Entries.antt =====
-- src/memory/paging.rs: how the entries that `create_recursive` writes read back.
use okots_os.Base.{
  checked, checked_all, ℕ, ◌/◌, ◌%◌, ◌^◌, ◌<◌, ◌≡◌, ◌≢◌, refl, Bool, true, false, not, ◌&&◌, ◌||◌,
  arith, ◌==◌, bit_and, bit_or,
}
use okots_os.Paging.Level.{PageLevel, pt, pd, pdpt, pml4, pml5}
use okots_os.Paging.Hardware.{Hardware, IsX86, IsPage, known}
use okots_os.Paging.Flags.{relay_flags, to_pdptf, to_pdf, to_ptf}
use okots_os.Paging.Flags.Bits.{bit, page_bits, huge_bits, flags_bits}
use okots_os.Paging.Build.{move_pat, huge_flags, huge_entry, relay_entry, page_entry}

-- An entry is present, and names the page `a`.
pub record Names (hw : Hardware) (entry a : ℕ) : Type 0 where
  pub present : hw.is_present entry ≡ true
  pub address : hw.addr entry ≡ a

-- flags that leave the address and the huge bit alone
abbrev clean : ℕ → Bool
clean f = ((f % 2) == 1) && ((f / 4096 % 2 ^ 40) == 0)

-- of flags with neither `PAT` nor `HUGE`
abbrev unmarked : ℕ → Bool
unmarked f = (bit f 7 == 0) && (bit f 10 == 0)

page_check : checked (λ f. not (unmarked f) || clean (bit_or (page_bits f) 1)) 2048 ≡ true
unfolding checked
page_check = refl

-- the flags of a huge page survive `move_pat` and the truncation, and mark it
huge_fits : ℕ → Bool
huge_fits f =
    (move_pat (huge_bits f) == huge_bits f)
    && (bit_and (huge_bits f) (known pd) == huge_bits f)
    && clean (bit_or (bit_or (huge_bits f) (2 ^ 7)) 1)
    && ((bit_or (bit_or (huge_bits f) (2 ^ 7)) 1 / 128 % 2) == 1)

huge_check : checked (λ f. not (unmarked f) || huge_fits f) 2048 ≡ true
unfolding checked huge_fits
huge_check = refl

module _ (hw : Hardware) (x : IsX86 hw) (a : ℕ) (page : IsPage a) where
  Names-of_clean : (l : PageLevel) (f : ℕ) → clean f ≡ true → Names hw (hw.entry l a f) a
  Names-of_clean l f c = record {
    present = x.entry_present l a f page (ground arith);
    address = x.entry_addr l a f page (ground arith);
  }

  module _ (f : ℕ) (small : f < 2048) (no_pat : bit f 7 ≡ 0) (no_huge : bit f 10 ≡ 0) where
    page_named :
        (bits : ℕ) → bits ≡ page_bits f → Names hw (hw.entry pt a (bit_or bits (hw.bit_p pt))) a
    page_named bits e =
        rw (e, x.p_bit pt)
          (Names-of_clean pt (bit_or (page_bits f) 1) (
            ground (
              arith,
              checked_all (λ f. not (unmarked f) || clean (bit_or (page_bits f) 1)) 2048 f
                  (omega arith) page_check,
            )))

    pub page_entry-Names : Names hw (page_entry hw a f) a
    unfolding page_entry
    page_entry-Names = page_named (to_ptf hw f) (flags_bits hw f x small).4

    fits : huge_fits f ≡ true
    fits =
        ground (
          arith,
          checked_all (λ f. not (unmarked f) || huge_fits f) 2048 f (omega arith) huge_check,
        )

    -- `move_pat` and the truncation change nothing of such flags.
    pub huge_bits-kept :
        (move_pat (huge_bits f) ≡ huge_bits f) × (bit_and (huge_bits f) (known pd) ≡ huge_bits f)
    unfolding huge_fits
    huge_bits-kept = (ground (arith, fits), ground (arith, fits))

    -- at either level that has huge pages
    huge_named :
        (l : PageLevel)
        → known l ≡ known pd
        → (bits : ℕ) → bits ≡ huge_bits f
        → Names hw (hw.entry l a (huge_flags hw l bits)) a
          × (hw.is_huge (hw.entry l a (huge_flags hw l bits)) ≡ true)
    unfolding huge_flags huge_fits
    huge_named l k bits e =
        let (kept, in_type) = huge_bits-kept in
        let known_bits : bit_and (huge_bits f) (known l) ≡ huge_bits f = rw k in_type in
        let flags : ℕ = bit_or (bit_or (huge_bits f) (2 ^ 7)) 1 in
        rw (e, kept, x.truncate_known l (huge_bits f) known_bits, x.ps_bit l, x.p_bit l)
          (
            Names-of_clean l flags (ground (arith, fits)),
            x.entry_huge l a flags page (ground (arith, fits)),
          )

    pub huge_pd-Names :
        Names hw (huge_entry hw pd a f) a × (hw.is_huge (huge_entry hw pd a f) ≡ true)
    unfolding huge_entry
    huge_pd-Names = huge_named pd refl (to_pdf hw f) (flags_bits hw f x small).3

    pub huge_pdpt-Names :
        Names hw (huge_entry hw pdpt a f) a × (hw.is_huge (huge_entry hw pdpt a f) ≡ true)
    unfolding huge_entry
    huge_pdpt-Names = huge_named pdpt refl (to_pdptf hw f) (flags_bits hw f x small).2

  relay_named :
      (l : PageLevel) (bits : ℕ)
      → bits ≡ 7
      → let e = hw.entry l a (bit_or bits (hw.bit_p l)) in Names hw e a × (hw.is_huge e ≡ false)
  relay_named l bits e = rw (e, x.p_bit l) (Names-of_clean l 7 refl, x.entry_small l a 7 page refl)

  pub relay_entry-Names :
      (l : PageLevel)
      → l ≢ pt
      → Names hw (relay_entry hw l a) a × (hw.is_huge (relay_entry hw l a) ≡ false)
  unfolding relay_entry
  relay_entry-Names pt u = absurd (u refl)
  relay_entry-Names pd u = relay_named pd _ (flags_bits hw relay_flags x (omega arith)).3
  relay_entry-Names pdpt u = relay_named pdpt _ (flags_bits hw relay_flags x (omega arith)).2
  relay_entry-Names pml4 u = relay_named pml4 _ (flags_bits hw relay_flags x (omega arith)).1
  relay_entry-Names pml5 u = relay_named pml5 _ (flags_bits hw relay_flags x (omega arith)).0
