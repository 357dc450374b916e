-- ===== src/Paging/Flags/Bits.antt =====
-- src/memory/paging.rs, `PageEntryFlags`: which bit of an entry each flag becomes at each level.
use okots_os.Base.{
  checked, checked_all, ℕ, ◌+◌, ◌*◌, ◌/◌, ◌%◌, ◌^◌, ◌<◌, ◌≡◌, refl, ◌∙◌, Bool, true, ◌&&◌, arith,
  ◌==◌, bit_and,
}
use okots_os.Paging.Level.{PageLevel, pt, pd, pdpt, pml4, pml5}
use okots_os.Paging.Hardware.{Hardware, IsX86, known}
use okots_os.Paging.Flags.{
  or_if, huge, global, dirty, pat, apply_to_raw, to_pml5f, to_pml4f, to_pdptf, to_pdf, to_ptf,
}

-- bit `k` of a flag set
abbrev pub bit : ℕ → ℕ → ℕ
bit flags k = flags / 2 ^ k % 2

-- The bits 0 to 5 keep their places; `EXECUTE_DISABLE`, bit 9, becomes bit 63.
abbrev pub table_bits : ℕ → ℕ
table_bits flags = flags % 64 + bit flags 9 * 2 ^ 63

-- `DIRTY` and `GLOBAL` keep their places too.
abbrev pub page_bits : ℕ → ℕ
page_bits flags = table_bits flags + bit flags 6 * 2 ^ 6 + bit flags 8 * 2 ^ 8

-- `PAT`, bit 7, becomes bit 12, and `HUGE`, bit 10, becomes bit 7.
abbrev pub huge_bits : ℕ → ℕ
huge_bits flags = page_bits flags + bit flags 7 * 2 ^ 12 + bit flags 10 * 2 ^ 7

-- the bits before truncation, with the level's constants `PS`, `G`, `D` and `PAT`
raw_huge : ℕ → ℕ → ℕ → ℕ → ℕ → ℕ
unfolding apply_to_raw
raw_huge ps g d p flags =
    or_if flags huge ps
      (or_if flags global g (or_if flags dirty d (or_if flags pat p (apply_to_raw flags 0))))

raw_page : ℕ → ℕ → ℕ → ℕ
unfolding apply_to_raw
raw_page g d flags = or_if flags global g (or_if flags dirty d (apply_to_raw flags 0))

-- `raw` is `bits`, and lies within the mask
agrees : ℕ → ℕ → ℕ → Bool
agrees mask raw bits = raw == bits && bit_and raw mask == raw

agrees_truncate :
    (hw : Hardware) (l : PageLevel) (raw bits : ℕ)
    → IsX86 hw
    → agrees (known l) raw bits ≡ true
    → hw.truncate l raw ≡ bits
unfolding agrees
agrees_truncate hw l raw bits x h = x.truncate_known l raw (ground arith) ∙ ground arith

table_check : checked (λ f. agrees (known pml4) (apply_to_raw f 0) (table_bits f)) 2048 ≡ true
unfolding checked agrees apply_to_raw
table_check = refl

page_check : checked (λ f. agrees (known pt) (raw_page (2 ^ 8) (2 ^ 6) f) (page_bits f)) 2048 ≡ true
unfolding checked agrees raw_page
page_check = refl

huge_check :
    checked
      (λ f. agrees (known pd) (raw_huge (2 ^ 7) (2 ^ 8) (2 ^ 6) (2 ^ 12) f) (huge_bits f))
      2048
    ≡ true
unfolding checked agrees raw_huge
huge_check = refl

huge_truncate :
    (hw : Hardware) (l : PageLevel) (flags : ℕ)
    → IsX86 hw
    → known l ≡ known pd
    → flags < 2048
    → hw.truncate l (raw_huge (hw.bit_ps l) (hw.bit_g l) (hw.bit_d l) (hw.bit_pat l) flags)
      ≡ huge_bits flags
huge_truncate hw l flags x e h =
    rw (x.ps_bit l, x.g_bit l, x.d_bit l, x.pat_bit l)
      (agrees_truncate hw l _ _ x (rw e (checked_all _ 2048 flags h huge_check)))

table :
    (flags : ℕ)
    → flags < 2048
    → agrees (known pml4) (apply_to_raw flags 0) (table_bits flags) ≡ true
table flags h =
    checked_all (λ f. agrees (known pml4) (apply_to_raw f 0) (table_bits f)) 2048 flags h
      table_check

page :
    (hw : Hardware) (flags : ℕ)
    → IsX86 hw
    → flags < 2048
    → hw.truncate pt (raw_page (hw.bit_g pt) (hw.bit_d pt) flags) ≡ page_bits flags
page hw flags x h =
    rw (x.g_bit pt, x.d_bit pt)
      (agrees_truncate hw pt _ _ x (checked_all _ 2048 flags h page_check))

-- At every level the kernel's flags become the documented bits: writable, user and the other low
-- flags keep their places, `EXECUTE_DISABLE` becomes bit 63, and, where the level has them, `DIRTY`
-- bit 6, `GLOBAL` bit 8, `PAT` bit 12 and `HUGE` bit 7. No other bit is set, and the levels that
-- have no such bit drop the flag.
pub flags_bits :
    (hw : Hardware) (flags : ℕ)
    → IsX86 hw
    → flags < 2048
    → (to_pml5f hw flags ≡ table_bits flags)
      × (to_pml4f hw flags ≡ table_bits flags)
      × (to_pdptf hw flags ≡ huge_bits flags)
      × (to_pdf hw flags ≡ huge_bits flags)
      × (to_ptf hw flags ≡ page_bits flags)
unfolding to_pml5f to_pml4f to_pdptf to_pdf to_ptf raw_huge raw_page
flags_bits hw flags x h = (
  agrees_truncate hw pml5 _ _ x (table flags h),
  agrees_truncate hw pml4 _ _ x (table flags h),
  huge_truncate hw pdpt flags x refl h,
  huge_truncate hw pd flags x refl h,
  page hw flags x h,
)
