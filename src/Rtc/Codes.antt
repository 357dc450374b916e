-- ===== src/Rtc/Codes.antt =====
-- src/timer/rtc.rs: the codes of the registers.
use okots_os.Base.{
  ℕ, ◌<◌, ◌≡◌, refl, Bool, true, ◌&&◌, ◌==◌, ==_iff, ltb, arith, checked, checked_all,
}
use okots_os.Rtc.{bcd_to_bin, bin_to_bcd, decode_hour}

abbrev returns : ℕ → Bool
returns b = (bcd_to_bin (bin_to_bcd b) == b) && ltb (bin_to_bcd b) 256

returns-table : checked returns 100 ≡ true
unfolding checked bcd_to_bin bin_to_bcd
returns-table = refl

-- Every number below 100 comes back from its BCD code.
pub bcd_to_bin-bin_to_bcd : (b : ℕ) → b < 100 → bcd_to_bin (bin_to_bcd b) ≡ b
bcd_to_bin-bin_to_bcd b h = ground (arith, checked_all returns 100 b h returns-table)

hours-table : checked (λ h. decode_hour (bin_to_bcd h) == h) 24 ≡ true
unfolding checked decode_hour bin_to_bcd
hours-table = refl

-- So does every hour, whose code never has the flag for the afternoon.
pub decode_hour-bin_to_bcd : (h : ℕ) → h < 24 → decode_hour (bin_to_bcd h) ≡ h
decode_hour-bin_to_bcd h small =
    (==_iff _ h).0 (checked_all (λ k. decode_hour (bin_to_bcd k) == k) 24 h small hours-table)
