-- ===== src/Firmware/Attempts.antt =====
-- src/uefi_helper/boot.rs: which of the three attempts ends the boot services.
use okots_os.Base.{
  ℕ, zero, suc, ◌≡◌, ◌≢◌, refl, ap, Bool-cases, inl, inr, ◌⊎◌, false, Option, none, some, ◌==◌,
  ==_iff, arith, ◌+◌, ◌^◌, ◌≤◌,
}
use okots_os.Firmware.{
  Answer, BootServices, capacity_for, is_refused, exit_with, attempt, attempts, owned, with_buffer,
  exit_boot_services_with_talc,
}

module _ (bt : BootServices) where
  -- `s` to `s'` by an attempt that the firmware has refused
  abbrev pub IsRefused : ℕ → bt.State → bt.State → Type 0
  IsRefused capacity s s' = attempt bt capacity s ≡ (none, s')

  -- The map that the firmware wrote was current when it ended its services.
  abbrev pub IsExited : ℕ → bt.State → ℕ → bt.State → Type 0
  IsExited capacity s size s' =
      let (a, s'') = bt.get_memory_map capacity s in
      (a.status ≡ 0) × (bt.exit_boot_services a.map_key s'' ≡ (0, s')) × (a.map_size ≡ size)

  attempt-cases :
      (capacity : ℕ) (s : bt.State)
      → ((s' : bt.State) × IsRefused capacity s s')
        ⊎ ((size : ℕ) × (s' : bt.State) × (attempt bt capacity s ≡ (some size, s'))
            × IsExited capacity s size s')
  unfolding attempt exit_with
  attempt-cases capacity s =
      let (a, s1) = bt.get_memory_map capacity s in
      let (status, s2) = bt.exit_boot_services a.map_key s1 in
      elim (Bool-cases (a.status == 0)) [
        | inr e ↦ inl (s1, rw e refl)
        | inl e ↦ elim (Bool-cases (status == 0)) [
          | inr e' ↦ inl (s2, rw (e, e') refl)
          | inl e' ↦ inr (
            a.map_size,
            s2,
            rw (e, e') refl,
            ((==_iff a.status 0).0 e, ap (λ (n : ℕ). (n, s2)) ((==_iff status 0).0 e'), refl),
          )
        ]
      ]

  -- Either all rounds are refused one after the other, or one of them has ended the services.
  abbrev pub IsTried : ℕ → ℕ → bt.State → Option ℕ × bt.State → Type 0
  IsTried capacity zero s r = r ≡ (none, s)
  IsTried capacity (suc n) s r =
      ((s' : bt.State) × IsRefused capacity s s' × IsTried capacity n s' r)
      ⊎ ((size : ℕ) × (s' : bt.State) × (r ≡ (some size, s')) × IsExited capacity s size s')

  attempts-IsTried :
      (capacity n : ℕ) (s : bt.State) → IsTried capacity n s (attempts bt capacity n s)
  unfolding attempts
  attempts-IsTried capacity zero s = refl
  attempts-IsTried capacity (suc n) s = elim (attempt-cases capacity s) [
    | inl (s', e) ↦ inl (s', e, rw e (attempts-IsTried capacity n s'))
    | inr (size, s', e, x) ↦ inr (size, s', rw e refl, x)
  ]

abbrev pub IsReady : (ℕ → ℕ) → Answer → Type 0
IsReady alloc first =
    (first.desc_size ≢ 0) × (capacity_for first + 4096 ≤ 2 ^ 63) × (alloc (capacity_for first) ≢ 0)

ready : (alloc : ℕ → ℕ) (first : Answer) → IsReady alloc first → is_refused alloc first ≡ false
unfolding is_refused
ready alloc first h = ground arith

-- For any firmware, and an allocator that makes the buffer for its first answer:
-- `exit_boot_services_with_talc` gives the firmware at most three chances, one after the other. If
-- it returns, the map lies in that buffer, its size is the one that came with the key by which the
-- firmware has just ended its services, and its descriptors have the size of the first answer. If it
-- panics, the firmware has refused three times.
pub exit_boot_services_with_talc-IsTried :
    (bt : BootServices) (alloc : ℕ → ℕ) (s : bt.State)
    → IsReady alloc (bt.get_memory_map 0 s).0
    → let (first, s') = bt.get_memory_map 0 s in
      (r : Option ℕ × bt.State) × IsTried bt (capacity_for first) 3 s' r
      × (exit_boot_services_with_talc bt alloc s
          ≡ owned bt (alloc (capacity_for first)) (capacity_for first) first.desc_size r)
unfolding exit_boot_services_with_talc with_buffer
exit_boot_services_with_talc-IsTried bt alloc s h =
    let (first, s') = bt.get_memory_map 0 s in
    (
      attempts bt (capacity_for first) 3 s',
      attempts-IsTried bt (capacity_for first) 3 s',
      rw (ready alloc first h) refl,
    )
