-- ===== src/SendAndGet/Once.antt =====
-- src/send_and_get.rs, `Data`: what a holder can do with the memory, over any sequence of calls.
use okots_os.Base.{
  ℕ, suc, ◌+◌, ◌≤◌, ◌≡◌, ◌≢◌, ◌⊎◌, inl, inr, All, refl, sym, subst, true, false, Option, none, some,
  List, [], ◌∷◌, arith,
}
use okots_os.SendAndGet.{
  Data, Slice, Vec, borrow, get_raw_ptr, get_slice_static, get_slice_static_mut, get_slice,
  get_mut_slice, take_vec, drop,
}

-- a call of one of the methods
pub data Call : Type 0 where
  static static_mut slice mut_slice take : Call

-- what the holder has got
pub data Given : Type 0 where
  nothing : Given
  gave_slice : Slice → Given
  gave_vec : Vec → Given

abbrev pub given_slice : Option Slice × Data → Given × Data
given_slice (none, d) = (nothing, d)
given_slice (some s, d) = (gave_slice s, d)

abbrev pub given_vec : Option Vec × Data → Given × Data
given_vec (none, d) = (nothing, d)
given_vec (some v, d) = (gave_vec v, d)

unfoldable pub call : ℕ → Call → Data → Given × Data
unfolding get_slice_static get_slice_static_mut get_slice get_mut_slice take_vec
call align static d = given_slice (get_slice_static align d)
call align static_mut d = given_slice (get_slice_static_mut align d)
call align slice d = given_slice (get_slice align d)
call align mut_slice d = given_slice (get_mut_slice align d)
call align take d = given_vec (take_vec align d)

-- the calls in turn, and the drop at the end
unfoldable pub life : ℕ → List Call → Data → List Given × Option Vec
unfolding call drop
life align [] d = ([], drop d)
life align (c ∷ cs) d =
    let (g, d') = call align c d in let (gs, freed) = life align cs d' in (g ∷ gs, freed)

-- how often the memory has been handed out
abbrev pub handed : List Given → ℕ
handed [] = 0
handed (nothing ∷ gs) = handed gs
handed (gave_slice s ∷ gs) = suc (handed gs)
handed (gave_vec v ∷ gs) = suc (handed gs)

abbrev pub taken : List Given → ℕ
taken [] = 0
taken (gave_vec v ∷ gs) = suc (taken gs)
taken (g ∷ gs) = taken gs

abbrev pub freed_count : Option Vec → ℕ
freed_count none = 0
freed_count (some v) = 1

abbrev pub spent : Data → Data
spent d = record d { ptr = 0 }

-- the calls and the drop of what holds no pointer any more
call-spent : (align : ℕ) (c : Call) (d : Data) → call align c (spent d) ≡ (nothing, spent d)
unfolding call get_slice_static get_slice_static_mut get_slice get_mut_slice take_vec get_raw_ptr
call-spent align static d = ground arith
call-spent align static_mut d = ground arith
call-spent align slice d = ground arith
call-spent align mut_slice d = ground arith
call-spent align take d = ground arith

-- what a given value says of the data it came from
abbrev pub IsOf : Data → Given → Type 0
IsOf d nothing = Unit
IsOf d (gave_slice s) = (s.ptr ≡ d.ptr) × (s.len ≡ d.len)
IsOf d (gave_vec v) = (v.ptr ≡ d.ptr) × (v.len ≡ d.len) × (v.cap ≡ d.cap) × (borrow d.tag ≡ false)

-- A call hands the memory out and forgets it, or does nothing.
call_once :
    (align : ℕ) (c : Call) (d : Data)
    → (call align c d ≡ (nothing, d))
      ⊎ ((handed ((call align c d).0 ∷ []) ≡ 1)
          × IsOf d (call align c d).0
          × ((call align c d).1 ≡ spent d))
unfolding call get_slice_static get_slice_static_mut get_slice get_mut_slice take_vec get_raw_ptr
call_once align static d = ground arith
call_once align static_mut d = ground arith
call_once align slice d = ground arith
call_once align mut_slice d = ground arith
call_once align take d = ground arith

-- the vector that the data stands for
abbrev pub whole : Data → Vec
whole d = record { ptr = d.ptr; len = d.len; cap = d.cap }

-- The values given are the data's own. Borrowed memory is handed out once at most, never as a
-- vector, and not freed; a vector is handed out or freed, once.
abbrev pub IsOnce : Data → List Given × Option Vec → Type 0
IsOnce d (gs, freed) =
    All (IsOf d) gs
    × (((borrow d.tag ≡ true) × (freed ≡ none) × (taken gs ≡ 0) × (handed gs ≤ 1))
        ⊎ ((borrow d.tag ≡ false)
            × ((freed ≡ none) ⊎ (freed ≡ some (whole d)))
            × (handed gs + freed_count freed ≡ 1)))

spent-life :
    (align : ℕ) (cs : List Call) (d e : Data)
    → All (IsOf e) (life align cs (spent d)).0
      × ((life align cs (spent d)).1 ≡ none)
      × (handed (life align cs (spent d)).0 ≡ 0)
      × (taken (life align cs (spent d)).0 ≡ 0)
unfolding life drop
spent-life align [] d e = (tt, ground arith, refl, refl)
spent-life align (c ∷ cs) d e =
    rw (call-spent align c d) (let (all, f, h, t) = spent-life align cs d e in ((tt, all), f, h, t))

handed-IsOnce :
    (d : Data) (g : Given) (r : List Given × Option Vec)
    → handed (g ∷ []) ≡ 1
    → IsOf d g
    → All (IsOf d) r.0 × (r.1 ≡ none) × (handed r.0 ≡ 0) × (taken r.0 ≡ 0)
    → IsOnce d (g ∷ r.0, r.1)
handed-IsOnce d nothing r h of (all, f, h', t) = absurd (omega arith)
handed-IsOnce d (gave_slice s) r h of (all, f, h', t) = ((of, all), ground arith)
handed-IsOnce d (gave_vec v) r h of (all, f, h', t) = ((of, all), ground arith)

kept-IsOnce : (d : Data) (r : List Given × Option Vec) → IsOnce d r → IsOnce d (nothing ∷ r.0, r.1)
kept-IsOnce d r (all, once) = ((tt, all), once)

-- what is left to show once the first call has given `r`
IsNext : ℕ → List Call → Data → Given × Data → Type 0
IsNext align cs d r = IsOnce d (r.0 ∷ (life align cs r.1).0, (life align cs r.1).1)

-- Over any calls of the methods in any order and the drop at the end, for data that is not null: the
-- memory is handed out at most once, at its own address and length. If it is borrowed it is never
-- given away as a vector nor freed. If it is owned it is handed out or freed, exactly once in all,
-- and what is freed is the whole vector.
pub life-IsOnce : (align : ℕ) (cs : List Call) (d : Data) → d.ptr ≢ 0 → IsOnce d (life align cs d)
unfolding life drop IsNext
life-IsOnce align [] d live = (tt, ground arith)
life-IsOnce align (c ∷ cs) d live = elim (call_once align c d) [
  | inl e ↦
      subst (IsNext align cs d) (sym e)
        (kept-IsOnce d (life align cs d) (life-IsOnce align cs d live))
  | inr (h, of, e) ↦
      subst (λ after. IsNext align cs d ((call align c d).0, after)) (sym e)
        (handed-IsOnce d (call align c d).0 (life align cs (spent d)) h of
          (spent-life align cs d d))
]
