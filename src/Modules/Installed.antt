-- ===== src/Modules/Installed.antt =====
-- Which modules are in place after registrations and `ztl_mod_set`.
use x_ztl.Common.{
  ℕ, zero, suc, ◌<◌, ◌≡◌, refl, ap, sym, ◌∙◌, inl, inr, Bool, true, false, ◌==◌, ◌||◌, leb, ltb,
  if◌then◌else◌, List, [], ◌∷◌, Option, none, some, arith, Bool-cases, Option-cases, eq→==, ==→eq,
}
use mathlib.Core.Path.{subst}
use x_ztl.Consts.{xztl_ok}
use x_ztl.Modules.{Modules, is_known, mod_register, any_off, set_one, set_loop, mod_set}

-- A call of `ztl_mod_register`: the type, the id and the module.
abbrev pub Registration : Type 0
Registration = ℕ × ℕ × Option ℕ

-- The state at the start of the program.
abbrev pub nothing_set : Modules
nothing_set = record { mod_list = λ t i. none; modset = λ t. 0; mods = λ t. none }

-- The calls, the last of the list first.
unfoldable pub register_all : List Registration → Modules
register_all [] = nothing_set
register_all ((modtype, modid, mod_ptr) ∷ rs) =
    (mod_register (register_all rs) modtype modid mod_ptr).1

-- The id and the module of the last call for a type that was not refused.
abbrev pub last_of : List Registration → ℕ → Option (ℕ × ℕ)
last_of [] t = none
last_of ((modtype, modid, none) ∷ rs) t = last_of rs t
last_of ((modtype, modid, some m) ∷ rs) t =
    if leb 32 modid || leb 10 modtype
    then last_of rs t
    else if modtype == t
    then some (modid, m)
    else last_of rs t

-- What it puts in place: an id of 0 does not count.
abbrev pub installed : Option (ℕ × ℕ) → Option ℕ
installed none = none
installed (some (i, m)) = if i == 0 then none else some m

abbrev id_of : Option (ℕ × ℕ) → ℕ
id_of none = 0
id_of (some (i, m)) = i

abbrev Points : (ℕ → Option ℕ) → Option (ℕ × ℕ) → Type 0
Points list none = Unit
Points list (some (i, m)) = list i ≡ some m

-- The tables agree with the last calls.
record Agrees (s : Modules) (last : ℕ → Option (ℕ × ℕ)) : Type 0 where
  ids : (t : ℕ) → s.modset t ≡ id_of (last t)
  ptrs : (t : ℕ) → Points (s.mod_list t) (last t)
  small : (t : ℕ) → s.modset t < 32
  unset : (t : ℕ) → s.mods t ≡ none

register_all-Agrees : (rs : List Registration) → Agrees (register_all rs) (last_of rs)
unfolding register_all mod_register
register_all-Agrees [] = record {
  ids = λ t. refl;
  ptrs = λ t. tt;
  small = λ t. omega arith;
  unset = λ t. refl;
}
register_all-Agrees ((modtype, modid, none) ∷ rs) =
    let h = register_all-Agrees rs in
    elim (Bool-cases (leb 32 modid || leb 10 modtype)) [
      | inl off ↦ rw (register_all, mod_register, off) h
      | inr fits ↦ rw (register_all, mod_register, fits) h
    ]
register_all-Agrees ((modtype, modid, some m) ∷ rs) =
    let h = register_all-Agrees rs in
    elim (Bool-cases (leb 32 modid || leb 10 modtype)) [
      | inl off ↦
          rw (register_all, mod_register, off)
            (record {
              ids = λ t. rw off (h.ids t);
              ptrs = λ t. rw off (h.ptrs t);
              small = h.small;
              unset = h.unset;
            })
      | inr fits ↦
          rw (register_all, mod_register, fits)
            (record {
              ids = λ t. elim (Bool-cases (modtype == t)) [
                | inl here ↦ rw (fits, here) refl
                | inr other ↦ rw (fits, other) (h.ids t)
              ];
              ptrs = λ t. elim (Bool-cases (modtype == t)) [
                | inl here ↦
                    let self : (modid == modid) ≡ true = ground arith in rw (fits, here, self) refl
                | inr other ↦ rw (fits, other) (h.ptrs t)
              ];
              small = λ t. elim (Bool-cases (modtype == t)) [
                | inl here ↦ rw here (ground (arith, fits))
                | inr other ↦ rw other (h.small t)
              ];
              unset = h.unset;
            })
    ]

any_off-small : (n : ℕ) (modset : ℕ → ℕ) → ((t : ℕ) → modset t < 32) → any_off n modset ≡ false
unfolding any_off
any_off-small zero modset h = refl
any_off-small (suc n) modset h =
    let here : leb 32 (modset n) ≡ false = ground (arith, h n) in
    rw (any_off, here) (any_off-small n modset h)

set_one-list : (n : ℕ) (modset : ℕ → ℕ) (s : Modules) → (set_one n modset s).mod_list ≡ s.mod_list
unfolding set_one
set_one-list n modset s = elim (Option-cases (s.mod_list n (modset n))) [
  | inl empty ↦ rw (set_one, empty) refl
  | inr (m, held) ↦ elim (Bool-cases (modset n == 0)) [
    | inl unset ↦ rw (set_one, held, unset) refl
    | inr chosen ↦ elim (Bool-cases (is_known n)) [
      | inl known ↦ rw (set_one, held, chosen, known) refl
      | inr unknown ↦ rw (set_one, held, chosen, unknown) refl
    ]
  ]
]

set_loop-list : (n : ℕ) (modset : ℕ → ℕ) (s : Modules) → (set_loop n modset s).mod_list ≡ s.mod_list
unfolding set_loop
set_loop-list zero modset s = refl
set_loop-list (suc n) modset s =
    set_one-list n modset (set_loop n modset s) ∙ set_loop-list n modset s

-- A round leaves every other slot.
set_one-other :
    (n t : ℕ) (modset : ℕ → ℕ) (s : Modules)
    → (n == t) ≡ false
    → (set_one n modset s).mods t ≡ s.mods t
unfolding set_one
set_one-other n t modset s other = elim (Option-cases (s.mod_list n (modset n))) [
  | inl empty ↦ rw (set_one, empty) refl
  | inr (m, held) ↦ elim (Bool-cases (modset n == 0)) [
    | inl unset ↦ rw (set_one, held, unset) refl
    | inr chosen ↦ elim (Bool-cases (is_known n)) [
      | inl known ↦ rw (set_one, held, chosen, known, other) refl
      | inr unknown ↦ rw (set_one, held, chosen, unknown) refl
    ]
  ]
]

either : (b : Bool) {o : Option ℕ} → o ≡ none → o ≡ (if b then none else none)
either true e = e
either false e = e

-- A round puts in its own slot what is chosen there, or leaves it.
set_one-here :
    (n : ℕ) (modset : ℕ → ℕ) (s : Modules) (chosen : Option (ℕ × ℕ))
    → modset n ≡ id_of chosen
    → Points (s.mod_list n) chosen
    → s.mods n ≡ none
    → (set_one n modset s).mods n ≡ (if is_known n then installed chosen else none)
unfolding set_one
set_one-here n modset s none id ptr empty =
    let unset = eq→== (modset n) 0 id in
    elim (Option-cases (s.mod_list n (modset n))) [
      | inl none_there ↦ rw (set_one, none_there) (either (is_known n) empty)
      | inr (m, held) ↦ rw (set_one, held, unset) (either (is_known n) empty)
    ]
set_one-here n modset s (some (i, m)) id ptr empty =
    let held : s.mod_list n (modset n) ≡ some m = ap (s.mod_list n) id ∙ ptr in
    elim (Bool-cases (i == 0)) [
      | inl unset ↦
          let zero_id : (modset n == 0) ≡ true = ground (arith, id, unset) in
          rw (set_one, held, zero_id, unset) (either (is_known n) empty)
      | inr chosen ↦
          let some_id : (modset n == 0) ≡ false = ground (arith, id, chosen) in
          elim (Bool-cases (is_known n)) [
            | inl known ↦ rw (set_one, held, some_id, known, chosen) own
            | inr unknown ↦ rw (set_one, held, some_id, unknown) empty
          ]
    ]
  where
    own : (if n == n then some m else s.mods n) ≡ some m
    own = let self : (n == n) ≡ true = ground arith in rw self refl

-- The slots after the second loop over the first `n` types.
set_loop-mods :
    (s : Modules) (last : ℕ → Option (ℕ × ℕ)) (n t : ℕ)
    → Agrees s last
    → (set_loop n s.modset s).mods t
      ≡ (if ltb t n then (if is_known t then installed (last t) else none) else none)
unfolding set_loop
set_loop-mods s last zero t h = let over : ltb t 0 ≡ false = ground arith in rw over (h.unset t)
set_loop-mods s last (suc n) t h =
    let before = set_loop-mods s last n t h in
    elim (Bool-cases (n == t)) [
      | inr other ↦
          let same : ltb t (suc n) ≡ ltb t n = ground (arith, other) in
          set_one-other n t s.modset (set_loop n s.modset s) other ∙ rw same before
      | inl here ↦
          let at_n : n ≡ t = ==→eq n t here in
          let over : ltb t n ≡ false = ground (arith, at_n) in
          let under : ltb t (suc n) ≡ true = ground (arith, at_n) in
          let empty_n : (set_loop n s.modset s).mods t ≡ none = rw over at before in
          let empty : (set_loop t s.modset s).mods t ≡ none = rw at_n at empty_n in
          rw (under, at_n)
            (set_one-here t s.modset (set_loop t s.modset s) (last t) (h.ids t)
              (subst (λ f. Points (f t) (last t)) (sym (set_loop-list t s.modset s)) (h.ptrs t))
              empty)
    ]

-- After registrations in any order, `ztl_mod_set` succeeds and puts in place, for each type that it
-- knows, the module of the last registration of that type that was not refused, unless its id is 0; no
-- other type has a module.
pub mod_set-register_all :
    (rs : List Registration)
    → ((mod_set (register_all rs) (register_all rs).modset).0 ≡ xztl_ok)
      × ((t : ℕ)
          → (mod_set (register_all rs) (register_all rs).modset).1.mods t
            ≡ (if ltb t 10 then (if is_known t then installed (last_of rs t) else none) else none))
unfolding mod_set
mod_set-register_all rs =
    let s = register_all rs in
    let h = register_all-Agrees rs in
    let good = any_off-small 10 s.modset h.small in
    (rw (mod_set, good) refl, λ t. rw (mod_set, good) (set_loop-mods s (last_of rs) 10 t h))
