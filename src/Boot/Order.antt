-- ===== src/Boot/Order.antt =====
-- Parts stop in the reverse order of their start, and a start that fails stops those that were started.
use x_ztl.Common.{
  ℕ, ◌≡◌, refl, ◌∙◌, inl, inr, Bool, true, false, ◌==◌, if◌then◌else◌, List, [], ◌∷◌, ◌++◌, length,
  Option, none, some, Bool-cases,
}
use x_ztl.Boot.{
  Part, mempool, media, groups, pro, mpe, map, io, mgmt, stats, Call, start, fails, stop, attempt,
  app_global_init, app_global_exit, ztl_exit, ztl_init, core_undo, init_ztl, xztl_init, xztl_exit,
}

abbrev pub same : Part → Part → Bool
same Part.mempool Part.mempool = true
same Part.media Part.media = true
same Part.groups Part.groups = true
same Part.pro Part.pro = true
same Part.mpe Part.mpe = true
same Part.map Part.map = true
same Part.io Part.io = true
same Part.mgmt Part.mgmt = true
same Part.stats Part.stats = true
same _ _ = false

-- The parts that were started and not stopped after the calls, the last started first; `none` where a part
-- is stopped that is not the last one started.
pub running : List Part → List Call → Option (List Part)
running ps [] = some ps
running ps (start p ∷ cs) = running (p ∷ ps) cs
running ps (fails p ∷ cs) = running ps cs
running [] (stop q ∷ cs) = none
running (p ∷ ps) (stop q ∷ cs) = if same p q then running ps cs else none

abbrev pub all_parts : List Part
all_parts = stats ∷ mgmt ∷ io ∷ map ∷ mpe ∷ pro ∷ groups ∷ media ∷ mempool ∷ []

-- The parts whose start failed.
pub failed : List Call → List Part
failed [] = []
failed (start p ∷ cs) = failed cs
failed (fails p ∷ cs) = p ∷ failed cs
failed (stop p ∷ cs) = failed cs

pub xztl_init-running :
    (ngrps : ℕ) (result : Part → ℕ)
    → (running [] (xztl_init ngrps result).calls
        ≡ some (if (xztl_init ngrps result).ret == 0 then all_parts else []))
      × (length (failed (xztl_init ngrps result).calls)
          ≡ (if (xztl_init ngrps result).ret == 0 then 0 else 1))
unfolding running failed attempt app_global_init app_global_exit ztl_exit ztl_init core_undo
    init_ztl xztl_init
xztl_init-running ngrps result = elim (Bool-cases (result mempool == 0)) [
  | inr b ↦ rw (b, b) (refl, refl)
  | inl g0 ↦ elim (Bool-cases (result media == 0)) [
    | inr b ↦ rw (g0, b, b) (refl, refl)
    | inl g1 ↦ elim (Bool-cases (ngrps == 0)) [
      | inl b ↦ rw (g0, g1, b) (refl, refl)
      | inr g2 ↦ elim (Bool-cases (result pro == 0)) [
        | inr b ↦ rw (g0, g1, g2, b) (refl, refl)
        | inl g3 ↦ elim (Bool-cases (result mpe == 0)) [
          | inr b ↦ rw (g0, g1, g2, g3, b) (refl, refl)
          | inl g4 ↦ elim (Bool-cases (result map == 0)) [
            | inr b ↦ rw (g0, g1, g2, g3, g4, b) (refl, refl)
            | inl g5 ↦ elim (Bool-cases (result io == 0)) [
              | inr b ↦ rw (g0, g1, g2, g3, g4, g5, b) (refl, refl)
              | inl g6 ↦ elim (Bool-cases (result mgmt == 0)) [
                | inr b ↦ rw (g0, g1, g2, g3, g4, g5, g6, b) (refl, refl)
                | inl g7 ↦ elim (Bool-cases (result stats == 0)) [
                  | inr b ↦ rw (g0, g1, g2, g3, g4, g5, g6, g7, b, b) (refl, refl)
                  | inl g8 ↦ rw (g0, g1, g2, g3, g4, g5, g6, g7, g8) (refl, refl)
                ]
              ]
            ]
          ]
        ]
      ]
    ]
  ]
]

running-append :
    (ps qs : List Part) (cs ds : List Call)
    → running ps cs ≡ some qs
    → running ps (cs ++ ds) ≡ running qs ds
unfolding running
running-append ps qs [] ds e = let h : ps ≡ qs = cc in rw h refl
running-append ps qs (start p ∷ cs) ds e = running-append (p ∷ ps) qs cs ds e
running-append ps qs (fails p ∷ cs) ds e = running-append ps qs cs ds e
running-append [] qs (stop q ∷ cs) ds e = absurd (cc)
running-append (p ∷ ps) qs (stop q ∷ cs) ds e = elim (Bool-cases (same p q)) [
  | inl y ↦ rw y (running-append ps qs cs ds (rw y at (e)))
  | inr n ↦ let gone : none ≡ some qs = rw n at (e) in absurd (cc)
]

-- After an `xztl_init` that succeeds, `xztl_exit` stops every part that was started, each in the reverse
-- order of its start.
pub xztl_exit-running :
    (ngrps : ℕ) (result : Part → ℕ)
    → (xztl_init ngrps result).ret ≡ 0
    → running [] ((xztl_init ngrps result).calls ++ xztl_exit) ≡ some []
unfolding xztl_exit ztl_exit app_global_exit core_undo running
xztl_exit-running ngrps result ok =
    running-append [] all_parts (xztl_init ngrps result).calls xztl_exit
      ((xztl_init-running ngrps result).0 ∙ rw ok refl)
