-- ===== src/Pro/Get.antt =====
-- What the loop of `ztl_pro_grp_get` provisions: `num` commands are dealt to the zones of the node
-- in turn, from the zone of `start` on, each zone from its in-flight pointer.
use x_ztl.Common.{
  ℕ, zero, suc, ◌+◌, ◌-◌, ◌*◌, ◌%◌, ◌^◌, ◌≤◌, ◌<◌, ◌≡◌, ◌≢◌, refl, sym, ap, ◌∙◌, ◌==◌, ltb,
  if◌then◌else◌, List, [], ◌∷◌, Option, some, length, get_elem?, set, arith, lt→ltb, Bool-cases,
  ==→eq, ==→ne, inl, inr, ne→==, eq→==, lt-of-get_elem?, get_elem?-set_self, get_elem?-set_ne,
}
use x_ztl.Data.{Zone, ZmdEntry, Slot, add64, sub32}
use x_ztl.Addr.{to_sect}
use x_ztl.Pro.{take_piece, get_loop}

-- The number of commands of the zone in turn `j`.
abbrev pub share : ℕ → ℕ → ℕ → ℕ
share num_zn addition j = num_zn + (if ltb j addition then 1 else 0)

-- The `r` zones that follow zone `k` of a node, round its 64 zones.
abbrev pub turn : ℕ → ℕ → ℕ
turn k j = (k + j) % 64

turn-zero : (k : ℕ) → k < 64 → turn k 0 ≡ k
turn-zero k h = omega arith

turn-suc : (k j : ℕ) → turn ((k + 1) % 64) j ≡ turn k (suc j)
turn-suc k j = omega arith

-- One round of the counters of the loop: the commands of this round, and what is left.
abbrev pub one_more : ℕ → ℕ
one_more addition = if addition == 0 then 0 else 1

one_more_lem :
    (a : ℕ)
    → (one_more a ≤ a)
      × (one_more a ≡ (if ltb 0 a then 1 else 0))
      × (one_more a ≤ 1)
      × (a ≢ 0 → one_more a ≡ 1)
one_more_lem a = ground arith

share-suc : (n a j : ℕ) → share n (a - one_more a) j ≡ share n a (suc j)
share-suc n a j = ground arith

pub record Counters (num_zn addition r num : ℕ) : Type 0 where
  pub within : addition ≤ r
  pub last : num_zn ≡ 0 → r ≡ addition
  pub total : num ≡ num_zn * r + addition
  pub small : num < 2 ^ 32

Counters-suc :
    (n a r num : ℕ)
    → Counters n a (suc r) num
    → Counters n (a - one_more a) r (sub32 num (n + one_more a)) × (num ≢ 0)
Counters-suc n a r num c = (
  record {
    within = ground arith;
    last = λ z. ground (arith, c.last z);
    total = grind arith;
    small = omega arith;
  },
  λ z. elim (Bool-cases (n == 0)) [
    | inl y ↦ ground (arith, c.last (==→eq n 0 y))
    | inr y ↦ grind (arith, ==→ne n 0 y)
  ],
)

module _ (zone : ℕ → Option Zone) (zn : ℕ → Zone) (ent f : ℕ → ℕ)
    (laid : (k : ℕ) → k < 64 → (zone k ≡ some (zn k)) × ((zn k).zmd_entry ≡ some (ent k)))
    (apart : (j k : ℕ) → j < 64 → k < 64 → ent j ≡ ent k → j ≡ k) where
  -- The zone's metadata entry has the in-flight pointer `w`.
  abbrev pub Inflight : List ZmdEntry → ℕ → ℕ → Type 0
  Inflight tbl k w = (e : ZmdEntry) × (get_elem? tbl (ent k) ≡ some e) × (e.wptr_inflight ≡ w)

  abbrev pub slot : ℕ → ℕ → Slot
  slot k n = record { addr = record (zn k).addr { sect = to_sect (f k) }; nsec = n * 8 % 2 ^ 32 }

  take_piece_lem :
      (k n : ℕ) (tbl : List ZmdEntry)
      → k < 64
      → Inflight tbl k (f k)
      → (tbl' : List ZmdEntry) × (take_piece (zn k) n tbl ≡ some (slot k n, tbl'))
        × Inflight tbl' k (add64 (f k) (n * 8 % 2 ^ 32))
        × ((e : ℕ) → e ≢ ent k → get_elem? tbl' e ≡ get_elem? tbl e)
  unfolding take_piece
  take_piece_lem k n tbl h (e, at_k, w) =
      let e' : ZmdEntry = record e { wptr_inflight = add64 e.wptr_inflight (n * 8 % 2 ^ 32) } in
      (
        set tbl (ent k) e',
        rw ((laid k h).1, at_k, w) refl,
        (e', get_elem?-set_self tbl (ent k) e' (lt-of-get_elem? tbl (ent k) at_k), rw w refl),
        λ d ne. get_elem?-set_ne tbl (ent k) d e' (λ q. ne (sym q)),
      )

  -- The zones still to be served have the in-flight pointers of `f`.
  abbrev pub Pending : List ZmdEntry → ℕ → ℕ → Type 0
  Pending tbl k r = (j : ℕ) → j < r → Inflight tbl (turn k j) (f (turn k j))

  pub record Got (num_zn addition k r : ℕ) (tbl : List ZmdEntry) (slots : List Slot)
      (tbl' : List ZmdEntry) : Type 0 where
    pub count : length slots ≡ r
    pub piece :
        (j : ℕ) → j < r → get_elem? slots j ≡ some (slot (turn k j) (share num_zn addition j))
    pub moved :
        (j : ℕ)
        → j < r
        → Inflight tbl' (turn k j) (add64 (f (turn k j)) (share num_zn addition j * 8 % 2 ^ 32))
    pub kept : (e : ℕ) → ((j : ℕ) → j < r → e ≢ ent (turn k j)) → get_elem? tbl' e ≡ get_elem? tbl e

  Pending-suc :
      (tbl tbl' : List ZmdEntry) (k r : ℕ)
      → k < 64
      → suc r ≤ 64
      → ((e : ℕ) → e ≢ ent k → get_elem? tbl' e ≡ get_elem? tbl e)
      → Pending tbl k (suc r)
      → Pending tbl' ((k + 1) % 64) r
  Pending-suc tbl tbl' k r hk hr same p j hj = rw (turn-suc k j) (
      rw (same (ent (turn k (suc j))) (λ q. far (apart (turn k (suc j)) k (omega arith) hk q)))
        (p (suc j) (omega arith)))
    where
      far : turn k (suc j) ≡ k → ⊥
      far q = omega arith

  Got-cons :
      (num_zn addition k r : ℕ) (tbl tbl1 tbl2 : List ZmdEntry) (ss : List Slot)
      → k < 64
      → suc r ≤ 64
      → Inflight tbl1 k (add64 (f k) ((num_zn + one_more addition) * 8 % 2 ^ 32))
      → ((e : ℕ) → e ≢ ent k → get_elem? tbl1 e ≡ get_elem? tbl e)
      → Got num_zn (addition - one_more addition) ((k + 1) % 64) r tbl1 ss tbl2
      → Got num_zn addition k (suc r) tbl (slot k (num_zn + one_more addition) ∷ ss) tbl2
  Got-cons n a k r tbl tbl1 tbl2 ss hk hr here same g = record {
    count = ap suc g.count;
    piece = piece_at;
    moved = moved_at;
    kept = λ e h.
        g.kept e (λ j hj. rw (turn-suc k j) (h (suc j) (omega arith)))
        ∙ same e (rw (turn-zero k hk) at (h 0 (omega arith)));
  }
    where
      away : (j : ℕ) → j < r → k ≡ turn ((k + 1) % 64) j → ⊥
      away j hj q = omega arith

      piece_at :
          (j : ℕ)
          → j < suc r
          → get_elem? (slot k (n + one_more a) ∷ ss) j ≡ some (slot (turn k j) (share n a j))
      piece_at zero h = rw (turn-zero k hk, (one_more_lem a).1) refl
      piece_at (suc j) h = rw (← turn-suc k j, ← share-suc n a j) (g.piece j (omega arith))

      moved_at :
          (j : ℕ)
          → j < suc r
          → Inflight tbl2 (turn k j) (add64 (f (turn k j)) (share n a j * 8 % 2 ^ 32))
      moved_at zero h =
          rw (turn-zero k hk, ← (one_more_lem a).1)
            (rw (g.kept (ent k) (λ j hj q. away j hj (apart k _ hk (omega arith) q))) here)
      moved_at (suc j) h = rw (← turn-suc k j, ← share-suc n a j) (g.moved j (omega arith))

  pub get_loop-Got :
      (r fuel num_zn addition k num naddr : ℕ) (tbl : List ZmdEntry)
      → r < fuel
      → k < 64
      → r ≤ 64
      → naddr + r ≤ 128
      → Counters num_zn addition r num
      → Pending tbl k r
      → (slots : List Slot) × (tbl' : List ZmdEntry) × (get_loop zone fuel num_zn addition k num
            naddr tbl
          ≡ some (slots, tbl'))
        × Got num_zn addition k r tbl slots tbl'
  unfolding get_loop
  get_loop-Got r zero n a k num naddr tbl hf hk hr hd c p = elim hf [ ]
  get_loop-Got zero (suc fuel) n a k num naddr tbl hf hk hr hd c p = (
    [],
    tbl,
    rw (eq→== num 0 (omega arith)) refl,
    record {
      count = refl;
      piece = λ j h. elim h [ ];
      moved = λ j h. elim h [ ];
      kept = λ e h. refl;
    },
  )
  get_loop-Got (suc r) (suc fuel) n a k num naddr tbl hf hk hr hd c p =
      let here : Inflight tbl k (f k) = rw (turn-zero k hk) at (p 0 (omega arith)) in
      let (tbl1, taken, moved, same) = take_piece_lem k (n + one_more a) tbl hk here in
      let (ss, tbl2, rest, got) =
        get_loop-Got r fuel n (a - one_more a) ((k + 1) % 64) (sub32 num (n + one_more a))
          (naddr + 1) tbl1 (omega arith) (omega arith) (omega arith) (omega arith)
          (Counters-suc n a r num c).0 (Pending-suc tbl tbl1 k r hk hr same p) in
      (
        slot k (n + one_more a) ∷ ss,
        tbl2,
        rw
            (
              ne→== num 0 (Counters-suc n a r num c).1,
              lt→ltb naddr 128 (omega arith),
              (laid k hk).0,
              taken,
              rest,
            )
            refl,
        Got-cons n a k r tbl tbl1 tbl2 ss hk hr moved same got,
      )
