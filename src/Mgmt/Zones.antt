-- ===== src/Mgmt/Zones.antt =====
-- What a reset does to the zones of a node, and that its loop goes through.
use x_ztl.Common.{
  ℕ, zero, suc, ◌&&◌, ◌+◌, ◌≤◌, ◌<◌, ◌≡◌, ◌≢◌, inl, inr, refl, sym, ◌∙◌, ◌==◌, List, Option, some,
  get_elem?, set, get_elem?-set_self, get_elem?-set_ne, lt-of-get_elem?, arith, Bool-cases, ==→eq,
  ==→ne,
}
use x_ztl.Data.{Zone, ZmdEntry}
use x_ztl.Addr.{Maddr}
use x_ztl.Mgmt.{ZoneOp, mgmt_reset, node_reset_zn, reset_loop}

-- The entry of a zone exists.
abbrev pub Has : List ZmdEntry → ℕ → Type 0
Has tbl j = (e : ZmdEntry) × (get_elem? tbl j ≡ some e)

-- The pointers of the zone are at its first sector.
abbrev pub Fresh : List ZmdEntry → ℕ → Zone → Type 0
Fresh tbl j z =
    (e : ZmdEntry) × (get_elem? tbl j ≡ some e)
    × (e.wptr ≡ z.addr.sect)
    × (e.wptr_inflight ≡ z.addr.sect)

module _ {W : Type 0} (zone_fn : W → ZoneOp → Maddr → ℕ × ℕ × W)
    (accepts : (w : W) (a : Maddr)
      → ((zone_fn w mgmt_reset a).0 ≡ 0) × ((zone_fn w mgmt_reset a).1 ≡ 0))
    (zone : ℕ → Option Zone) (zn : ℕ → Zone) (ent : ℕ → ℕ)
    (laid : (k : ℕ) → k < 64 → (zone k ≡ some (zn k)) × ((zn k).zmd_entry ≡ some (ent k)))
    (apart : (j k : ℕ) → j < 64 → k < 64 → ent j ≡ ent k → j ≡ k) where
  pub record Emptied (i : ℕ) (tbl tbl' : List ZmdEntry) : Type 0 where
    pub fresh : (k : ℕ) → i ≤ k → k < 64 → Fresh tbl' (ent k) (zn k)
    pub kept : (j : ℕ) → ((k : ℕ) → i ≤ k → k < 64 → j ≢ ent k) → get_elem? tbl' j ≡ get_elem? tbl j

  abbrev emptied : Zone → ZmdEntry → ZmdEntry
  emptied z e = record e { wptr = z.addr.sect; wptr_inflight = z.addr.sect }

  reset_zn_lem :
      (k : ℕ) (w : W) (tbl : List ZmdEntry) (e : ZmdEntry)
      → k < 64
      → get_elem? tbl (ent k) ≡ some e
      → (w' : W) × (node_reset_zn zone_fn w (zn k) tbl
          ≡ some (0, w', set tbl (ent k) (emptied (zn k) e)))
  unfolding node_reset_zn
  reset_zn_lem k w tbl e h at_k =
      let a = accepts w (zn k).addr in
      ((zone_fn w mgmt_reset (zn k).addr).2, rw ((laid k h).1, a.0, a.1, at_k) refl)

  pub reset_loop-Emptied :
      (left i : ℕ) (w : W) (tbl : List ZmdEntry)
      → i + left ≡ 64
      → ((k : ℕ) → i ≤ k → k < 64 → Has tbl (ent k))
      → (w' : W) × (tbl' : List ZmdEntry) × (reset_loop zone_fn zone left i w tbl
          ≡ some (0, w', tbl'))
        × Emptied i tbl tbl'
  unfolding reset_loop
  reset_loop-Emptied zero i w tbl s has =
      (w, tbl, refl, record { fresh = λ k lo hi. absurd (omega arith); kept = λ j h. refl })
  reset_loop-Emptied (suc left) i w tbl s has =
      let (e, at_i) = has i (omega arith) (omega arith) in
      let (w1, one) = reset_zn_lem i w tbl e (omega arith) at_i in
      let tbl1 = set tbl (ent i) (emptied (zn i) e) in
      let (w2, tbl2, run, em) = reset_loop-Emptied left (i + 1) w1 tbl1 (omega arith) (λ k lo hi.
        let (f, at_k) = has k (omega arith) hi in
        (
          f,
          get_elem?-set_ne tbl (ent i) (ent k) _ (λ q. far i k lo hi (apart i k (omega arith) hi q))
              ∙ at_k,
        )) in
      (
        w2,
        tbl2,
        rw ((laid i (omega arith)).0, one, run) refl,
        record {
          fresh = λ k lo hi. elim (Bool-cases (i == k)) [
            | inl y ↦
                let same : i ≡ k = ==→eq i k y in
                rw (← same) (
                  emptied (zn i) e,
                  em.kept (ent i) (λ j lo' hi' q. far i j lo' hi' (apart i j (omega arith) hi' q))
                      ∙ get_elem?-set_self tbl (ent i) (emptied (zn i) e)
                          (lt-of-get_elem? tbl (ent i) at_i),
                  refl,
                  refl,
                )
            | inr n ↦ em.fresh k (let d = ==→ne i k n in grind arith) hi
          ];
          kept = λ j h.
              em.kept j (λ k lo hi. h k (omega arith) hi)
              ∙ get_elem?-set_ne tbl (ent i) j _ (λ q. h i (omega arith) (omega arith) (sym q));
        },
      )
    where
      far : (i k : ℕ) → i + 1 ≤ k → k < 64 → i ≡ k → ⊥
      far i k lo hi q = omega arith

module _ {W : Type 0} (zone_fn : W → ZoneOp → Maddr → ℕ × ℕ × W) where
  set-Has : (tbl : List ZmdEntry) (i j : ℕ) (e : ZmdEntry) → Has tbl j → Has (set tbl i e) j
  set-Has tbl i j e (f, at_j) = elim (Bool-cases (i == j)) [
    | inl y ↦
        let same : i ≡ j = ==→eq i j y in
        (e, rw same (get_elem?-set_self tbl j e (lt-of-get_elem? tbl j at_j)))
    | inr n ↦ (f, get_elem?-set_ne tbl i j e (==→ne i j n) ∙ at_j)
  ]

  -- Whatever the device answers, the reset of a zone with an entry goes through, and keeps the entries.
  reset_zn-some :
      (w : W) (z : Zone) (j : ℕ) (tbl : List ZmdEntry)
      → z.zmd_entry ≡ some j
      → Has tbl j
      → (ret : ℕ) × (w' : W) × (tbl' : List ZmdEntry) × (node_reset_zn zone_fn w z tbl
          ≡ some (ret, w', tbl'))
        × ((k : ℕ) → Has tbl k → Has tbl' k)
  unfolding node_reset_zn
  reset_zn-some w z j tbl entry (e, at_j) =
      let (ret, status, w') = zone_fn w mgmt_reset z.addr in
      elim (Bool-cases (ret == 0 && status == 0)) [
        | inl y ↦
            let empty : ZmdEntry = record e { wptr = z.addr.sect; wptr_inflight = z.addr.sect } in
            (ret, w', set tbl j empty, rw (entry, y, at_j) refl, λ k h. set-Has tbl j k empty h)
        | inr n ↦ (ret, w', tbl, rw (entry, n) refl, λ k h. h)
      ]

  pub reset_loop-some :
      (zone : ℕ → Option Zone) (zn : ℕ → Zone) (ent : ℕ → ℕ)
      → ((k : ℕ) → k < 64 → (zone k ≡ some (zn k)) × ((zn k).zmd_entry ≡ some (ent k)))
      → (left i : ℕ) (w : W) (tbl : List ZmdEntry) → i + left ≡ 64
      → ((k : ℕ) → k < 64 → Has tbl (ent k))
      → (ret : ℕ) × (w' : W) × (tbl' : List ZmdEntry) × (reset_loop zone_fn zone left i w tbl
          ≡ some (ret, w', tbl'))
  unfolding reset_loop
  reset_loop-some zone zn ent laid zero i w tbl s has = (0, w, tbl, refl)
  reset_loop-some zone zn ent laid (suc left) i w tbl s has =
      let (at_i, entry) = laid i (omega arith) in
      let (ret, w1, tbl1, one, kept) =
        reset_zn-some w (zn i) (ent i) tbl entry (has i (omega arith)) in
      let (rets, w2, tbl2, rest) =
        reset_loop-some zone zn ent laid left (i + 1) w1 tbl1 (omega arith)
          (λ k h. kept (ent k) (has k h)) in
      elim (Bool-cases (ret == 0)) [
        | inl y ↦ (rets, w2, tbl2, rw (at_i, one, y) rest)
        | inr n ↦ (ret, w1, tbl1, rw (at_i, one, n) refl)
      ]
