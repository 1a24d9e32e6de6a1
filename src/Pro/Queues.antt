-- ===== src/Pro/Queues.antt =====
-- The queues of a group's nodes: no operation loses a node or puts one on two queues.
use x_ztl.Common.{
  ℕ, ◌+◌, ◌^◌, ◌<◌, ◌≡◌, inl, inr, refl, ◌∙◌, ◌==◌, List, [], ◌∷◌, some, >>=-eq-some, arith,
  Bool-cases, length, length-append, times, times-append, tailq_remove, Option-cases,
  tailq_remove-times,
}
use x_ztl.Consts.{xztl_ok}
use x_ztl.Data.{NodeGrp, QueuePool}
use x_ztl.Pro.{node_at, put_node, retire, take_node, next_node, grp_get_node}

-- How often the node `id` stands on the three queues.
abbrev pub listed : NodeGrp → ℕ → ℕ
listed pro id = times id pro.free_head + times id pro.used_head + times id pro.full_head

-- `nfree` is the length of the free queue, and every node that is free has its fields.
pub record IsValid (pro : NodeGrp) : Type 0 where
  pub nfree_eq : pro.nfree ≡ length pro.free_head
  pub small : length pro.free_head + length pro.used_head + length pro.full_head < 2 ^ 32

-- The sizes of the queues, and the counter, after a step.
pub record Keeps (pro pro' : NodeGrp) : Type 0 where
  pub same : (id : ℕ) → listed pro' id ≡ listed pro id
  pub valid : IsValid pro → IsValid pro'

pub Keeps-refl : (pro : NodeGrp) → Keeps pro pro
Keeps-refl pro = record { same = λ id. refl; valid = λ v. v }

pub Keeps-trans : (p q r : NodeGrp) → Keeps p q → Keeps q r → Keeps p r
Keeps-trans p q r a b = record {
  same = λ id. b.same id ∙ a.same id;
  valid = λ v. b.valid (a.valid v);
}

retire-Keeps : (pro pro' : NodeGrp) (id : ℕ) → retire pro id ≡ some pro' → Keeps pro pro'
unfolding retire
retire-Keeps pro pro' id e =
    let (used, rem, out) = >>=-eq-some (tailq_remove id pro.used_head) _ e in
    let len = tailq_remove-times id id pro.used_head rem in
    record {
      same = λ a. ground (
        arith,
        out,
        tailq_remove-times id a pro.used_head rem,
        times-append a pro.full_head (id ∷ []),
      );
      valid = λ v. ground (arith, out, len, length-append pro.full_head (id ∷ []));
    }

take_node-Keeps :
    (pro pro' : NodeGrp) (head : List ℕ) (st : ℕ) (q : QueuePool)
    → pro.free_head ≡ head
    → take_node pro head ≡ some (st, q, pro')
    → Keeps pro pro'
unfolding take_node put_node
take_node-Keeps pro pro' [] st q head e = record {
  same = λ a. ground (arith, e);
  valid = λ v. ground (arith, e, v.nfree_eq, v.small);
}
take_node-Keeps pro pro' (id ∷ free) st q head e =
    let (node, at_id, out) = >>=-eq-some (node_at pro id) _ e in
    record {
      same = λ a. ground (arith, out, head, times-append a pro.used_head (id ∷ []));
      valid = λ v.
          ground (arith, out, head, v.nfree_eq, v.small, length-append pro.used_head (id ∷ []));
    }

next_node-Keeps :
    (pro pro' : NodeGrp) (st : ℕ) (q : QueuePool)
    → next_node pro ≡ some (st, q, pro')
    → Keeps pro pro'
unfolding next_node
next_node-Keeps pro pro' st q e = take_node-Keeps pro pro' pro.free_head st q refl e

-- No outcome of `ztl_pro_grp_get_node` loses a node, lists one twice, or puts `nfree` out of step with
-- the free queue.
pub grp_get_node-Keeps :
    (qp : QueuePool) (pro pro' : NodeGrp) (st : ℕ) (q : QueuePool)
    → grp_get_node qp pro ≡ some (st, q, pro')
    → Keeps pro pro'
unfolding grp_get_node
grp_get_node-Keeps qp pro pro' st q e = elim (Option-cases qp.node) [
  | inl empty ↦ next_node-Keeps pro pro' st q (rw empty at (e))
  | inr (id, here) ↦
      let (node, at_id, out) = >>=-eq-some (node_at pro id) _ (rw here at (e)) in
      elim (Bool-cases (node.optimal_write_sec_left == 0)) [
        | inl y ↦
            let (pro1, gone, next) = >>=-eq-some (retire pro id) _ (rw y at (out)) in
            Keeps-trans pro pro1 pro' (retire-Keeps pro pro1 id gone)
              (next_node-Keeps pro1 pro' st q next)
        | inr n ↦
            let same : some (xztl_ok, (record qp { node = some id }), pro) ≡ some (st, q, pro') =
              rw n at (out) in
            record {
              same = λ a. ground (arith, same);
              valid = λ v. ground (arith, same, v.nfree_eq, v.small);
            }
      ]
]
