-- ===== src/Tests/Nodes.antt =====
-- The queues and resets of nodes, on a node that is full and one that is free.
use x_ztl.Common.{ℕ, ◌+◌, refl, [], ◌∷◌, some, tailq_remove}
use x_ztl.Data.{Node, NodeGrp, Group, node_used}
use x_ztl.Addr.{Maddr}
use x_ztl.Pro.{node_at, put_node, retire, take_node, next_node, grp_get_node}
use x_ztl.Pro.Queues.{Keeps, grp_get_node-Keeps}
use x_ztl.Mgmt.{ZoneOp}
use x_ztl.Tests.Provisioning.{node, grp}

-- The full node 0 is in use, and node 1 is free.
abbrev full_node : Node
full_node = record node { optimal_write_sec_left = 0 }

abbrev two : NodeGrp
two = record grp.pro { vnodes = full_node ∷ node ∷ []; free_head = 1 ∷ []; nfree = 1 }

abbrev two' : NodeGrp
two' = record two {
  vnodes = full_node ∷ (record node { status = node_used }) ∷ [];
  free_head = [];
  used_head = 1 ∷ [];
  full_head = 0 ∷ [];
  nfree = 0;
}

grp_get_node-Keeps_example : Keeps two two'
unfolding grp_get_node retire take_node next_node node_at put_node tailq_remove
grp_get_node-Keeps_example =
    grp_get_node-Keeps (record { node = some 0 }) two two' 0 (record { node = some 1 }) refl

-- A device that counts its commands and accepts them.
abbrev device : ℕ → ZoneOp → Maddr → ℕ × ℕ × ℕ
device w op a = (0, 0, w + 1)

abbrev full_grp : Group
full_grp = record grp { pro = record grp.pro { used_head = []; full_head = 0 ∷ [] } }

-- A device that refuses every command.
abbrev refuses : ℕ → ZoneOp → Maddr → ℕ × ℕ × ℕ
refuses w op a = (3, 0, w + 1)
