-- ===== src/Tests/Library.antt =====
-- The theorems on the memory pools, the start of the library and its interface, at concrete values.
use x_ztl.Common.{ℕ, ◌*◌, ◌≡◌, refl, if◌then◌else◌, List, [], ◌∷◌, some, arith}
use x_ztl.Data.{Node, Group, node_full, node_reset}
use x_ztl.Addr.{ZrocksMap}
use x_ztl.Io.Write.{Piece}
use x_ztl.Boot.{Part, io, attempt, app_global_init, ztl_init, init_ztl, xztl_init}
use x_ztl.Boot.Order.{same}
use x_ztl.Zrocks.Trim.{trims, trims-request, request}
use x_ztl.Pro.{node_at}
use x_ztl.Tests.Provisioning.{node, grp}

abbrev piece : ℕ → Piece
piece k = record { node_id = k; start = 10 * k; num = 5 }

-- A full node with 8 valid pieces, and their two maps.
abbrev full_node : Node
full_node = record node { status = node_full; nr_valid = 8 }

abbrev full_grp : Group
full_grp = record grp { pro = record grp.pro { vnodes = full_node ∷ [] } }

abbrev maps : List ZrocksMap
maps =
    record { node_id = 0; start = 0; num = 5; padding = 0 }
    ∷ record { node_id = 0; start = 5; num = 3; padding = 12 }
    ∷ []

full_grp-node : node_at full_grp.pro 0 ≡ some full_node
unfolding node_at
full_grp-node = refl

trims-request_example :
    (grp' : Group) × (trims full_grp (request 4 ∷ []) maps
      ≡ some (grp', request 4 ∷ request 0 ∷ []))
    × (node_at grp'.pro 0 ≡ some (record full_node { nr_valid = 0; status = node_reset }))
trims-request_example =
    trims-request maps full_grp (request 4 ∷ []) 0 full_node full_grp-node
      (refl, omega arith, (refl, omega arith, refl)) refl (omega arith) refl (omega arith)

-- The start where the I/O module fails.
abbrev io_fails : Part → ℕ
io_fails p = if same p io then 7 else 0

xztl_init-starts : (xztl_init 1 (λ p. 0)).ret ≡ 0
unfolding xztl_init init_ztl ztl_init app_global_init attempt
xztl_init-starts = refl
