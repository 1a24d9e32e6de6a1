-- ===== src/Tests/Provisioning.antt =====
-- A group with one node of 64 zones that holds 100 pieces, and the theorems on it.
use x_ztl.Common.{
  ℕ, ◌+◌, ◌-◌, ◌*◌, ◌/◌, ◌%◌, ◌≡◌, refl, some, List, [], ◌∷◌, arith, gen, get_elem?-gen_zero,
}
use x_ztl.Common.Int.{pos}
use x_ztl.Data.{Zone, Node, Group, ZmdEntry, Slot, zone_iopen, node_used}
use x_ztl.Io.Write.Address.{IsNode, InStep, level}
use x_ztl.Io.Read.Coverage.{byte_at}
use x_ztl.Io.RoundTrip.{
  read_byte, write_byte, read_byte_lem, write_byte_lem, read_byte-write_byte, grp_get-InStep,
}
use x_ztl.Pro.{node_at, zone_of, grp_get}

abbrev pub zn : ℕ → Zone
zn k = record {
  addr = record { grp = 0; punit = 0; zone = k; sect = k * 524288 };
  zmd_entry = some k;
  capacity = 524288;
  state = zone_iopen;
}

abbrev pub ent : ℕ → ℕ
ent k = k

abbrev pub entry : ℕ → ZmdEntry
entry k = record {
  flags = 8;
  level = 0;
  addr = (zn k).addr;
  wptr = level zn 100 k;
  wptr_inflight = level zn 100 k;
}

abbrev pub node : Node
node = record {
  id = 0;
  vzones = gen (λ k. k) 0 64;
  optimal_write_sec_left = 1948;
  optimal_write_sec_used = 100;
  nr_finish_err = 0;
  nr_reset_err = 0;
  nr_valid = 100;
  status = node_used;
  level = pos 1;
}

abbrev pub grp : Group
grp = record {
  id = 0;
  active = 1;
  busy = 0;
  entries = 64;
  tbl = gen entry 0 64;
  report = [];
  pro = record {
    vnodes = node ∷ [];
    vzones = gen zn 0 64;
    nfree = 0;
    nzones = 64;
    nnodes = 1;
    free_head = [];
    used_head = 0 ∷ [];
    full_head = [];
  };
}

pub node-IsNode : IsNode grp 0 node zn ent
unfolding node_at zone_of
node-IsNode = record {
  found = refl;
  laid = λ k h. (rw (get_elem?-gen_zero (λ j. j) 64 k h, get_elem?-gen_zero zn 64 k h) refl, refl);
  apart = λ j k hj hk e. e;
  low = λ k h. omega arith;
}

grp-InStep : InStep grp.tbl zn ent 100
grp-InStep k h = (entry k, get_elem?-gen_zero entry 64 k h, refl)

read_byte_lem_example :
    read_byte (zone_of grp.pro node) 5000000 100000 77777 ≡ some (byte_at zn 5077777)
read_byte_lem_example =
    read_byte_lem grp 0 node zn ent node-IsNode 5000000 100000 77777 (omega arith) (omega arith)
      (omega arith)

write_byte_lem_example :
    write_byte grp 0 300 100 4096 65536 170 9 ≡ some (byte_at zn (270 * 32768 + 9))
write_byte_lem_example =
    write_byte_lem grp 0 node zn ent node-IsNode 300 100 4096 65536 170 9 (omega arith)
      (omega arith) grp-InStep (omega arith) (omega arith) (omega arith)

grp_get-InStep_example :
    (slots : List Slot) × (grp' : Group) × (grp_get grp 300 0 100 ≡ some (slots, grp'))
    × InStep grp'.tbl zn ent 400
grp_get-InStep_example =
    grp_get-InStep grp 0 node zn ent node-IsNode 300 100 (omega arith) (omega arith) grp-InStep

read_byte-write_byte_example :
    read_byte (zone_of grp.pro node) 5000000 100000 77777
    ≡ write_byte grp 0 300 100 4096 65536 (5077777 / 32768 - 100) (5077777 % 32768)
read_byte-write_byte_example =
    read_byte-write_byte grp 0 node zn ent node-IsNode 300 100 4096 65536 5000000 100000 77777
      (omega arith) (omega arith) grp-InStep (omega arith) (omega arith) (omega arith) (omega arith)
      (omega arith) (omega arith)
