-- ===== src/Stats.antt =====
-- The counters of xztl/src/xztl-stats.c, each of 64 bits. Printing them is not modelled; an index past
-- its array is `none`.
pub mod Totals
use x_ztl.Common.{
  ℕ, ◌+◌, ◌*◌, ◌%◌, ◌^◌, Bool, true, false, ltb, ◌==◌, ◌||◌, ◌&&◌, if◌then◌else◌, List, [], ◌∷◌,
  Option, none, some,
}
use x_ztl.Consts.{zrocks_level_num}
use x_ztl.Media.Commands.{xztl_cmd_write, xztl_cmd_read, xztl_zone_append}

-- enum xztl_stats_io_types, as far as `xztl_stats_add_io` names it.
abbrev pub xztl_stats_read_bytes : ℕ
xztl_stats_read_bytes = 0

abbrev pub xztl_stats_append_bytes : ℕ
xztl_stats_append_bytes = 1

abbrev pub xztl_stats_read_mcmd : ℕ
xztl_stats_read_mcmd = 2

abbrev pub xztl_stats_append_mcmd : ℕ
xztl_stats_append_mcmd = 3

abbrev pub xztl_stats_io_types : ℕ
xztl_stats_io_types = 22

abbrev pub xztl_cmd_entry_max : ℕ
xztl_cmd_entry_max = 2

-- `xztl_stats.io` and `xztl_node_stats.data`
pub record StatsData : Type 0 where
  pub io : ℕ → ℕ
  pub node : ℕ → ℕ → ℕ

-- ATOMIC_ADD to a counter.
abbrev pub bump : (ℕ → ℕ) → ℕ → ℕ → ℕ → ℕ
bump f i val j = if i == j then (f j + val) % 2 ^ 64 else f j

-- `xztl_stats_init`
abbrev pub stats_init : StatsData
stats_init = record { io = λ t. 0; node = λ level t. 0 }

-- `xztl_stats_inc`
unfoldable pub stats_inc : StatsData → ℕ → ℕ → Option StatsData
stats_inc s type val =
    if ltb type xztl_stats_io_types then some (record s { io = bump s.io type val }) else none

-- `xztl_stats_node_inc`
unfoldable pub stats_node_inc : StatsData → ℕ → ℕ → ℕ → Option StatsData
stats_node_inc s level type val =
    if ltb level zrocks_level_num && ltb type xztl_cmd_entry_max
    then some (record s { node = λ l. if level == l then bump (s.node l) type val else s.node l })
    else none

-- `nsec` of `xztl_stats_add_io`, a `uint32_t`.
unfoldable pub sum_nsec : List ℕ → ℕ
sum_nsec [] = 0
sum_nsec (n ∷ ns) = (n + sum_nsec ns) % 2 ^ 32

-- `xztl_stats_add_io` of a command with these sector counts; the product is one of 32 bits.
unfoldable pub stats_add_io : StatsData → ℕ → ℕ → List ℕ → StatsData
unfolding sum_nsec
stats_add_io s nbytes opcode nsec =
    let bytes : ℕ = sum_nsec nsec * nbytes % 2 ^ 32 in
    if (opcode == xztl_zone_append) || (opcode == xztl_cmd_write)
    then record s { io = bump (bump s.io xztl_stats_append_mcmd 1) xztl_stats_append_bytes bytes }
    else if opcode == xztl_cmd_read
    then record s { io = bump (bump s.io xztl_stats_read_mcmd 1) xztl_stats_read_bytes bytes }
    else s

-- `xztl_stats_reset_io`
unfoldable pub stats_reset_io : StatsData → StatsData
stats_reset_io s = record s { io = λ t. if ltb t xztl_stats_io_types then 0 else s.io t }
