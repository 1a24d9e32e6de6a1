-- ===== src/Addr.antt =====
-- The 64-bit words with bit-fields: `xztl_maddr` (xztl.h), `app_map_entry` (xztl-mods.h) and
-- `zrocks_map` (libzrocks.h), each as the record of its fields with the word that the union shows.
-- Bit-fields are laid out from the least significant bit, as the x86-64 ABI does.
pub mod Laws
use x_ztl.Common.{ℕ, ◌+◌, ◌*◌, ◌/◌, ◌%◌, ◌^◌}

-- grp : 5, punit : 3, zone : 20, sect : 36
pub record Maddr : Type 0 where
  pub grp : ℕ
  pub punit : ℕ
  pub zone : ℕ
  pub sect : ℕ

-- A store to a bit-field keeps the low bits.
abbrev pub to_sect : ℕ → ℕ
to_sect x = x % 2 ^ 36

abbrev pub to_zone : ℕ → ℕ
to_zone x = x % 2 ^ 20

abbrev pub to_grp : ℕ → ℕ
to_grp x = x % 2 ^ 5

unfoldable pub maddr_word : Maddr → ℕ
maddr_word a = a.grp + 2 ^ 5 * a.punit + 2 ^ 8 * a.zone + 2 ^ 28 * a.sect

unfoldable pub maddr_fields : ℕ → Maddr
maddr_fields w = record {
  grp = w % 2 ^ 5;
  punit = w / 2 ^ 5 % 2 ^ 3;
  zone = w / 2 ^ 8 % 2 ^ 20;
  sect = w / 2 ^ 28 % 2 ^ 36;
}

-- offset : 40, nsec : 23, multi : 1
pub record MapEntry : Type 0 where
  pub offset : ℕ
  pub nsec : ℕ
  pub multi : ℕ

unfoldable pub map_entry_fields : ℕ → MapEntry
map_entry_fields w = record {
  offset = w % 2 ^ 40;
  nsec = w / 2 ^ 40 % 2 ^ 23;
  multi = w / 2 ^ 63 % 2;
}

unfoldable pub map_entry_word : MapEntry → ℕ
map_entry_word e = e.offset + 2 ^ 40 * e.nsec + 2 ^ 63 * e.multi

-- node_id : 14, start : 22, num : 11, padding : 16, reserve : 1
pub record ZrocksMap : Type 0 where
  pub node_id : ℕ
  pub start : ℕ
  pub num : ℕ
  pub padding : ℕ

-- The fields as `zrocks_write` stores them, each cut to its width.
unfoldable pub zrocks_map_store : ℕ → ℕ → ℕ → ℕ → ZrocksMap
zrocks_map_store node_id start num padding = record {
  node_id = node_id % 2 ^ 14;
  start = start % 2 ^ 22;
  num = num % 2 ^ 11;
  padding = padding % 2 ^ 16;
}

unfoldable pub zrocks_map_word : ZrocksMap → ℕ
zrocks_map_word m = m.node_id + 2 ^ 14 * m.start + 2 ^ 36 * m.num + 2 ^ 47 * m.padding

unfoldable pub zrocks_map_fields : ℕ → ZrocksMap
zrocks_map_fields w =
    zrocks_map_store (w % 2 ^ 14) (w / 2 ^ 14 % 2 ^ 22) (w / 2 ^ 36 % 2 ^ 11) (w / 2 ^ 47 % 2 ^ 16)
