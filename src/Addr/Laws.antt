-- ===== src/Addr/Laws.antt =====
-- The words and the fields of the bit-field unions determine each other.
use x_ztl.Common.{ℕ, ◌^◌, ◌<◌, ◌≡◌, arith}
use x_ztl.Addr.{
  Maddr, maddr_word, maddr_fields, map_entry_word, map_entry_fields, zrocks_map_store,
  zrocks_map_word, zrocks_map_fields,
}

-- The fields fit their widths.
pub record IsMaddr (a : Maddr) : Type 0 where
  pub grp_in : a.grp < 2 ^ 5
  pub punit_in : a.punit < 2 ^ 3
  pub zone_in : a.zone < 2 ^ 20
  pub sect_in : a.sect < 2 ^ 36

-- The fields of a media address, where they fit their widths, come back from its word.
pub maddr_fields-word : (a : Maddr) → IsMaddr a → maddr_fields (maddr_word a) ≡ a
unfolding maddr_word maddr_fields
maddr_fields-word a v = ground arith

-- Every 64-bit word is that of the media address with its fields.
pub maddr_word-fields : (w : ℕ) → w < 2 ^ 64 → maddr_word (maddr_fields w) ≡ w
unfolding maddr_word maddr_fields
maddr_word-fields w h = omega arith

-- Every 64-bit word is that of the mapping entry with its fields.
pub map_entry_word-fields : (w : ℕ) → w < 2 ^ 64 → map_entry_word (map_entry_fields w) ≡ w
unfolding map_entry_word map_entry_fields
map_entry_word-fields w h = omega arith

-- The fields that a store leaves, each cut to its width, come back from the word of the mapping.
pub zrocks_map_fields-word :
    (n s k p : ℕ)
    → zrocks_map_fields (zrocks_map_word (zrocks_map_store n s k p)) ≡ zrocks_map_store n s k p
unfolding zrocks_map_word zrocks_map_fields zrocks_map_store
zrocks_map_fields-word n s k p = ground arith
