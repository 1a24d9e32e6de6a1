-- ===== src/Io/Read/Coverage.antt =====
-- A read copies every byte of the user's buffer from its place on the device.
use x_ztl.Common.{
  ℕ, zero, suc, ◌+◌, ◌-◌, ◌*◌, ◌/◌, ◌%◌, ◌^◌, ◌≤◌, ◌<◌, ◌≡◌, ◌≢◌, ◌⊎◌, inl, inr, refl, sym, ap, ◌∙◌,
  ◌&&◌, ◌==◌, ltb, leb, if◌then◌else◌, List, [], ◌∷◌, Option, none, some, arith, lt→ltb, ltb→lt,
  ltb→le, Bool-cases, ==→eq, ==→ne, eq→==, tests,
}
use x_ztl.Data.{Zone, add64}
use x_ztl.Addr.{to_sect}
use x_ztl.Io.Cmd.{Mcmd}
use x_ztl.Io.Read.{
  Cursor, div_up, start_read, read_mcmd, next_read, read_loop, to_int, read_commands,
}

-- The device byte that fills byte `t` of the user's buffer, by the first command that covers it.
pub source_of : List Mcmd → ℕ → Option ℕ
source_of [] t = none
source_of (m ∷ ms) t =
    if leb m.buf_off t && ltb t (m.buf_off + m.cpsize)
    then some (m.addr.sect * 4096 + m.sequence + (t - m.buf_off))
    else source_of ms t

-- Where byte `b` of a node lies in its zone, in sectors: pieces of 8 sectors go round 64 zones.
abbrev pub piece_sect : ℕ → ℕ
piece_sect b = b / 4096 / 512 * 8 + b / 4096 % 8

-- The device byte of byte `b` of a node whose zones are `zn`.
pub byte_at : (ℕ → Zone) → ℕ → ℕ
byte_at zn b = ((zn (b / 4096 / 8 % 64)).addr.sect + piece_sect b) * 4096 + b % 4096

-- The loop's variables at byte `b` of the node, with `left` bytes to read.
pub record At (b : ℕ) (c : Cursor) : Type 0 where
  pub misalign : c.misalign ≡ b % 4096
  pub zindex : c.zindex ≡ b / 4096 / 8 % 64
  pub nlevel : c.nlevel ≡ b / 4096 / 512
  pub zone_sec_off : c.zone_sec_off ≡ piece_sect b
  pub sec_left : c.sec_left ≡ div_up (c.left + c.misalign) 4096
  pub read_num :
      c.read_num ≡ (if ltb (8 - b / 4096 % 8) c.sec_left then 8 - b / 4096 % 8 else c.sec_left)
  pub small : b + c.left < 2 ^ 40
  pub rounds : c.total_cmd * 8 + b / 4096 % 8 + c.sec_left ≤ 8192

start_read-At :
    (offset size : ℕ)
    → offset + size < 2 ^ 40
    → offset / 4096 % 8 + div_up (size + offset % 4096) 4096 ≤ 8192
    → At offset (start_read offset size)
unfolding start_read
start_read-At offset size h r =
    let wrap : add64 size (offset % 4096) ≡ size + offset % 4096 = omega arith in
    let low : offset / 4096 % 512 % 8 ≡ offset / 4096 % 8 = omega arith in
    record {
      misalign = refl;
      zindex = omega arith;
      nlevel = omega arith;
      zone_sec_off = omega arith;
      sec_left = rw wrap refl;
      read_num = rw low refl;
      small = h;
      rounds = rw wrap (omega (arith, r));
    }

-- Within a piece of 8 sectors the bytes of a node are consecutive on the device.
byte_at-add :
    (zn : ℕ → Zone) (b d : ℕ)
    → b % 4096 + d < (8 - b / 4096 % 8) * 4096
    → byte_at zn (b + d) ≡ ((zn (b / 4096 / 8 % 64)).addr.sect + piece_sect b) * 4096 + b % 4096 + d
unfolding byte_at
byte_at-add zn b d h =
    let piece : (b + d) / 4096 / 8 % 64 ≡ b / 4096 / 8 % 64 = omega arith in rw piece (omega arith)

-- Byte `d` of piece `p` of a node.
pub byte_at-piece :
    (zn : ℕ → Zone) (p d : ℕ)
    → d < 32768
    → byte_at zn (p * 32768 + d) ≡ ((zn (p % 64)).addr.sect + 8 * (p / 64)) * 4096 + d
unfolding byte_at
byte_at-piece zn p d h =
    let piece : (p * 32768 + d) / 4096 / 8 % 64 ≡ p % 64 = omega arith in rw piece (omega arith)

-- A round either finishes the read, or stands at the first byte of the next piece.
record Round (b : ℕ) (z : Zone) (c : Cursor) : Type 0 where
  fits : b % 4096 + (read_mcmd z c).cpsize ≤ (8 - b / 4096 % 8) * 4096
  within : (read_mcmd z c).cpsize ≤ c.left
  shrinks : (next_read c (read_mcmd z c)).sec_left < c.sec_left
  on :
      ((next_read c (read_mcmd z c)).sec_left ≡ 0 × ((read_mcmd z c).cpsize ≡ c.left))
      ⊎ At (b + (read_mcmd z c).cpsize) (next_read c (read_mcmd z c))

div_up_lem : (x : ℕ) → (x ≤ div_up x 4096 * 4096) × (div_up x 4096 * 4096 < x + 4096)
div_up_lem x = ground arith

-- The level of the piece after sector `s`.
next_level :
    (s : ℕ)
    → s < 2 ^ 28
    → (if (s / 8 % 64 + 1) % 64 == 0 then to_int (s / 512 + 1) else s / 512) ≡ (s - s % 8 + 8) / 512
next_level s h = ground arith

next_num :
    (s n : ℕ)
    → s % 8 ≡ 0
    → (if ltb 8 n then 8 else n) ≡ (if ltb (8 - s % 8) n then 8 - s % 8 else n)
next_num s n h = rw h refl

div_up_rest :
    (left mis sec num : ℕ) {room : ℕ}
    → sec ≡ div_up (left + mis) 4096
    → num ≡ room
    → num * 4096 - mis ≤ left
    → mis ≤ num * 4096
    → sec - num ≡ div_up (left - (num * 4096 - mis) + 0) 4096
div_up_rest left mis sec num hs hn h hm = ground arith

next_read-At :
    (b : ℕ) (z : Zone) (c : Cursor)
    → At b c
    → 8 - b / 4096 % 8 < c.sec_left
    → c.read_num ≡ 8 - b / 4096 % 8
    → c.read_num * 4096 - c.misalign ≤ c.left
    → At
        (b + (c.read_num * 4096 - c.misalign))
        (next_read c (record (read_mcmd z c) { cpsize = c.read_num * 4096 - c.misalign }))
unfolding read_mcmd next_read
next_read-At b z c v h num most =
    let n : ℕ = c.read_num * 4096 - c.misalign in
    let mis = v.misalign in
    let zero_mis : (b + n) % 4096 ≡ 0 = omega arith in
    let sect : (b + n) / 4096 ≡ b / 4096 - b / 4096 % 8 + 8 = omega arith in
    let lev : (if (c.zindex + 1) % 64 == 0 then to_int (c.nlevel + 1) else c.nlevel)
        ≡ (b + n) / 4096 / 512 =
      rw (sect, v.zindex, v.nlevel) (next_level (b / 4096) (omega (arith, v.small))) in
    record {
      misalign = sym zero_mis;
      zindex = omega arith;
      nlevel = lev;
      zone_sec_off = rw lev (omega arith);
      sec_left =
          div_up_rest c.left c.misalign c.sec_left c.read_num v.sec_left num most (omega arith);
      read_num = next_num ((b + n) / 4096) _ (omega arith);
      small = omega arith;
      rounds = omega arith;
    }

Round-more : (b : ℕ) (z : Zone) (c : Cursor) → At b c → 8 - b / 4096 % 8 < c.sec_left → Round b z c
unfolding read_mcmd next_read
Round-more b z c v h =
    let room : ℕ = 8 - b / 4096 % 8 in
    let up = div_up_lem (c.left + c.misalign) in
    let num : c.read_num ≡ room = v.read_num ∙ ground arith in
    let most : c.read_num * 4096 - c.misalign ≤ c.left = omega (arith, v.misalign, v.sec_left) in
    let cp : (read_mcmd z c).cpsize ≡ c.read_num * 4096 - c.misalign = ground arith in
    record {
      fits = rw cp (omega arith);
      within = rw cp most;
      shrinks = omega arith;
      on = inr (rw cp (next_read-At b z c v h num most));
    }

Round-last :
    (b : ℕ) (z : Zone) (c : Cursor)
    → At b c
    → c.sec_left ≤ 8 - b / 4096 % 8
    → c.sec_left ≢ 0
    → Round b z c
unfolding read_mcmd next_read
Round-last b z c v h ne =
    let up = div_up_lem (c.left + c.misalign) in
    let num : c.read_num ≡ c.sec_left = v.read_num ∙ ground arith in
    let least : c.left ≤ c.read_num * 4096 - c.misalign = omega (arith, v.misalign, v.sec_left) in
    let cp : (read_mcmd z c).cpsize ≡ c.left = ground arith in
    record {
      fits = rw cp (omega arith);
      within = rw cp (omega arith);
      shrinks = omega arith;
      on = inl (omega arith, cp);
    }

Round_lem : (b : ℕ) (z : Zone) (c : Cursor) → At b c → c.sec_left ≢ 0 → Round b z c
Round_lem b z c v ne = elim (Bool-cases (ltb (8 - b / 4096 % 8) c.sec_left)) [
  | inl y ↦ Round-more b z c v (ltb→lt _ _ y)
  | inr y ↦ Round-last b z c v (ltb→le _ _ y) ne
]

no_bytes : (b : ℕ) (c : Cursor) → At b c → c.sec_left ≡ 0 → (d : ℕ) → d < c.left → ⊥
no_bytes b c v e d lt = omega (arith, v.sec_left, div_up_lem (c.left + c.misalign))

read_loop-stop :
    (zone : ℕ → Option Zone) (fuel : ℕ) (c : Cursor)
    → 0 < fuel
    → c.sec_left ≡ 0
    → read_loop zone fuel c ≡ some []
unfolding read_loop
read_loop-stop zone zero c h e = elim h [ ]
read_loop-stop zone (suc fuel) c h e = rw (eq→== c.sec_left 0 e) refl

source_of-here :
    (m : Mcmd) (ms : List Mcmd) (t : ℕ)
    → m.buf_off ≤ t
    → t < m.buf_off + m.cpsize
    → source_of (m ∷ ms) t ≡ some (m.addr.sect * 4096 + m.sequence + (t - m.buf_off))
unfolding source_of
source_of-here m ms t h k = ground arith

source_of-there :
    (m : Mcmd) (ms : List Mcmd) (t : ℕ)
    → m.buf_off + m.cpsize ≤ t
    → source_of (m ∷ ms) t ≡ source_of ms t
unfolding source_of
source_of-there m ms t h = ground arith

read_mcmd-fields :
    (z : Zone) (c : Cursor)
    → ((read_mcmd z c).buf_off ≡ c.bytes_off)
      × ((read_mcmd z c).sequence ≡ c.misalign)
      × ((read_mcmd z c).addr.sect ≡ to_sect (z.addr.sect + c.zone_sec_off))
unfolding read_mcmd
read_mcmd-fields z c = (refl, refl, refl)

-- The device byte of a command's byte `d`, where the sector fits its field.
mcmd_byte :
    (b d : ℕ) (z : Zone) (c : Cursor)
    → At b c
    → z.addr.sect + 2 ^ 23 ≤ 2 ^ 36
    → (read_mcmd z c).addr.sect * 4096
        + (read_mcmd z c).sequence
        + (c.bytes_off + d - (read_mcmd z c).buf_off)
      ≡ (z.addr.sect + piece_sect b) * 4096 + b % 4096 + d
mcmd_byte b d z c v low =
    let f = read_mcmd-fields z c in
    let fit : to_sect (z.addr.sect + c.zone_sec_off) ≡ z.addr.sect + piece_sect b = omega arith in
    rw (f.0, f.1, f.2, fit) (omega arith)

module _ (zone : ℕ → Option Zone) (zn : ℕ → Zone) (laid : (k : ℕ) → k < 64 → zone k ≡ some (zn k))
    (low : (k : ℕ) → k < 64 → (zn k).addr.sect + 2 ^ 23 ≤ 2 ^ 36) where
  -- The bytes of the user's buffer from `off` to `off + left` come from the node's byte `b` on.
  abbrev pub Covered : List Mcmd → ℕ → ℕ → ℕ → Type 0
  Covered ms b off left = (d : ℕ) → d < left → source_of ms (off + d) ≡ some (byte_at zn (b + d))

  Covered-cons :
      (b : ℕ) (c : Cursor) (ms : List Mcmd)
      → At b c
      → Round b (zn c.zindex) c
      → ((d : ℕ)
          → (read_mcmd (zn c.zindex) c).cpsize + d < c.left
          → source_of ms (c.bytes_off + (read_mcmd (zn c.zindex) c).cpsize + d)
            ≡ some (byte_at zn (b + (read_mcmd (zn c.zindex) c).cpsize + d)))
      → Covered (read_mcmd (zn c.zindex) c ∷ ms) b c.bytes_off c.left
  Covered-cons b c ms v r rest d h =
      let m : Mcmd = read_mcmd (zn c.zindex) c in
      let off : m.buf_off ≡ c.bytes_off = (read_mcmd-fields (zn c.zindex) c).0 in
      let z_lt : c.zindex < 64 = omega (arith, v.zindex) in
      elim (Bool-cases (ltb d m.cpsize)) [
        | inl inside ↦
            source_of-here m ms (c.bytes_off + d) (omega arith) (omega tests)
            ∙ ap some (
                mcmd_byte b d (zn c.zindex) c v (low c.zindex z_lt)
                ∙ (rw v.zindex (sym (byte_at-add zn b d (omega (tests, r.fits))))))
        | inr beyond ↦
            let e : m.cpsize + (d - m.cpsize) ≡ d = omega tests in
            source_of-there m ms (c.bytes_off + d) (omega tests)
            ∙ later m.cpsize (d - m.cpsize) d e rest h
      ]
    where
      later :
          (n k d : ℕ)
          → n + k ≡ d
          → ((d : ℕ)
              → n + d < c.left
              → source_of ms (c.bytes_off + n + d) ≡ some (byte_at zn (b + n + d)))
          → d < c.left
          → source_of ms (c.bytes_off + d) ≡ some (byte_at zn (b + d))
      later n k d e f h =
          let e1 : c.bytes_off + d ≡ c.bytes_off + n + k = omega arith in
          let e2 : b + d ≡ b + n + k = omega arith in rw (e1, e2) (f k (omega arith))

  next_read-fields :
      (z : Zone) (c : Cursor)
      → ((next_read c (read_mcmd z c)).bytes_off ≡ c.bytes_off + (read_mcmd z c).cpsize)
        × ((next_read c (read_mcmd z c)).left ≡ c.left - (read_mcmd z c).cpsize)
  unfolding next_read
  next_read-fields z c = (refl, refl)

  -- The commands of the rounds after this one.
  abbrev Rest : ℕ → ℕ → Cursor → Type 0
  Rest fuel b c =
      let n = (read_mcmd (zn c.zindex) c).cpsize in
      (ms : List Mcmd) × (read_loop zone fuel (next_read c (read_mcmd (zn c.zindex) c)) ≡ some ms)
      × ((d : ℕ)
          → n + d < c.left
          → source_of ms (c.bytes_off + n + d) ≡ some (byte_at zn (b + n + d)))

  read_loop-Covered :
      (fuel b : ℕ) (c : Cursor)
      → At b c
      → c.sec_left < fuel
      → (ms : List Mcmd) × (read_loop zone fuel c ≡ some ms) × Covered ms b c.bytes_off c.left
  unfolding read_loop
  read_loop-Covered zero b c v h = elim h [ ]
  read_loop-Covered (suc fuel) b c v h = elim (Bool-cases (c.sec_left == 0)) [
    | inl stop ↦ ([], rw stop refl, λ d lt. absurd (no_bytes b c v (==→eq c.sec_left 0 stop) d lt))
    | inr more ↦
        let m : Mcmd = read_mcmd (zn c.zindex) c in
        let r = Round_lem b (zn c.zindex) c v (==→ne c.sec_left 0 more) in
        let f = next_read-fields (zn c.zindex) c in
        let rest : Rest fuel b c = elim r.on [
          | inl (e, all) ↦ (
            [],
            read_loop-stop zone fuel (next_read c m) (omega (tests, more)) e,
            λ d lt. absurd (omega arith),
          )
          | inr at ↦
              let (ms, run, cover) =
                read_loop-Covered fuel (b + m.cpsize) (next_read c m) at
                  (omega (arith, r.shrinks)) in
              (ms, run, λ d lt. rw f.0 at (cover d (omega (arith, f.1))))
        ] in
        (
          m ∷ rest.0,
          rw
              (
                more,
                lt→ltb c.total_cmd 1024 (omega (tests, v.rounds)),
                laid c.zindex (omega (arith, v.zindex)),
                rest.1,
              )
              refl,
          Covered-cons b c rest.0 v r rest.2,
        )
  ]

  Covered-zero :
      (ms : List Mcmd) (b size : ℕ)
      → Covered ms b 0 size
      → (d : ℕ) → d < size
      → source_of ms d ≡ some (byte_at zn (b + d))
  Covered-zero ms b size cover d lt = let e : 0 + d ≡ d = omega arith in rw e at (cover d lt)

  -- A read of `size` bytes at byte `offset` of a node, of at most 8192 sectors with those before it
  -- in its first piece, makes its commands without fault, and byte `d` of the user's buffer is
  -- filled from the device byte that holds byte `offset + d` of the node.
  pub read_commands-source :
      (offset size : ℕ)
      → offset + size < 2 ^ 40
      → offset / 4096 % 8 + div_up (size + offset % 4096) 4096 ≤ 8192
      → (ms : List Mcmd) × (read_commands zone offset size ≡ some ms)
        × ((d : ℕ) → d < size → source_of ms d ≡ some (byte_at zn (offset + d)))
  unfolding read_commands
  read_commands-source offset size h r =
      let c : Cursor = start_read offset size in
      let v = start_read-At offset size h r in
      let (ms, run, cover) = read_loop-Covered (c.sec_left + 1) offset c v (omega arith) in
      (ms, run, λ d lt. Covered-zero ms offset size cover d lt)
