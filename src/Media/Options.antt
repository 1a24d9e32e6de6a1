-- ===== src/Media/Options.antt =====
-- The options of the device (xztl/src/ztl-media.c): `znd_opt_parse`, `znd_opt_assign` and
-- `znd_media_set_ctx_iodepth`. A C string is the list of its bytes before the 0. An outer `none` is a
-- number that does not fit an `int`, which sscanf leaves undefined.
pub mod Scan
pub mod Parsed
pub mod Known
use Prim.Native.Char.{code}
use Prim.Native.String.{String}
use x_ztl.Common.{
  ℕ, zero, suc, ◌+◌, ◌-◌, ◌*◌, ◌%◌, ◌^◌, Bool, true, false, ◌||◌, ◌&&◌, ltb, leb, ◌==◌,
  if◌then◌else◌, List, [], ◌∷◌, Option, none, some, ◌>>=◌, length, get_elem?,
}
use x_ztl.Common.Int.{ℤ, pos, negsuc}
use x_ztl.Consts.{xztl_ok, xztl_read_rs_num, xztl_ctx_nvme_depth, xztl_ctx_nvme_libaio_depth}

abbrev pub znd_media_nodevice : ℕ
znd_media_nodevice = 0x1

abbrev pub max_str_len : ℕ
max_str_len = 64

abbrev pub min_opt_param_len : ℕ
min_opt_param_len = 10

-- enum znd_device_type
abbrev pub opt_dev_blk : ℕ
opt_dev_blk = 1

abbrev pub opt_dev_char : ℕ
opt_dev_char = 2

abbrev pub opt_dev_spdk : ℕ
opt_dev_spdk = 3

-- enum znd_be_type
abbrev pub opt_be_thrpool : ℕ
opt_be_thrpool = 1

abbrev pub opt_be_libaio : ℕ
opt_be_libaio = 2

abbrev pub opt_be_spdk : ℕ
opt_be_spdk = 5

-- struct znd_opt_info
pub record OptInfo : Type 0 where
  pub opt_dev_type : ℕ
  pub opt_dev_name : List ℕ
  pub opt_async : ℕ
  pub opt_nsid : ℤ

-- What `memset` leaves.
abbrev pub no_options : OptInfo
no_options = record { opt_dev_type = 0; opt_dev_name = []; opt_async = 0; opt_nsid = pos 0 }

-- The bytes of a text.
abbrev pub text : String → List ℕ
text String.[] = []
text (String.◌∷◌ c s) = code c ∷ text s

-- The names of the back ends in `be_str`, from OPT_BE_THRPOOL to OPT_BE_IOURING_CMD.
abbrev pub be_str : List (List ℕ)
be_str = text "thrpool" ∷ text "libaio" ∷ text "io_uring" ∷ text "io_uring_cmd" ∷ []

-- `s[i]`; at the end of the string it is 0.
abbrev pub char_at : List ℕ → ℕ → ℕ
char_at s i = elim (get_elem? s i) [ none ↦ 0 | some c ↦ c ]

-- `!strcmp(s, t)`
unfoldable pub same_text : List ℕ → List ℕ → Bool
same_text [] [] = true
same_text [] (y ∷ ys) = false
same_text (x ∷ xs) [] = false
same_text (x ∷ xs) (y ∷ ys) = let rest = same_text xs ys in if x == y then rest else false

-- `isspace`
abbrev pub is_space : ℕ → Bool
is_space c = (c == 32) || (leb 9 c && leb c 13)

-- `isdigit`
abbrev pub is_digit : ℕ → Bool
is_digit c = leb 48 c && leb c 57

-- A conversion of at most so many characters that stops at the first for which `stop` holds: what it
-- takes, and what is left.
unfoldable pub scan_while : ℕ → (ℕ → Bool) → List ℕ → List ℕ × List ℕ
scan_while zero stop s = ([], s)
scan_while (suc width) stop [] = ([], [])
scan_while (suc width) stop (c ∷ s) =
    let (taken, left) = scan_while width stop s in if stop c then ([], c ∷ s) else (c ∷ taken, left)

unfoldable pub skip_spaces : List ℕ → List ℕ
skip_spaces [] = []
skip_spaces (c ∷ s) = let rest = skip_spaces s in if is_space c then rest else c ∷ s

-- `%64s`; where it finds nothing, the target keeps its empty string.
unfoldable pub scan_word : List ℕ → List ℕ
unfolding scan_while skip_spaces
scan_word s = (scan_while 64 is_space (skip_spaces s)).0

-- `sscanf(dev_name, "%64[^?]%64s", dev_info, be_info)`, where the first character is not `?`.
unfoldable pub scan_parts : List ℕ → List ℕ × List ℕ
unfolding scan_while scan_word
scan_parts s = let (dev_info, rest) = scan_while 64 (λ c. c == b'?') s in (dev_info, scan_word rest)

-- Literal characters of a format: what follows them.
unfoldable pub scan_literal : List ℕ → List ℕ → Option (List ℕ)
scan_literal [] s = some s
scan_literal (c ∷ cs) [] = none
scan_literal (c ∷ cs) (d ∷ s) = let rest = scan_literal cs s in if c == d then rest else none

-- A literal and a word; without the literal the target keeps its empty string.
unfoldable pub scan_after : List ℕ → List ℕ → List ℕ
unfolding scan_literal scan_word
scan_after format s = elim (scan_literal format s) [ none ↦ [] | some rest ↦ scan_word rest ]

unfoldable pub decimal : ℕ → List ℕ → ℕ
decimal n [] = n
decimal n (c ∷ s) = decimal (n * 10 + (c - 48)) s

-- The value of a number with its sign, if it fits an `int`.
unfoldable pub int_value : Bool → ℕ → Option ℤ
int_value true zero = some (pos 0)
int_value true (suc n) = if ltb n (2 ^ 31) then some (negsuc n) else none
int_value false n = if ltb n (2 ^ 31) then some (pos n) else none

-- The target's old value where there is no digit.
unfoldable pub read_digits : Bool → ℤ → List ℕ → Option ℤ
unfolding decimal int_value
read_digits negative old [] = some old
read_digits negative old (d ∷ ds) = int_value negative (decimal 0 (d ∷ ds))

abbrev pub not_digit : ℕ → Bool
not_digit c = if is_digit c then false else true

unfoldable pub scan_digits : Bool → ℕ → ℤ → List ℕ → Option ℤ
scan_digits negative width old s = read_digits negative old (scan_while width not_digit s).0

-- `%64d`, where the text has no spaces.
unfoldable pub scan_int : ℤ → List ℕ → Option ℤ
scan_int old [] = some old
scan_int old (c ∷ s) =
    if c == b'-'
    then scan_digits true 63 old s
    else if c == b'+'
    then scan_digits false 63 old s
    else scan_digits false 64 old (c ∷ s)

-- `sscanf(be_info, "?nsid:%64d", &opt_nsid)`
unfoldable pub scan_nsid : ℤ → List ℕ → Option ℤ
unfolding scan_literal scan_int
scan_nsid old s = elim (scan_literal (text "?nsid:") s) [
  | none ↦ some old
  | some rest ↦ scan_int old rest
]

-- The loop over the back ends, from `i` on.
unfoldable pub find_backend : ℕ → List (List ℕ) → List ℕ → Option ℕ
unfolding same_text
find_backend i [] name = none
find_backend i (b ∷ bs) name =
    let rest = find_backend (i + 1) bs name in if same_text name b then some i else rest

-- The back end of a device with a path: the first one where nothing follows the path.
unfoldable pub path_backend : List ℕ → Option ℕ
unfolding find_backend scan_after
path_backend [] = some opt_be_thrpool
path_backend (c ∷ s) = find_backend opt_be_thrpool be_str (scan_after (text "?be:") (c ∷ s))

-- The type of a device with a path, by the seventh character.
unfoldable pub path_type : ℕ → Option ℕ
path_type c = if c == b'g' then some opt_dev_char else if c == b'v' then some opt_dev_blk else none

-- The branch of a name that begins with `/`.
unfoldable pub parse_path : List ℕ → OptInfo → ℕ × OptInfo
parse_path dev_name info =
    let (dev_info, be_info) = scan_parts dev_name in
    let named = record info { opt_dev_name = dev_info } in
    elim (path_type (char_at dev_name 6)) [
      | none ↦ (znd_media_nodevice, named)
      | some t ↦ elim (path_backend be_info) [
        | none ↦ (znd_media_nodevice, record named { opt_dev_type = t })
        | some be ↦ (xztl_ok, record named { opt_dev_type = t; opt_async = be })
      ]
    ]

-- The branch of a name that begins with `p`; where `pci:` does not follow, the name stays empty.
unfoldable pub parse_pci : List ℕ → OptInfo → Option (ℕ × OptInfo)
parse_pci dev_name info = do
  let (dev_info, be_info) = scan_parts dev_name
  nsid ← scan_nsid info.opt_nsid be_info
  some (
    xztl_ok,
    record info {
      opt_dev_type = opt_dev_spdk;
      opt_async = opt_be_spdk;
      opt_dev_name = scan_after (text "pci:") dev_info;
      opt_nsid = nsid;
    },
  )

-- `znd_opt_parse`
unfoldable pub opt_parse : List ℕ → OptInfo → Option (ℕ × OptInfo)
opt_parse dev_name info =
    if ltb (length dev_name) min_opt_param_len || ltb max_str_len (length dev_name)
    then some (znd_media_nodevice, info)
    else if char_at dev_name 0 == b'/'
    then some (parse_path dev_name info)
    else if char_at dev_name 0 == b'p'
    then parse_pci dev_name info
    else some (znd_media_nodevice, info)

-- `is_blk_thrpool`
unfoldable pub is_blk_thrpool : OptInfo → Bool
is_blk_thrpool info = (info.opt_dev_type == opt_dev_blk) && (info.opt_async == opt_be_thrpool)

-- `struct xnvme_opts`, as far as it is set; the `async` is an index into `be_str`, and `be_spdk` is
-- whether `be` is "spdk".
pub record XnvmeOpts : Type 0 where
  pub async : ℕ
  pub direct : ℕ
  pub be_spdk : Bool
  pub nsid : ℤ
  pub rdwr : ℕ
  pub rdonly : ℕ
  pub wronly : ℕ

-- `znd_opt_assign`
unfoldable pub opt_assign : XnvmeOpts → XnvmeOpts → OptInfo → XnvmeOpts × XnvmeOpts
unfolding is_blk_thrpool
opt_assign opts opts_read info =
    let first = record opts { async = info.opt_async; direct = 1 } in
    if info.opt_async == opt_be_spdk
    then (record first { be_spdk = true; nsid = info.opt_nsid }, opts_read)
    else if is_blk_thrpool info
    then (
      record first { rdwr = 0; wronly = 1 },
      record opts_read { async = info.opt_async; direct = 0; rdwr = 0; rdonly = 1 },
    )
    else (first, opts_read)

-- `cpu_num - 2 > 0 ? (cpu_num - 2) : 1`, a subtraction of 32 bits.
unfoldable pub by_processors : ℕ → ℕ
by_processors cpu_num =
    let rest : ℕ = (cpu_num + 2 ^ 32 - 2) % 2 ^ 32 in if ltb 0 rest then rest else 1

-- `read_ctx_num` of `znd_media_set_ctx_iodepth`.
unfoldable pub read_ctx_num : ℕ → ℕ → ℕ
unfolding by_processors
read_ctx_num opt_async cpu_num =
    if (opt_async == opt_be_spdk) || (opt_async == opt_be_libaio)
    then by_processors cpu_num
    else xztl_read_rs_num

-- Its `io_depth`.
unfoldable pub io_depth : ℕ → ℕ
io_depth opt_async =
    if opt_async == opt_be_libaio then xztl_ctx_nvme_libaio_depth else xztl_ctx_nvme_depth
