-- ===== src/Media/Options/Parsed.antt =====
-- The names of devices that are read back as what they say.
use x_ztl.Common.{
  ℕ, ◌+◌, ◌^◌, ◌<◌, ◌≤◌, ◌≡◌, refl, ap, ◌∙◌, List, [], ◌∷◌, ◌++◌, some, length, get_elem?, arith,
  length-append, le→ltb,
}
use x_ztl.Common.Int.{ℤ, pos}
use x_ztl.Consts.{xztl_ok}
use x_ztl.Media.Options.{
  no_options, text, be_str, char_at, is_space, scan_parts, scan_literal, scan_after, decimal,
  scan_int, not_digit, scan_nsid, path_backend, path_type, parse_path, parse_pci, opt_parse,
  opt_dev_spdk, opt_be_spdk,
}
use x_ztl.Media.Options.Scan.{
  NoneOf, is_mark, scan_word-all, scan_parts-mark, scan_parts-all, be_str-IsNamed, char_at-append,
  scan_int_digits,
}

-- A name of the right length that begins with `/` is read as a path.
opt_parse-slash :
    (s : List ℕ)
    → 10 ≤ length s
    → length s ≤ 64
    → char_at s 0 ≡ b'/'
    → opt_parse s no_options ≡ some (parse_path s no_options)
unfolding opt_parse
opt_parse-slash s long short slash =
    let a = le→ltb (length s) 10 long in
    let b = le→ltb 64 (length s) short in rw (opt_parse, a, b, slash) refl

parse_path-parts :
    (s d r : List ℕ) (t be : ℕ)
    → scan_parts s ≡ (d, r)
    → path_type (char_at s 6) ≡ some t
    → path_backend r ≡ some be
    → parse_path s no_options
      ≡ (xztl_ok, record { opt_dev_type = t; opt_dev_name = d; opt_async = be; opt_nsid = pos 0 })
unfolding parse_path
parse_path-parts s d r t be parts type backend =
    let name : (scan_parts s).0 ≡ d = ap (λ (x : List ℕ × List ℕ). x.0) parts in
    let rest : (scan_parts s).1 ≡ r = ap (λ (x : List ℕ × List ℕ). x.1) parts in
    rw (parse_path, type, rest, backend, name) refl

-- The path of a device, of at least ten characters, is read with the thread pool behind it, and the path
-- with `?be:` and the name of a back end with that one; the type of the device is that of the seventh character.
pub opt_parse-path :
    (p : List ℕ) (t i : ℕ) (b : List ℕ)
    → NoneOf is_mark p
    → char_at p 0 ≡ b'/'
    → path_type (char_at p 6) ≡ some t
    → get_elem? be_str i ≡ some b
    → 10 ≤ length p
    → length p + length b + 4 ≤ 64
    → (opt_parse p no_options
        ≡ some (
          xztl_ok,
          record { opt_dev_type = t; opt_dev_name = p; opt_async = 1; opt_nsid = pos 0 },
        ))
      × (opt_parse (p ++ (text "?be:" ++ b)) no_options
          ≡ some (
            xztl_ok,
            record { opt_dev_type = t; opt_dev_name = p; opt_async = i + 1; opt_nsid = pos 0 },
          ))
unfolding path_backend
opt_parse-path p t i b path slash type named long short =
    let (backend, word, some_name) = be_str-IsNamed i named in
    let s : List ℕ = text "?be:" ++ b in
    let len = length-append p s in
    let alone = scan_parts-all p path (omega (arith, short)) in
    let parts =
      scan_parts-mark p (text "be:" ++ b) path word (omega (arith, short))
        (omega (arith, short, long)) in
    let first = char_at-append p s 0 (omega (arith, long)) ∙ slash in
    let seventh = char_at-append p s 6 (omega (arith, long)) in
    (
      opt_parse-slash p long (omega (arith, short)) slash
          ∙ ap some (parse_path-parts p p [] t 1 alone type refl),
      opt_parse-slash (p ++ s) (omega (arith, len, long)) (omega (arith, len, short)) first
          ∙ ap some
              (parse_path-parts (p ++ s) p s t (i + 1) parts (ap path_type seventh ∙ type) backend),
    )

digits_no_spaces : (ds : List ℕ) → NoneOf not_digit ds → NoneOf is_space ds
digits_no_spaces [] h = tt
digits_no_spaces (d ∷ ds) (digit, h) = (ground (arith, digit), digits_no_spaces ds h)

scan_after_pci :
    (a : List ℕ)
    → NoneOf is_space a
    → length a ≤ 64
    → scan_after (text "pci:") (text "pci:" ++ a) ≡ a
unfolding scan_after scan_literal
scan_after_pci a h len = scan_word-all a h len

scan_nsid_digits :
    (ds : List ℕ) {n : ℤ}
    → scan_int (pos 0) ds ≡ some n
    → scan_nsid (pos 0) (text "?nsid:" ++ ds) ≡ some n
unfolding scan_nsid scan_literal
scan_nsid_digits ds h = h

parse_pci-parts :
    (s d r a : List ℕ) (n : ℤ)
    → scan_parts s ≡ (d, r)
    → scan_after (text "pci:") d ≡ a
    → scan_nsid (pos 0) r ≡ some n
    → parse_pci s no_options
      ≡ some (
        xztl_ok,
        record {
          opt_dev_type = opt_dev_spdk;
          opt_dev_name = a;
          opt_async = opt_be_spdk;
          opt_nsid = n;
        },
      )
unfolding parse_pci
parse_pci-parts s d r a n parts address nsid =
    let name : (scan_parts s).0 ≡ d = ap (λ (x : List ℕ × List ℕ). x.0) parts in
    let rest : (scan_parts s).1 ≡ r = ap (λ (x : List ℕ × List ℕ). x.1) parts in
    rw (parse_pci, rest, nsid, name, address) refl

-- `pci:`, an address with no `?` and no spaces, `?nsid:` and the digits of a number that fits an `int`
-- are read as the PCI device of that address with that namespace.
pub opt_parse-pci :
    (a ds : List ℕ)
    → NoneOf is_mark a
    → NoneOf is_space a
    → NoneOf not_digit ds
    → 0 < length ds
    → length a + length ds + 10 ≤ 64
    → decimal 0 ds < 2 ^ 31
    → opt_parse ((text "pci:" ++ a) ++ (text "?nsid:" ++ ds)) no_options
      ≡ some (
        xztl_ok,
        record {
          opt_dev_type = opt_dev_spdk;
          opt_dev_name = a;
          opt_async = opt_be_spdk;
          opt_nsid = pos (decimal 0 ds);
        },
      )
unfolding opt_parse
opt_parse-pci a ds mark word digits some_digits short fits =
    let p : List ℕ = text "pci:" ++ a in
    let s : List ℕ = text "?nsid:" ++ ds in
    let len = length-append p s in
    let path : NoneOf is_mark p = (refl, (refl, (refl, (refl, mark)))) in
    let rest : NoneOf is_space (text "nsid:" ++ ds) =
      (refl, (refl, (refl, (refl, (refl, digits_no_spaces ds digits))))) in
    let parts =
      scan_parts-mark p (text "nsid:" ++ ds) path rest (omega (arith, short))
        (omega (arith, short)) in
    let address = scan_after_pci a word (omega (arith, short)) in
    let number =
      scan_nsid_digits ds
        (scan_int_digits ds (pos 0) digits some_digits (omega (arith, short)) fits) in
    let long = le→ltb (length (p ++ s)) 10 (omega (arith, len, some_digits)) in
    let within = le→ltb 64 (length (p ++ s)) (omega (arith, len, short)) in
    rw (opt_parse, long, within)
      (parse_pci-parts (p ++ s) p s a (pos (decimal 0 ds)) parts address number)
