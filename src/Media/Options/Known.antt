-- ===== src/Media/Options/Known.antt =====
-- The devices and the back ends that a name can be read as.
use x_ztl.Common.{
  ℕ, ◌+◌, ◌^◌, ◌<◌, ◌≤◌, ◌≡◌, ap, sym, ◌∙◌, ◌≢◌, ◌↔◌, ◌⊎◌, inl, inr, ◌==◌, ltb, ◌||◌, List, [], ◌∷◌,
  Option, some, >>=-eq-some, length, arith, Bool-cases, Option-cases,
}
use x_ztl.Common.Int.{pos}
use x_ztl.Consts.{xztl_ok}
use x_ztl.Media.Options.{
  OptInfo, no_options, text, be_str, char_at, same_text, scan_parts, scan_after, scan_nsid,
  find_backend, path_backend, path_type, parse_path, parse_pci, opt_parse, opt_dev_blk,
  opt_dev_char, opt_dev_spdk, opt_be_spdk, opt_be_libaio, by_processors, read_ctx_num,
}

-- What a successful parse gives: a device with a path and one of its four back ends, or a PCI device.
pub record IsKnown (o : OptInfo) : Type 0 where
  pub known :
      (((o.opt_dev_type ≡ opt_dev_blk) ⊎ (o.opt_dev_type ≡ opt_dev_char))
        × (0 < o.opt_async)
        × (o.opt_async ≤ 4))
      ⊎ ((o.opt_dev_type ≡ opt_dev_spdk) × (o.opt_async ≡ opt_be_spdk))

path_type_known : (c : ℕ) {t : ℕ} → path_type c ≡ some t → (t ≡ opt_dev_blk) ⊎ (t ≡ opt_dev_char)
unfolding path_type
path_type_known c e = elim (Bool-cases (c == b'g')) [
  | inl char ↦ inr (ground (arith, char))
  | inr other ↦ elim (Bool-cases (c == b'v')) [
    | inl block ↦ inl (ground (arith, other, block))
    | inr neither ↦ absurd (ground (arith, other, neither))
  ]
]

find_backend_bounds :
    (i : ℕ) (bs : List (List ℕ)) (name : List ℕ) {be : ℕ}
    → find_backend i bs name ≡ some be
    → (i ≤ be) × (be < i + length bs)
unfolding find_backend
find_backend_bounds i [] name e = absurd (cc)
find_backend_bounds i (b ∷ bs) name {be = be} e = elim (Bool-cases (same_text name b)) [
  | inl here ↦ let at_i : i ≡ be = cc (rw (find_backend, here) at e) in omega (arith, at_i)
  | inr further ↦
      omega (arith, find_backend_bounds (i + 1) bs name (rw (find_backend, further) at e))
]

path_backend_bounds : (s : List ℕ) {be : ℕ} → path_backend s ≡ some be → (0 < be) × (be ≤ 4)
unfolding path_backend
path_backend_bounds [] {be = be} e = let first : 1 ≡ be = cc in omega (arith, first)
path_backend_bounds (c ∷ s) e =
    omega (arith, find_backend_bounds 1 be_str (scan_after (text "?be:") (c ∷ s)) e)

parse_path-IsKnown : (s : List ℕ) {o : OptInfo} → parse_path s no_options ≡ (xztl_ok, o) → IsKnown o
unfolding parse_path
parse_path-IsKnown s {o = o} e = elim (Option-cases (path_type (char_at s 6))) [
  | inl other ↦ absurd (cc (rw (parse_path, other) at e))
  | inr (t, type) ↦ elim (Option-cases (path_backend (scan_parts s).1)) [
    | inl unknown ↦ absurd (cc (rw (parse_path, type, unknown) at e))
    | inr (be, backend) ↦
        let read = rw (parse_path, type, backend) at e in
        let device : o.opt_dev_type ≡ t = sym (ap (λ (r : ℕ × OptInfo). r.1.opt_dev_type) read) in
        let async : o.opt_async ≡ be = sym (ap (λ (r : ℕ × OptInfo). r.1.opt_async) read) in
        let (some_be, few) = path_backend_bounds (scan_parts s).1 backend in
        record {
          known = inl (
            elim (path_type_known (char_at s 6) type) [
              | inl block ↦ inl (device ∙ block)
              | inr char ↦ inr (device ∙ char)
            ],
            omega (arith, async, some_be),
            omega (arith, async, few),
          );
        }
  ]
]

record_of :
    {a b : OptInfo} → ◌≡◌ {A = Option (ℕ × OptInfo)} (some (xztl_ok, a)) (some (xztl_ok, b)) → a ≡ b
record_of e = cc (e)

parse_pci-IsKnown :
    (s : List ℕ) {o : OptInfo} → parse_pci s no_options ≡ some (xztl_ok, o) → IsKnown o
unfolding parse_pci
parse_pci-IsKnown s {o = o} e =
    let (nsid, read, made) = >>=-eq-some (scan_nsid (pos 0) (scan_parts s).1) _ e in
    let same = record_of (made) in
    record {
      known = inr (
        sym (ap (λ (i : OptInfo). i.opt_dev_type) same),
        sym (ap (λ (i : OptInfo). i.opt_async) same),
      );
    }

-- A name that is read without an error gives a block or a character device with one of the four back
-- ends of such devices, or a PCI device with the back end of these.
pub opt_parse-IsKnown :
    (s : List ℕ) {o : OptInfo} → opt_parse s no_options ≡ some (xztl_ok, o) → IsKnown o
unfolding opt_parse
opt_parse-IsKnown s {o = o} e = elim (Bool-cases (ltb (length s) 10 || ltb 64 (length s))) [
  | inl off ↦ absurd (cc (rw (opt_parse, off) at e))
  | inr good ↦ elim (Bool-cases (char_at s 0 == b'/')) [
    | inl path ↦
        let read = rw (opt_parse, good, path) at e in
        let same : parse_path s no_options ≡ (xztl_ok, o) = cc (read) in parse_path-IsKnown s same
    | inr no_path ↦ elim (Bool-cases (char_at s 0 == b'p')) [
      | inl pci ↦ parse_pci-IsKnown s (rw (opt_parse, good, no_path, pci) at e)
      | inr neither ↦ absurd (cc (rw (opt_parse, good, no_path, neither) at e))
    ]
  ]
]

by_processors_bounds :
    (cpu_num : ℕ)
    → 0 < cpu_num
    → cpu_num < 2 ^ 32
    → ((0 < by_processors cpu_num) × (by_processors cpu_num ≤ 256))
      ↔ ((2 ≤ cpu_num) × (cpu_num ≤ 258))
unfolding by_processors
by_processors_bounds cpu_num some_cpu fits =
    (λ h. ground (arith, h.0, h.1), λ h. ground (arith, h.0, h.1))

-- The number of read contexts fits the 256 resources exactly where the back end takes no notice of the
-- processors, or there are from 2 to 258 of them.
pub read_ctx_num_bounds :
    (opt_async cpu_num : ℕ)
    → 0 < cpu_num
    → cpu_num < 2 ^ 32
    → ((0 < read_ctx_num opt_async cpu_num) × (read_ctx_num opt_async cpu_num ≤ 256)) ↔ (
        ((opt_async ≢ opt_be_spdk) × (opt_async ≢ opt_be_libaio))
        ⊎ ((2 ≤ cpu_num) × (cpu_num ≤ 258)))
unfolding read_ctx_num by_processors
read_ctx_num_bounds opt_async cpu_num some_cpu fits =
    let spec = by_processors_bounds cpu_num some_cpu fits in
    elim (Bool-cases ((opt_async == opt_be_spdk) || (opt_async == opt_be_libaio))) [
      | inl counted ↦ (
        λ h. inr (spec.0 (rw (read_ctx_num, counted) at h)),
        λ h.
            rw (read_ctx_num, counted)
              (elim h [
                | inl other ↦ absurd (ground (arith, counted, other.0, other.1))
                | inr few ↦ spec.1 few
              ]),
      )
      | inr other ↦ (λ _. inl (ground (arith, other)), λ _. rw (read_ctx_num, other) (omega arith))
    ]
