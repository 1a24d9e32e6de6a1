-- ===== src/Media/Register/Handles.antt =====
-- The devices that a registration leaves open.
use x_ztl.Common.{
  ℕ, ◌+◌, if◌then◌else◌, ◌≡◌, ap, sym, ◌∙◌, inl, inr, Bool, ◌==◌, List, Option, none, some,
  >>=-eq-some, Bool-cases, Option-cases, ==→ne, arith,
}
use x_ztl.Consts.{xztl_ok}
use x_ztl.Media.Options.{OptInfo, XnvmeOpts, no_options, opt_parse, opt_assign, is_blk_thrpool}
use x_ztl.Media.Register.{
  Devices, Registry, register_media, register_geo, register_read, media_register, close_some,
  media_exit,
}

-- How often the handle `j` is a handle or null.
unfoldable pub count : ℕ → Option ℕ → ℕ
count j none = 0
count j (some h) = if j == h then 1 else 0

-- How often each handle is open: opening a device adds one to the handle that it gives, and closing a
-- handle that is open takes one away from it; no other handle changes.
pub record Counts {W : Type 0} (x : Devices W) (handles : W → ℕ → ℕ) : Type 0 where
  pub opens :
      (w : W) (name : List ℕ) (o : XnvmeOpts) (j : ℕ)
      → handles (x.dev_open w name o).1 j ≡ handles w j + count j (x.dev_open w name o).0
  pub closes :
      (w : W) (h : ℕ) (n : ℕ → ℕ)
      → ((j : ℕ) → handles w j ≡ n j + count j (some h))
      → (j : ℕ) → handles (x.dev_close w h) j ≡ n j

ret_of {ℓ} :
    {A : Type ℓ} {n m : ℕ} {a b : A} → ◌≡◌ {A = Option (ℕ × A)} (some (n, a)) (some (m, b)) → n ≡ m
ret_of e = cc (e)

module _ {W : Type 0} (x : Devices W) (cpu_num : ℕ) (allocated : Bool) (handles : W → ℕ → ℕ)
    (counts : Counts x handles) where
  -- A registry whose two handles are all that is open besides `n`.
  abbrev Holds : (ℕ → ℕ) → Registry W → Type 0
  Holds n s =
      (h : ℕ) × (s.zndmedia.dev ≡ some h)
      × ((j : ℕ) → handles s.devices j ≡ n j + count j (some h) + count j s.zndmedia.dev_read)

  register_geo-Holds :
      (info : OptInfo) (dev : ℕ) (dev_read : Option ℕ) (n : ℕ → ℕ) (s : Registry W) {t : Registry W}
      → ((j : ℕ) → handles s.devices j ≡ n j + count j (some dev) + count j dev_read)
      → register_geo x cpu_num allocated info dev dev_read s ≡ (xztl_ok, t)
      → Holds n t
  unfolding register_geo register_media
  register_geo-Holds info dev dev_read n s {t = t} h e =
      elim (Option-cases (x.dev_get_geo s.devices dev)) [
        | inl gone ↦ absurd (cc (rw (register_geo, gone) at e))
        | inr (devgeo, geo) ↦
            let made = rw (register_geo, register_media, geo) at e in
            let first : some dev ≡ t.zndmedia.dev =
              ap (λ (r : ℕ × Registry W). r.1.zndmedia.dev) made in
            let second : dev_read ≡ t.zndmedia.dev_read =
              ap (λ (r : ℕ × Registry W). r.1.zndmedia.dev_read) made in
            let same : s.devices ≡ t.devices = ap (λ (r : ℕ × Registry W). r.1.devices) made in
            (
              dev,
              sym first,
              λ j.
                  sym (ap (λ (v : W). handles v j) same)
                  ∙ (h j ∙ ap (λ o. n j + count j (some dev) + count j o) second),
            )
      ]

  close_some-count :
      (w : W) (o : Option ℕ) (n : ℕ → ℕ)
      → ((j : ℕ) → handles w j ≡ n j + count j o)
      → (j : ℕ) → handles (close_some x w o) j ≡ n j
  unfolding close_some count
  close_some-count w none n e j = omega (arith, e j)
  close_some-count w (some h) n e j = counts.closes w h n e j

  media_exit-Holds :
      (n : ℕ → ℕ) (s : Registry W)
      → Holds n s
      → (j : ℕ) → handles (media_exit x s).1.devices j ≡ n j
  unfolding media_exit
  media_exit-Holds n s (h, dev, open_handles) =
      let both = s.zndmedia.dev_read in
      let first =
        close_some-count s.devices s.zndmedia.dev (λ j. n j + count j both)
          (λ j. let one = ap (count j) dev in omega (arith, open_handles j, one)) in
      close_some-count (close_some x s.devices s.zndmedia.dev) both n first

  register_read-Holds :
      (info : OptInfo) (opts_read : XnvmeOpts) (dev : ℕ) (n : ℕ → ℕ) (s : Registry W)
      {t : Registry W}
      → ((j : ℕ) → handles s.devices j ≡ n j + count j (some dev))
      → register_read x cpu_num allocated info opts_read dev s ≡ (xztl_ok, t)
      → Holds n t
  unfolding register_read count
  register_read-Holds info opts_read dev n s {t = t} h e = elim (Bool-cases (is_blk_thrpool info)) [
    | inr alone ↦
        register_geo-Holds info dev none n s (λ j. omega (arith, h j))
          (rw (register_read, alone) at e)
    | inl both ↦
        let opens = counts.opens s.devices info.opt_dev_name opts_read in
        elim (Option-cases (x.dev_open s.devices info.opt_dev_name opts_read).0) [
          | inl refused ↦ absurd (cc (rw (register_read, both, refused) at e))
          | inr (k, opened) ↦
              let more : (j : ℕ)
                  → handles (x.dev_open s.devices info.opt_dev_name opts_read).1 j
                    ≡ n j + count j (some dev) + count j (some k) =
                λ j.
                  let one = ap (count j) opened in
                  let gives = opens j in let before = h j in omega (arith, gives, one, before) in
              register_geo-Holds info dev (some k) n
                (record s { devices = (x.dev_open s.devices info.opt_dev_name opts_read).1 }) more
                (rw (register_read, both, opened) at e)
        ]
  ]

  -- After a registration that returns OK, `znd_media_exit` leaves every handle of a device as often open
  -- as it was before it.
  pub media_exit-media_register :
      (s t : Registry W) (name : List ℕ)
      → media_register x cpu_num allocated s name ≡ some (xztl_ok, t)
      → (j : ℕ) → handles (media_exit x t).1.devices j ≡ handles s.devices j
  unfolding media_register
  media_exit-media_register s t name e =
      let ((ret, info), parsed, run) = >>=-eq-some (opt_parse name no_options) _ e in
      let opts = (opt_assign x.opts_default x.opts_default info).0 in
      let opts_read = (opt_assign x.opts_default x.opts_default info).1 in
      let opens = counts.opens s.devices info.opt_dev_name opts in
      elim (Bool-cases (ret == 0)) [
        | inr failed ↦
            let stopped : ret ≡ 0 = ret_of (rw failed at run) in absurd (==→ne ret 0 failed stopped)
        | inl ok ↦ elim (Option-cases (x.dev_open s.devices info.opt_dev_name opts).0) [
          | inl refused ↦ absurd (cc (rw (ok, refused) at run))
          | inr (dev, opened) ↦
              let devices = (x.dev_open s.devices info.opt_dev_name opts).1 in
              let one_more : (j : ℕ)
                  → handles devices j ≡ handles s.devices j + count j (some dev) =
                λ j. opens j ∙ ap (λ o. handles s.devices j + count j o) opened in
              let registered : register_read x cpu_num allocated info opts_read dev
                    (record s { devices = devices })
                  ≡ (xztl_ok, t) =
                cc (rw (ok, opened) at run) in
              media_exit-Holds (handles s.devices) t (
                register_read-Holds info opts_read dev (handles s.devices)
                  (record s { devices = devices }) one_more registered)
        ]
      ]
