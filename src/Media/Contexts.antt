-- ===== src/Media/Contexts.antt =====
-- Where the command contexts of a queue go: a submission takes one, and its completion gives it back.
use x_ztl.Common.{
  ℕ, ◌+◌, ◌<◌, ◌≡◌, refl, ap, sym, ◌∙◌, inl, inr, Bool, true, false, ◌==◌, if◌then◌else◌,
  Bool-cases, Option, none, some, arith,
}
use x_ztl.Media.Commands.{
  Device, IoMcmd, Xnvme, submit_asynch, submit_io, submit_read_synch, submit_read_asynch,
  submit_write_asynch, submit_append_asynch, xztl_cmd_read, xztl_cmd_write, xztl_zone_append,
  znd_invalid_opcode, append_lba, zero_based, dev, read_device,
}

-- A queue `q` of which `free` is the number of contexts that are not given out: `get_cmd_ctx` gives one
-- where there is one, `put_cmd_ctx` adds one, and commands leave it.
pub record IsQueue {W : Type 0} (x : Xnvme W) (q : ℕ) (free : W → ℕ) : Type 0 where
  pub gets :
      (w : W)
      → 0 < free w
      → (c : ℕ) × (u : W) × (x.get_cmd_ctx w q ≡ (some c, u)) × (free w ≡ free u + 1)
  pub puts : (w : W) (c : ℕ) → free (x.put_cmd_ctx w q c) ≡ free w + 1
  pub reads :
      (w : W) (c : Option ℕ) (d : Device) (slba nlb buf : ℕ)
      → free (x.nvm_read w c d slba nlb buf).1 ≡ free w
  pub writes :
      (w : W) (c : Option ℕ) (d : Device) (slba nlb buf : ℕ)
      → free (x.nvm_write w c d slba nlb buf).1 ≡ free w
  pub appends :
      (w : W) (c : Option ℕ) (zlba nlb buf : ℕ) → free (x.znd_append w c zlba nlb buf).1 ≡ free w

-- The contexts that a submission holds after it returned `ret`: one for a command that is under way, and
-- one for an append that failed, which keeps it.
abbrev pub held : IoMcmd → ℕ → ℕ
held cmd ret =
    if cmd.synch
    then 0
    else if cmd.opcode == xztl_zone_append
    then 1
    else if cmd.opcode == xztl_cmd_read
    then (if ret == 0 then 1 else 0)
    else if cmd.opcode == xztl_cmd_write
    then (if ret == 0 then 1 else 0)
    else 0

module _ {W : Type 0} (x : Xnvme W) (has_dev_read : Bool) (q : ℕ) (free : W → ℕ)
    (queue : IsQueue x q free) where
  -- What a submission that goes through comes to.
  abbrev pub Balanced : W → IoMcmd → (ℕ → ℕ) → Option (ℕ × IoMcmd × W) → Type 0
  Balanced w cmd holds r =
      (ret : ℕ) × (cmd' : IoMcmd) × (u : W) × (r ≡ some (ret, cmd', u))
      × (free w ≡ free u + holds ret)

  submit_asynch-Balanced :
      (puts : Bool) (call : W → Option ℕ → ℕ × W) (w : W) (cmd : IoMcmd)
      → ((u : W) (c : Option ℕ) → free (call u c).1 ≡ free u)
      → cmd.async_ctx ≡ q
      → 0 < free w
      → Balanced w cmd
          (λ ret. if ret == 0 then 1 else if puts then 0 else 1)
          (submit_asynch x has_dev_read puts call w cmd)
  unfolding submit_asynch
  submit_asynch-Balanced puts call w cmd keeps same some_free =
      let (c, u, got, taken) = queue.gets w some_free in
      let got' : x.get_cmd_ctx w cmd.async_ctx ≡ (some c, u) = rw same got in
      let v = (call u (some c)).1 in
      let under_way = keeps u (some c) in
      let cmd' : IoMcmd = record cmd { media_ctx = some c } in
      elim (Bool-cases ((call u (some c)).0 == 0)) [
        | inl ok ↦ (
          (call u (some c)).0,
          cmd',
          v,
          rw (submit_asynch, got', ok) refl,
          rw ok (omega (arith, taken, under_way)),
        )
        | inr failed ↦ elim (Bool-cases puts) [
          | inl back ↦
              let returned = queue.puts v c in
              let put_back : free (x.put_cmd_ctx v cmd.async_ctx c) ≡ free v + 1 =
                rw same returned in
              (
                (call u (some c)).0,
                cmd',
                x.put_cmd_ctx v cmd.async_ctx c,
                rw (submit_asynch, got', failed, back) refl,
                rw (failed, back) (omega (arith, taken, under_way, put_back)),
              )
          | inr kept ↦ (
            (call u (some c)).0,
            cmd',
            v,
            rw (submit_asynch, got', failed, kept) refl,
            rw (failed, kept) (omega (arith, taken, under_way)),
          )
        ]
      ]

  convert :
      (w : W) (cmd : IoMcmd) {h k : ℕ → ℕ} {r t : Option (ℕ × IoMcmd × W)}
      → r ≡ t
      → ((ret : ℕ) → h ret ≡ k ret)
      → Balanced w cmd k t
      → Balanced w cmd h r
  convert w cmd e same (ret, cmd', u, run, taken) =
      (ret, cmd', u, e ∙ run, taken ∙ ap (λ n. free u + n) (sym (same ret)))

  module _ (zn_grp nsect : ℕ) (w : W) (cmd : IoMcmd) (same : cmd.async_ctx ≡ q)
      (some_free : 0 < free w) where
    abbrev Submitted : Type 0
    Submitted = Balanced w cmd (held cmd) (submit_io x has_dev_read zn_grp nsect w cmd)

    abbrev refused : Balanced w cmd (λ _. 0) (some (znd_invalid_opcode, cmd, w))
    refused = (znd_invalid_opcode, cmd, w, refl, omega arith)

    append-Submitted : (cmd.opcode == xztl_zone_append) ≡ true → Submitted
    unfolding submit_io submit_append_asynch
    append-Submitted append =
        let lba = append_lba zn_grp nsect cmd.addr in
        let nlb : ℕ = zero_based cmd.nsec in
        elim (Bool-cases cmd.synch) [
          | inl alone ↦
              convert w cmd (rw (submit_io, append, alone) refl) (λ ret. rw alone refl) refused
          | inr queued ↦
              convert w cmd (rw (submit_io, append, queued) refl)
                (λ ret. rw (append, queued) (ground arith))
                (submit_asynch-Balanced false (λ v c. x.znd_append v c lba nlb cmd.prp) w cmd
                  (λ v c. queue.appends v c lba nlb cmd.prp) same some_free)
        ]

    read-Submitted :
        (cmd.opcode == xztl_zone_append) ≡ false → (cmd.opcode == xztl_cmd_read) ≡ true → Submitted
    unfolding submit_io submit_read_synch submit_read_asynch
    read-Submitted not_append reading =
        let sect = cmd.addr.sect in
        let nlb : ℕ = zero_based cmd.nsec in
        let rd = read_device x has_dev_read in
        elim (Bool-cases cmd.synch) [
          | inl alone ↦
              let keeps = queue.reads w none rd sect nlb cmd.prp in
              let (ret, u) = x.nvm_read w none rd sect nlb cmd.prp in
              (
                ret,
                cmd,
                u,
                rw (submit_io, not_append, reading, alone) refl,
                rw alone (omega (arith, keeps)),
              )
          | inr queued ↦
              convert w cmd (rw (submit_io, not_append, reading, queued) refl)
                (λ ret. rw (not_append, reading, queued) refl)
                (submit_asynch-Balanced true (λ v c. x.nvm_read v c rd sect nlb cmd.prp) w cmd
                  (λ v c. queue.reads v c rd sect nlb cmd.prp) same some_free)
        ]

    write-Submitted :
        (cmd.opcode == xztl_zone_append) ≡ false
        → (cmd.opcode == xztl_cmd_read) ≡ false
        → (cmd.opcode == xztl_cmd_write) ≡ true
        → Submitted
    unfolding submit_io submit_write_asynch
    write-Submitted not_append not_read writing =
        let sect = cmd.addr.sect in
        let nlb : ℕ = zero_based cmd.nsec in
        elim (Bool-cases cmd.synch) [
          | inl alone ↦
              convert w cmd (rw (submit_io, not_append, not_read, writing, alone) refl)
                (λ ret. rw alone refl) refused
          | inr queued ↦
              convert w cmd (rw (submit_io, not_append, not_read, writing, queued) refl)
                (λ ret. rw (not_append, not_read, writing, queued) refl)
                (submit_asynch-Balanced true (λ v c. x.nvm_write v c dev sect nlb cmd.prp) w cmd
                  (λ v c. queue.writes v c dev sect nlb cmd.prp) same some_free)
        ]

  -- A submission, where the queue has a context, goes through without the use of a null pointer, and
  -- holds a context exactly where the command is asynchronous and is under way or is an append.
  pub submit_io-Balanced :
      (zn_grp nsect : ℕ) (w : W) (cmd : IoMcmd)
      → cmd.async_ctx ≡ q
      → 0 < free w
      → Balanced w cmd (held cmd) (submit_io x has_dev_read zn_grp nsect w cmd)
  unfolding submit_io
  submit_io-Balanced zn_grp nsect w cmd same some_free =
      elim (Bool-cases (cmd.opcode == xztl_zone_append)) [
        | inl append ↦ append-Submitted zn_grp nsect w cmd same some_free append
        | inr not_append ↦ elim (Bool-cases (cmd.opcode == xztl_cmd_read)) [
          | inl reading ↦ read-Submitted zn_grp nsect w cmd same some_free not_append reading
          | inr not_read ↦ elim (Bool-cases (cmd.opcode == xztl_cmd_write)) [
            | inl writing ↦
                write-Submitted zn_grp nsect w cmd same some_free not_append not_read writing
            | inr unknown ↦
                convert w cmd (rw (submit_io, not_append, not_read, unknown) refl)
                  (λ ret. ground (arith, not_append, not_read, unknown))
                  (refused zn_grp nsect w cmd same some_free)
          ]
        ]
      ]
