-- ===== src/Raw/Plugin/Contents/Step.antt =====
-- A callback of the plugin on a vCPU that captures everything into one file.
use champsim_infra.Prelude.{
  ℕ, ◌+◌, ◌%◌, ◌^◌, ◌≡◌, refl, sym, ap, subst, ◌∙◌, ◌&&◌, not, Bool, true, false, Bool-cases, inl,
  inr, Option, none, some, List, [], ◌∷◌, ◌++◌, length, ltb, leb, inc, if◌then◌else◌,
}
use champsim_infra.Raw.Record.{Insn, max_mem_ops}
use champsim_infra.Raw.Plugin.State.{Config, ChunkFiles, VcpuState}
use champsim_infra.Raw.Plugin.Chunks.{flush_buffer, finalize_pending_insn, open_chunk, close_chunk}
use champsim_infra.Raw.Plugin.Callbacks.{
  InsnMeta, MemInfo, PluginGlobals, Flow, returned, goes_on, and_then, ended, skip_phase,
  window_boundary, after_window, window_done, check_limit, rotate, or_stop, pass_gap, pending_of,
  record_insn, insn_exec_cb, mem_cb, mem_op_of, add_mem_op, dormant, is_user, count_lookup,
}
use champsim_infra.Raw.Plugin.Contents.{
  exec, access, Continuous, ChunkLaws, with_access, insn_of, handle, Written, pending_bytes,
  finalize-Written,
}

module _ (k : Config) (z : ChunkFiles) (laws : ChunkLaws z) where
  -- Tracing with a pending instruction.
  pub record Live (s : PluginGlobals × VcpuState z) (id : ℕ) (c : List z.W) (p : Option Insn)
      (v : List ℕ) : Type 0 where
    pub enabled : s.0.tracing_enabled ≡ true
    pub no_profile : s.0.profile_mode ≡ false
    pub pending_is : s.1.pending ≡ p
    pub wrote : Written k z laws s.1 id c v

  abbrev armed : InsnMeta → VcpuState z → VcpuState z
  armed m vs =
      record (finalize_pending_insn z k (record vs { stream_insns = inc vs.stream_insns })) {
        pending = some (pending_of k z m);
      }

  no : (n a : ℕ) → n ≡ 0 → (ltb 0 n && leb n a) ≡ false
  no n a e = ap (λ n. ltb 0 n && leb n a) e

  record_insn-Continuous :
      (m : InsnMeta) (vs : VcpuState z)
      → Continuous k
      → vs.limit_reached ≡ false
      → record_insn k z m vs ≡ armed m vs
  unfolding record_insn skip_phase window_boundary check_limit rotate
  record_insn-Continuous m vs plain on =
      let vs1 : VcpuState z = record vs { stream_insns = inc vs.stream_insns } in
      let vs2 : VcpuState z = finalize_pending_insn z k vs1 in
      let skips : skip_phase k z m vs1 ≡ goes_on vs1 =
        ap
          (λ n.
            if ltb 0 n
            then (if vs1.sample_finished
                then returned vs1
                else if vs1.sample_skipping
                then pass_gap k z m (finalize_pending_insn z k vs1)
                else goes_on vs1)
            else goes_on vs1)
          plain.no_sampling in
      let window : window_boundary k z m vs2 ≡ goes_on vs2 =
        ap
          (λ n.
            if ltb 0 n && not vs2.sample_skipping && leb n vs2.chunk_insn_count
            then after_window k z m (window_done k z (close_chunk z k vs2))
            else goes_on vs2)
          plain.no_sampling in
      let limit : check_limit k z vs2 ≡ goes_on vs2 =
        ap
          (λ (b : Bool).
            if b
            then returned (flush_buffer z k (record vs2 { limit_reached = true }))
            else goes_on vs2)
          (no k.insn_limit vs2.insn_count plain.no_limit) in
      let keeps : rotate k z vs2 ≡ goes_on vs2 =
        ap
          (λ (b : Bool).
            if b
            then (let vs' = close_chunk z k vs2 in
                or_stop k z
                  (open_chunk z k (record vs' { chunk_index = (vs'.chunk_index + 1) % 2 ^ 32 })))
            else goes_on vs2)
          (no k.rotate_interval vs2.chunk_insn_count plain.no_rotation) in
      let arm : VcpuState z → Flow k z =
        λ vs. goes_on (record vs { pending = some (pending_of k z m) }) in
      ap
        (λ (b : Bool).
          if b
          then vs
          else ended k z (
              and_then k z arm (
                and_then k z (rotate k z) (
                  and_then k z (check_limit k z) (
                    and_then k z (λ vs. window_boundary k z m (finalize_pending_insn z k vs))
                      (skip_phase k z m vs1))))))
        on
      ∙ ap
          (λ f. ended k z (
            and_then k z arm (
              and_then k z (rotate k z) (
                and_then k z (check_limit k z)
                  (and_then k z (λ vs. window_boundary k z m (finalize_pending_insn z k vs)) f)))))
          skips
      ∙ ap
          (λ f.
            ended k z
              (and_then k z arm (and_then k z (rotate k z) (and_then k z (check_limit k z) f))))
          window
      ∙ ap (λ f. ended k z (and_then k z arm (and_then k z (rotate k z) f))) limit
      ∙ ap (λ f. ended k z (and_then k z arm f)) keeps

  armed-Written :
      (m : InsnMeta) (vs : VcpuState z) (id : ℕ) (c : List z.W) (v : List ℕ) (p : Option Insn)
      → vs.pending ≡ p
      → Written k z laws vs id c v
      → Written k z laws (armed m vs) id c (v ++ pending_bytes k z laws id p)
  armed-Written m vs id c v p e h =
      let h1 : Written k z laws (record vs { stream_insns = inc vs.stream_insns }) id c v = record {
        file = h.file;
        is_open = h.is_open;
        content = h.content;
        same_id = h.same_id;
        running = h.running;
        before = h.before;
      } in
      let g =
        finalize-Written k z laws (record vs { stream_insns = inc vs.stream_insns }) id c v p e
          h1 in
      record {
        file = g.file;
        is_open = g.is_open;
        content = g.content;
        same_id = g.same_id;
        running = g.running;
        before = g.before;
      }

  pub exec-Live :
      (m : InsnMeta) (s : PluginGlobals × VcpuState z) (id : ℕ) (c : List z.W) (p : Option Insn)
      (v : List ℕ)
      → Continuous k
      → Live s id c p v
      → Live (handle k z (exec m) s) id c (some (insn_of k z m)) (v ++ pending_bytes k z laws id p)
  unfolding insn_exec_cb
  exec-Live m s id c p v plain h =
      subst (λ s. Live s id c (some (insn_of k z m)) (v ++ pending_bytes k z laws id p)) (sym runs)
        record {
          enabled = h.enabled;
          no_profile = h.no_profile;
          pending_is = refl;
          wrote = armed-Written m s.1 id c v p h.pending_is h.wrote;
        }
    where
      profiled : PluginGlobals × VcpuState z
      profiled = (
        record (s.0) {
          profile_total_insns = inc s.0.profile_total_insns;
          profile_user_insns =
              if is_user k m then inc s.0.profile_user_insns else s.0.profile_user_insns;
        },
        s.1,
      )

      runs : insn_exec_cb k z false m s ≡ (s.0, armed m s.1)
      runs =
          ap
            (λ (b : Bool).
              if not b
              then (dormant k z false s.0, s.1)
              else if s.0.profile_mode
              then profiled
              else (s.0, record_insn k z m s.1))
            h.enabled
          ∙ ap (λ (b : Bool). if b then profiled else (s.0, record_insn k z m s.1)) h.no_profile
          ∙ ap (λ vs. (s.0, vs)) (record_insn-Continuous m s.1 plain h.wrote.running)

  count_lookup-enabled :
      (a : MemInfo) (g : PluginGlobals)
      → ((count_lookup k a g).tracing_enabled ≡ g.tracing_enabled)
        × ((count_lookup k a g).profile_mode ≡ g.profile_mode)
  count_lookup-enabled a g = (same k.capture_pa a.hwaddr)
    where
      counted : Bool → Option (ℕ × Bool) → PluginGlobals
      counted b o =
          if b
          then elim o [
            | none ↦ record g { pa_invalid_count = inc g.pa_invalid_count }
            | some (pa, io) ↦ if io then record g { pa_io_count = inc g.pa_io_count } else g
          ]
          else g

      same :
          (b : Bool) (o : Option (ℕ × Bool))
          → ((counted b o).tracing_enabled ≡ g.tracing_enabled)
            × ((counted b o).profile_mode ≡ g.profile_mode)
      same false o = (refl, refl)
      same true none = (refl, refl)
      same true (some (pa, true)) = (refl, refl)
      same true (some (pa, false)) = (refl, refl)

  abbrev pub accessed : ℕ → MemInfo → Option Insn → Option Insn
  accessed vaddr a none = none
  accessed vaddr a (some i) = some (with_access k vaddr a i)

  Written-pending :
      (vs : VcpuState z) (id : ℕ) (c : List z.W) (v : List ℕ) (p : Option Insn)
      → Written k z laws vs id c v
      → Written k z laws (record vs { pending = p }) id c v
  Written-pending vs id c v p h = record {
    file = h.file;
    is_open = h.is_open;
    content = h.content;
    same_id = h.same_id;
    running = h.running;
    before = h.before;
  }

  add_mem_op-Live :
      (vaddr : ℕ) (a : MemInfo) (i : Insn) (s : PluginGlobals × VcpuState z) (id : ℕ) (c : List z.W)
      (v : List ℕ)
      → Live s id c (some i) v
      → Live (add_mem_op k z vaddr a i s) id c (some (with_access k vaddr a i)) v
  add_mem_op-Live vaddr a i s id c v h = elim (Bool-cases (leb max_mem_ops (length i.mem_ops))) [
    | inl e ↦ subst Goal (sym e) record {
      enabled = h.enabled;
      no_profile = h.no_profile;
      pending_is = h.pending_is;
      wrote = h.wrote;
    }
    | inr e ↦ subst Goal (sym e) record {
      enabled = (count_lookup-enabled a s.0).0 ∙ h.enabled;
      no_profile = (count_lookup-enabled a s.0).1 ∙ h.no_profile;
      pending_is = refl;
      wrote = Written-pending s.1 id c v _ h.wrote;
    }
  ]
    where
      larger : Insn
      larger = record i { mem_ops = i.mem_ops ++ mem_op_of k vaddr a ∷ [] }

      Goal : Bool → Type 0
      Goal b =
          Live
            (if b
              then (record (s.0) { memops_dropped = inc s.0.memops_dropped }, s.1)
              else (count_lookup k a s.0, record (s.1) { pending = some larger }))
            id c (some (if b then i else larger)) v

  pub access-Live :
      (vaddr : ℕ) (a : MemInfo) (s : PluginGlobals × VcpuState z) (id : ℕ) (c : List z.W)
      (p : Option Insn) (v : List ℕ)
      → Live s id c p v
      → Live (handle k z (access vaddr a) s) id c (accessed vaddr a p) v
  unfolding mem_cb
  access-Live vaddr a s id c p v h =
      subst (λ t. Live t id c (accessed vaddr a p) v) (sym runs) (by_pending p h)
    where
      taken : Option Insn → PluginGlobals × VcpuState z
      taken o = elim o [ none ↦ s | some i ↦ add_mem_op k z vaddr a i s ]

      runs : mem_cb k z vaddr a s ≡ taken p
      runs =
          ap (λ (b : Bool). if not b then s else if s.1.limit_reached then s else taken s.1.pending)
            h.enabled
          ∙ ap (λ (b : Bool). if b then s else taken s.1.pending) h.wrote.running
          ∙ ap taken h.pending_is

      by_pending : (p : Option Insn) → Live s id c p v → Live (taken p) id c (accessed vaddr a p) v
      by_pending none h = h
      by_pending (some i) h = add_mem_op-Live vaddr a i s id c v h
