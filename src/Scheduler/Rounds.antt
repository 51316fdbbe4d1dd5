-- ===== src/Scheduler/Rounds.antt =====
-- pit.c: the switches from terminal to terminal, and the way back to a process after three of them.
use mathlib.Core.Option.{some-injective}
use illinix_os.Base.{
  ℕ, ◌+◌, ◌%◌, ◌≡◌, ◌≢◌, ◌∙◌, ap, ap₂, sym, Bool, true, false, ◌&&◌, Option, some, ◌==◌, arith,
  if◌then◌else◌, ◌>>=◌, bind_elim, if_elim, get_elem?, set, drop, get_elem?-set_ne,
  get_elem?-set_self, get_elem?-lt, ==_iff,
}
use illinix_os.FileSystem.{Image}
use illinix_os.Page.{Layout}
use illinix_os.Terminal.{Terminal}
use illinix_os.Process.{Pcb, Kernel, Drivers, last_process}
use illinix_os.Process.Execute.{Frame}
use illinix_os.Scheduler.{
  Machine, Switch, switches, eoi, on_kernel, saved, save, loaded, load, start_next, switch_next,
  turn, first_program, copy_page, pit_interrupt_handler,
}
use illinix_os.Scheduler.Places.{top_of, top_of-ne}
use illinix_os.Scheduler.Turns.{IsSteady, save_elim}

abbrev pub next_of : ℕ → ℕ
next_of r = (r + 1) % 3

-- The registers that a block keeps of its process.
abbrev pub Regs : Type 0
Regs = ℕ × ℕ × ℕ × ℕ

abbrev pub regs : Pcb → Regs
regs pcb = (pcb.curr_esp, pcb.curr_ebp, pcb.curr_pdbr, pcb.curr_esp0)

module _ {W : Type 0} where
  abbrev pub running : Machine W → ℕ
  running m = m.kernel.curr_running_terminal_idx

  -- The shells have been started.
  abbrev pub IsUp : Machine W → Type 0
  IsUp m = (m.flag ≢ 0) × (m.flag_first_execute ≡ 0)

  -- What a switch does: process `p` gives way to process `q`.
  pub record IsSwitch (m : Machine W) (o : Switch) (m' : Machine W) : Type 0 where
    pub p : ℕ
    pub pcb : Pcb
    pub q : ℕ
    pub qcb : Pcb
    pub top : top_of (running m) m.kernel ≡ some p
    pub block : get_elem? m.kernel.pcbs p ≡ some pcb
    pub next : top_of (next_of (running m)) m.kernel ≡ some q
    pub block_next : get_elem? (set m.kernel.pcbs p (saved m.kernel pcb)) q ≡ some qcb
    pub outcome : o ≡ switches qcb.curr_esp qcb.curr_ebp
    pub terminals : m'.kernel.terminals ≡ m.kernel.terminals
    pub turned : running m' ≡ next_of (running m)
    pub pcbs : m'.kernel.pcbs ≡ set m.kernel.pcbs p (saved m.kernel pcb)
    pub cr3 : m'.kernel.paging.cr3 ≡ qcb.curr_pdbr
    pub esp0 : m'.kernel.cpu.tss_esp0 ≡ qcb.curr_esp0
    pub flag : m'.flag ≡ m.flag
    pub first : m'.flag_first_execute ≡ m.flag_first_execute

  abbrev pub regs_of : ℕ → Kernel W → Option Regs
  regs_of p k = get_elem? k.pcbs p >>= λ pcb. some (regs pcb)

  -- The registers of the process that runs.
  abbrev pub live : Machine W → Regs
  live m = (m.kernel.cpu.esp, m.kernel.cpu.ebp, m.kernel.paging.cr3, m.kernel.cpu.tss_esp0)

  -- What other code does between two ticks: programs run, start and end on the terminal whose turn it
  -- is, but process `p` stays on top of terminal `r`, and its saved registers stay.
  pub record IsBetween (r p : ℕ) (m n : Machine W) : Type 0 where
    pub steady : IsSteady n
    pub up : IsUp n
    pub same : running n ≡ running m
    pub top : top_of r n.kernel ≡ top_of r m.kernel
    pub kept : regs_of p n.kernel ≡ regs_of p m.kernel

  top-IsSwitch :
      (r : ℕ) (m m' : Machine W) (o : Switch)
      → IsSwitch m o m'
      → top_of r m'.kernel ≡ top_of r m.kernel
  top-IsSwitch r m m' o s =
      ap (λ ts. get_elem? ts r >>= λ t. last_process t.phys_mem_idx) s.terminals

  -- The process that is switched off has its registers in its block.
  off-IsSwitch :
      (m m' : Machine W) (o : Switch) (s : IsSwitch m o m') → regs_of s.p m'.kernel ≡ some (live m)
  off-IsSwitch m m' o s =
      ap (λ x. x >>= λ pcb. some (regs pcb))
        (ap (λ ps. get_elem? ps s.p) s.pcbs
          ∙ get_elem?-set_self m.kernel.pcbs s.p (saved m.kernel s.pcb)
              (get_elem?-lt m.kernel.pcbs s.p s.block))

  -- The registers of a process whose turn it is not.
  other-IsSwitch :
      (r p : ℕ) (m m' : Machine W) (o : Switch)
      → IsSwitch m o m'
      → IsSteady m
      → top_of r m.kernel ≡ some p
      → running m ≢ r
      → regs_of p m'.kernel ≡ regs_of p m.kernel
  other-IsSwitch r p m m' o s steady top other =
      ap (λ x. x >>= λ pcb. some (regs pcb))
        (ap (λ ps. get_elem? ps p) s.pcbs
          ∙ get_elem?-set_ne m.kernel.pcbs (saved m.kernel s.pcb)
              (top_of-ne m.kernel (running m) r s.p p steady.0 other s.top top))

  -- The process that is switched on goes on with the registers from its block.
  on-IsSwitch :
      (r p : ℕ) (m m' : Machine W) (o : Switch) (esp ebp cr3 esp0 : ℕ)
      → IsSwitch m o m'
      → IsSteady m
      → next_of (running m) ≡ r
      → top_of r m.kernel ≡ some p
      → regs_of p m.kernel ≡ some (esp, ebp, cr3, esp0)
      → (o ≡ switches esp ebp)
        × (m'.kernel.paging.cr3 ≡ cr3)
        × (m'.kernel.cpu.tss_esp0 ≡ esp0)
        × (running m' ≡ r)
  on-IsSwitch r p m m' o esp ebp cr3 esp0 s steady comes top held =
      let same : s.q ≡ p =
        some-injective _ _ (sym s.next ∙ ap (λ i. top_of i m.kernel) comes ∙ top) in
      let differ : s.p ≢ s.q =
        top_of-ne m.kernel (running m) (next_of (running m)) s.p s.q steady.0
          (λ e. omega (arith, steady.1)) s.top s.next in
      let there : get_elem? m.kernel.pcbs p ≡ some s.qcb =
        ap (get_elem? m.kernel.pcbs) (sym same)
        ∙ sym (get_elem?-set_ne m.kernel.pcbs (saved m.kernel s.pcb) differ)
        ∙ s.block_next in
      let values : regs s.qcb ≡ (esp, ebp, cr3, esp0) =
        some-injective _ _ (ap (λ x. x >>= λ pcb. some (regs pcb)) (sym there) ∙ held) in
      (
        s.outcome ∙ ap₂ switches (ap (λ v. v.0) values) (ap (λ v. v.1) values),
        s.cr3 ∙ ap (λ v. v.2) values,
        s.esp0 ∙ ap (λ v. v.3) values,
        s.turned ∙ comes,
      )

module _ {W : Type 0} (at : Layout) (img : Image) (frame : Frame) (drivers : Drivers W) where
  switch_next-IsSwitch :
      (t : Terminal) (m m' : Machine W) (o : Switch)
      → get_elem? m.kernel.terminals (running m) ≡ some t
      → switch_next at img frame drivers t m ≡ some (o, m')
      → IsSwitch m o m'
  unfolding switch_next
  switch_next-IsSwitch t m m' o there done =
      let k = m.kernel in
      let r = k.curr_running_terminal_idx in
      let mem =
        if r == k.curr_terminal_idx && t.vid_on == 1 then copy_page t.video_mem m.mem else m.mem in
      let next = (r + 1) % 3 in
      let turned : Kernel W → Machine W =
        λ k1. record m { mem = mem; kernel = record k1 { curr_running_terminal_idx = next } } in
      let go : Kernel W → Option (Switch × Machine W) = λ k1. get_elem? k1.terminals next >>= λ u.
      last_process u.phys_mem_idx >>= λ q. load q (turned k1) in
      bind_elim (last_process t.phys_mem_idx) (λ p. save p k >>= go) done
        λ p e1 d1. save_elim p k go d1 λ pcb block d2.
          let k1 = record k { pcbs = set k.pcbs p (saved k pcb) } in
          bind_elim (get_elem? k1.terminals next)
            (λ u. last_process u.phys_mem_idx >>= λ q. load q (turned k1)) d2
            λ u e3 d3.
              bind_elim (last_process u.phys_mem_idx) (λ q. load q (turned k1)) d3
                λ q e4 d4.
                  bind_elim (get_elem? k1.pcbs q)
                    (λ qcb. some (
                      switches qcb.curr_esp qcb.curr_ebp,
                      eoi (on_kernel (λ k. loaded k qcb) (turned k1)),
                    ))
                    d4
                    λ qcb block' e.
                      let m1 = eoi (on_kernel (λ k. loaded k qcb) (turned k1)) in
                      let same : ◌≡◌ {A = Switch × Machine W}
                          (switches qcb.curr_esp qcb.curr_ebp, m1) (o, m') =
                        some-injective _ _ e in
                      let end : m1 ≡ m' = ap (λ r. r.1) same in
                      record {
                        p = p;
                        pcb = pcb;
                        q = q;
                        qcb = qcb;
                        top = ap (λ x. x >>= λ t. last_process t.phys_mem_idx) there ∙ e1;
                        block = block;
                        next = ap (λ x. x >>= λ t. last_process t.phys_mem_idx) e3 ∙ e4;
                        block_next = block';
                        outcome = sym (ap (λ r. r.0) same);
                        terminals = ap (λ x. x.kernel.terminals) (sym end);
                        turned = ap running (sym end);
                        pcbs = ap (λ x. x.kernel.pcbs) (sym end);
                        cr3 = ap (λ x. x.kernel.paging.cr3) (sym end);
                        esp0 = ap (λ x. x.kernel.cpu.tss_esp0) (sym end);
                        flag = ap (λ x. x.flag) (sym end);
                        first = ap (λ x. x.flag_first_execute) (sym end);
                      }

  turn-IsSwitch :
      (m m' : Machine W) (o : Switch)
      → m.flag ≢ 0
      → turn at img frame drivers m ≡ some (o, m')
      → IsSwitch m o m'
  unfolding turn
  turn-IsSwitch m m' o up done =
      let k = m.kernel in
      let go : Terminal → Option (Switch × Machine W) = λ t.
        if first_program 1 (drop 1 t.phys_mem_idx) == 6 && m.flag == 0
        then start_next at img frame drivers t m
        else switch_next at img frame drivers t m in
      bind_elim (get_elem? k.terminals k.curr_running_terminal_idx) go done λ t there d1.
        if_elim (first_program 1 (drop 1 t.phys_mem_idx) == 6 && m.flag == 0) d1
          (λ b e. absurd (started (first_program 1 (drop 1 t.phys_mem_idx) == 6) m.flag up b))
          (λ b e. switch_next-IsSwitch t m m' o there e)
    where
      started : (b : Bool) (n : ℕ) → n ≢ 0 → (b && n == 0) ≢ true
      started true n up e = up ((==_iff n 0).0 e)
      started false n up e = ground arith

  -- Once the shells have been started, a tick is a switch.
  pub handler-IsSwitch :
      (m m' : Machine W) (o : Switch)
      → IsUp m
      → pit_interrupt_handler at img frame drivers m ≡ some (o, m')
      → IsSwitch m o m'
  unfolding pit_interrupt_handler
  handler-IsSwitch m m' o (up, first) done =
      let m1 = record m { kernel = record (m.kernel) { interrupts = false }; init_flag = 0 } in
      if_elim (m.flag_first_execute == 0) done
        (λ b e.
          let s = turn-IsSwitch m1 m' o up e in
          record {
            p = s.p;
            pcb = s.pcb;
            q = s.q;
            qcb = s.qcb;
            top = s.top;
            block = s.block;
            next = s.next;
            block_next = s.block_next;
            outcome = s.outcome;
            terminals = s.terminals;
            turned = s.turned;
            pcbs = s.pcbs;
            cr3 = s.cr3;
            esp0 = s.esp0;
            flag = s.flag;
            first = s.first;
          })
        (λ b e. absurd (zero_test m.flag_first_execute first b))
    where
      zero_test : (n : ℕ) → n ≡ 0 → (n == 0) ≢ false
      zero_test n e b = ground arith

  -- Three switches come back to the process, with its registers. Let process `p` run on a terminal,
  -- when the three shells have been started, and let three ticks pass; between them the programs on
  -- the two other terminals do what they like, but leave `p` on top of its terminal and its block
  -- alone. Then the third tick goes on with the stack that `p` had at the first tick, with its page
  -- directory and its kernel stack, and its terminal is the one that runs.
  pub pit_interrupt_handler-round :
      (m0 m1 n1 m2 n2 m3 : Machine W) (o1 o2 o3 : Switch) (p : ℕ)
      → IsSteady m0
      → IsUp m0
      → top_of (running m0) m0.kernel ≡ some p
      → pit_interrupt_handler at img frame drivers m0 ≡ some (o1, m1)
      → IsBetween (running m0) p m1 n1
      → pit_interrupt_handler at img frame drivers n1 ≡ some (o2, m2)
      → IsBetween (running m0) p m2 n2
      → pit_interrupt_handler at img frame drivers n2 ≡ some (o3, m3)
      → (o3 ≡ switches m0.kernel.cpu.esp m0.kernel.cpu.ebp)
        × (m3.kernel.paging.cr3 ≡ m0.kernel.paging.cr3)
        × (m3.kernel.cpu.tss_esp0 ≡ m0.kernel.cpu.tss_esp0)
        × (running m3 ≡ running m0)
  pit_interrupt_handler-round m0 m1 n1 m2 n2 m3 o1 o2 o3 p steady up top tick1 b1 tick2 b2 tick3 =
      let r = running m0 in
      let s1 = handler-IsSwitch m0 m1 o1 up tick1 in
      let s2 = handler-IsSwitch n1 m2 o2 b1.up tick2 in
      let s3 = handler-IsSwitch n2 m3 o3 b2.up tick3 in
      let same : s1.p ≡ p = some-injective _ _ (sym s1.top ∙ top) in
      let held1 : regs_of p n1.kernel ≡ some (live m0) =
        b1.kept ∙ ap (λ i. regs_of i m1.kernel) (sym same) ∙ off-IsSwitch m0 m1 o1 s1 in
      let top1 : top_of r n1.kernel ≡ some p = b1.top ∙ top-IsSwitch r m0 m1 o1 s1 ∙ top in
      let turn1 : running n1 ≡ next_of r = b1.same ∙ s1.turned in
      let other : running n1 ≢ r = λ e. omega (arith, turn1, steady.1) in
      let held2 : regs_of p n2.kernel ≡ some (live m0) =
        b2.kept ∙ other-IsSwitch r p n1 m2 o2 s2 b1.steady top1 other ∙ held1 in
      let top2 : top_of r n2.kernel ≡ some p = b2.top ∙ top-IsSwitch r n1 m2 o2 s2 ∙ top1 in
      let turn2 : running n2 ≡ next_of (next_of r) = b2.same ∙ s2.turned ∙ ap next_of turn1 in
      on-IsSwitch r p n2 m3 o3 _ _ _ _ s3 b2.steady (omega (arith, turn2, steady.1)) top2 held2
