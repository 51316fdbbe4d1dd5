-- ===== src/Process/Execute/Stack/Files.antt =====
-- system_call_handler.c: the calls on files and `vidmap` leave the pages and the lists of processes
-- alone.
use mathlib.Core.Option.{some-injective}
use illinix_os.Base.{
  ℕ, ◌+◌, ◌*◌, ◌≡◌, refl, ◌∙◌, ap, subst, true, ◌||◌, none, some, Option, List, ◌==◌, ltb, leb,
  negative, if◌then◌else◌, ◌>>=◌, bind_elim, if_elim, get_elem?, set, set-same, minus_one,
}
use illinix_os.Descriptor.{FileDescriptor}
use illinix_os.FileSystem.{Image, Dentry, read_dentry_by_name}
use illinix_os.Page.{Layout, set_page_1}
use illinix_os.Terminal.{Terminal}
use illinix_os.Process.{
  Kernel, Drivers, Pcb, cli, current, cleared, opened, put_table, call_open, call_read,
  free_descriptor, open_at, open_entry, sys_open, sys_close, sys_read, sys_write, last_process,
}
use illinix_os.Process.Execute.{vidmap}
use illinix_os.Process.Execute.Stack.Counts.{get_elem?-map, map-set}
use illinix_os.Process.Execute.Stack.{IsAlike, lists_of}

module _ {W : Type 0} where
  same : (k : Kernel W) → IsAlike k k
  same k = record { pages = refl; lists = refl }

  -- The state in a result, with what else the call returns.
  through :
      {A : Type 0} (P : Kernel W → Type 0) (a b : A) (k k' : Kernel W)
      → P k
      → ◌≡◌ {A = Option (A × Kernel W)} (some (a, k)) (some (b, k'))
      → P k'
  through {A} P a b k k' p e =
      let pair : ◌≡◌ {A = A × Kernel W} (a, k) (b, k') = some-injective _ _ e in
      subst P (ap (λ r. r.1) pair) p

  through₃ :
      {A B : Type 0} (P : Kernel W → Type 0) (a a' : A) (b b' : B) (k k' : Kernel W)
      → P k
      → ◌≡◌ {A = Option (A × B × Kernel W)} (some (a, b, k)) (some (a', b', k'))
      → P k'
  through₃ {A} {B} P a a' b b' k k' p e =
      let triple : ◌≡◌ {A = A × B × Kernel W} (a, b, k) (a', b', k') = some-injective _ _ e in
      subst P (ap (λ r. r.2) triple) p

  pub sys_close-IsAlike :
      (fd v : ℕ) (k k' : Kernel W) → sys_close fd k ≡ some (v, k') → IsAlike k k'
  unfolding sys_close
  sys_close-IsAlike fd v k k' done =
      let body : ℕ → Pcb → FileDescriptor → Option (ℕ × Kernel W) = λ p pcb f.
        if ltb fd 2 || (f.flags == 0)
        then some (minus_one, k)
        else some (0, put_table p pcb (set pcb.file_descriptor_tabele fd cleared) k) in
      if_elim (negative fd || ltb 7 fd) done (λ b e. through (IsAlike k) _ v k k' (same k) e)
        λ b d1.
          bind_elim (current k)
            (λ p. get_elem? k.pcbs p >>= λ pcb.
              get_elem? pcb.file_descriptor_tabele fd >>= λ f. body p pcb f)
            d1
            λ p e1 d2.
              bind_elim (get_elem? k.pcbs p)
                (λ pcb. get_elem? pcb.file_descriptor_tabele fd >>= λ f. body p pcb f) d2
                λ pcb e2 d3.
                  bind_elim (get_elem? pcb.file_descriptor_tabele fd) (λ f. body p pcb f) d3
                    λ f e3 d4.
                      if_elim (ltb fd 2 || (f.flags == 0)) d4
                        (λ b e. through (IsAlike k) _ v k k' (same k) e)
                        (λ b e.
                          through (IsAlike k) _ v
                            (put_table p pcb (set pcb.file_descriptor_tabele fd cleared) k) k'
                            (record { pages = refl; lists = refl }) e)

  pub vidmap-IsAlike :
      (at : Layout) (screen_start v : ℕ) (stored : Option ℕ) (k k' : Kernel W)
      → vidmap at screen_start k ≡ some (v, stored, k')
      → IsAlike k k'
  unfolding vidmap
  vidmap-IsAlike at screen_start v stored k k' done =
      let i = k.curr_terminal_idx in
      let mapped : Terminal → ℕ → Kernel W = λ t p. record k {
        terminals = set k.terminals i (record t { vid_on = 1 });
        paging = set_page_1 at 32 (0x800000 + p * 0x400000) (p + 1) true i k.paging;
      } in
      let result : Terminal → ℕ → Option (ℕ × Option ℕ × Kernel W) =
        λ t p. some (0, some (0x8801000 + 4096 * i), mapped t p) in
      if_elim (ltb screen_start 0x8000000 || leb 0x8400000 screen_start) done
        (λ b e. through₃ (IsAlike k) _ v none stored k k' (same k) e)
        λ b d1.
          bind_elim (get_elem? k.terminals i) (λ t. last_process t.phys_mem_idx >>= λ p. result t p)
            d1
            λ t there d2.
              bind_elim (last_process t.phys_mem_idx) (λ p. result t p) d2
                λ p e2 d3.
                  through₃ (IsAlike k) _ v _ stored (mapped t p) k'
                    (record {
                      pages = refl;
                      lists =
                          map-set (λ u. u.phys_mem_idx) k.terminals i (record t { vid_on = 1 })
                          ∙ set-same (lists_of k.terminals) i
                              (get_elem?-map (λ u. u.phys_mem_idx) k.terminals i there);
                    })
                    d3

  module _ (drivers : Drivers W) where
    pub sys_write-IsAlike :
        (fd n v : ℕ) (buf : Option (List ℕ)) (k k' : Kernel W)
        → sys_write drivers fd buf n k ≡ some (v, k')
        → IsAlike k k'
    unfolding sys_write
    sys_write-IsAlike fd n v buf k k' done =
        let alike : (w : W) → IsAlike k (record (cli k) { world = w }) =
          λ w. record { pages = refl; lists = refl } in
        let run : FileDescriptor → Option (ℕ × Kernel W) = λ f.
          if f.flags == 0
          then some (minus_one, cli k)
          else (f.file_operation_table_ptr >>= λ table.
              drivers.on_write table fd buf n k.world >>= λ r.
              some (r.0, record (cli k) { world = r.1 })) in
        if_elim ((fd == 0) || (negative fd || ltb 7 fd)) done
          (λ b e. through (IsAlike k) _ v (cli k) k' (alike k.world) e)
          λ b d1.
            bind_elim (current k)
              (λ p. get_elem? k.pcbs p >>= λ pcb.
                get_elem? pcb.file_descriptor_tabele fd >>= λ f. run f)
              d1
              λ p e1 d2.
                bind_elim (get_elem? k.pcbs p)
                  (λ pcb. get_elem? pcb.file_descriptor_tabele fd >>= λ f. run f) d2
                  λ pcb e2 d3.
                    bind_elim (get_elem? pcb.file_descriptor_tabele fd) (λ f. run f) d3
                      λ f e3 d4.
                        if_elim (f.flags == 0) d4
                          (λ b e. through (IsAlike k) _ v (cli k) k' (alike k.world) e)
                          λ b d5.
                            bind_elim f.file_operation_table_ptr
                              (λ table. drivers.on_write table fd buf n k.world >>= λ r.
                                some (r.0, record (cli k) { world = r.1 }))
                              d5
                              λ table e5 d6.
                                bind_elim (drivers.on_write table fd buf n k.world)
                                  (λ r. some (r.0, record (cli k) { world = r.1 })) d6
                                  λ r e6 d7.
                                    through (IsAlike k) (r.0) v (record (cli k) { world = r.1 }) k'
                                      (alike (r.1)) d7

    pub sys_read-IsAlike :
        (fd n v : ℕ) (buf out : Option (List ℕ)) (k k' : Kernel W)
        → sys_read drivers fd buf n k ≡ some (v, out, k')
        → IsAlike k k'
    unfolding sys_read
    sys_read-IsAlike fd n v buf out k k' done =
        let after : ℕ → Pcb → FileDescriptor → W → Kernel W = λ p pcb f w.
          record (put_table p pcb (set pcb.file_descriptor_tabele fd f) (cli k)) { world = w } in
        let run : ℕ → Pcb → FileDescriptor → Option (ℕ × Option (List ℕ) × Kernel W) = λ p pcb f.
          if f.flags == 0
          then some (minus_one, buf, cli k)
          else (call_read drivers f buf n k.world >>= λ r. some (r.0, r.2, after p pcb r.1 r.3)) in
        if_elim ((fd == 1) || (negative fd || ltb 7 fd)) done
          (λ b e.
            through₃ (IsAlike k) _ v buf out (cli k) k' (record { pages = refl; lists = refl }) e)
          λ b d1.
            bind_elim (current k)
              (λ p. get_elem? k.pcbs p >>= λ pcb.
                get_elem? pcb.file_descriptor_tabele fd >>= λ f. run p pcb f)
              d1
              λ p e1 d2.
                bind_elim (get_elem? k.pcbs p)
                  (λ pcb. get_elem? pcb.file_descriptor_tabele fd >>= λ f. run p pcb f) d2
                  λ pcb e2 d3.
                    bind_elim (get_elem? pcb.file_descriptor_tabele fd) (λ f. run p pcb f) d3
                      λ f e3 d4.
                        if_elim (f.flags == 0) d4
                          (λ b e.
                            through₃ (IsAlike k) _ v buf out (cli k) k'
                              (record { pages = refl; lists = refl }) e)
                          λ b d5.
                            bind_elim (call_read drivers f buf n k.world)
                              (λ r. some (r.0, r.2, after p pcb r.1 r.3)) d5
                              λ r e5 d6.
                                through₃ (IsAlike k) (r.0) v (r.2) out (after p pcb r.1 r.3) k'
                                  (record { pages = refl; lists = refl }) d6

    open_at-IsAlike :
        (filename : List ℕ) (d : Dentry) (p : ℕ) (pcb : Pcb) (fd : Option ℕ) (v : ℕ)
        (k k' : Kernel W)
        → open_at drivers filename d p pcb (cli k) fd ≡ some (v, k')
        → IsAlike k k'
    unfolding open_at
    open_at-IsAlike filename d p pcb none v k k' done =
        through (IsAlike k) _ v (cli k) k' (record { pages = refl; lists = refl }) done
    open_at-IsAlike filename d p pcb (some fd) v k k' done =
        let table : W → Kernel W = λ w.
          record (put_table p pcb (set pcb.file_descriptor_tabele fd (opened d)) (cli k)) {
            world = w;
          } in
        bind_elim (call_open drivers (opened d) filename k.world) (λ w. some (fd, table w)) done
          λ w e1 d1.
            through (IsAlike k) fd v (table w) k' (record { pages = refl; lists = refl }) d1

    open_entry-IsAlike :
        (filename : List ℕ) (d : Dentry) (v : ℕ) (k k' : Kernel W)
        → open_entry drivers filename d (cli k) ≡ some (v, k')
        → IsAlike k k'
    unfolding open_entry
    open_entry-IsAlike filename d v k k' done =
        bind_elim (current k)
          (λ p. get_elem? k.pcbs p >>= λ pcb.
            open_at drivers filename d p pcb (cli k) (free_descriptor 0 pcb.file_descriptor_tabele))
          done
          λ p e1 d1.
            bind_elim (get_elem? k.pcbs p)
              (λ pcb.
                open_at drivers filename d p pcb (cli k)
                  (free_descriptor 0 pcb.file_descriptor_tabele))
              d1
              λ pcb e2 d2.
                open_at-IsAlike filename d p pcb (free_descriptor 0 pcb.file_descriptor_tabele) v k
                  k' d2

    pub sys_open-IsAlike :
        (img : Image) (blank : Dentry) (filename : Option (List ℕ)) (v : ℕ) (k k' : Kernel W)
        → sys_open drivers img blank filename k ≡ some (v, k')
        → IsAlike k k'
    unfolding sys_open
    sys_open-IsAlike img blank none v k k' done =
        through (IsAlike k) _ v (cli k) k' (record { pages = refl; lists = refl }) done
    sys_open-IsAlike img blank (some filename) v k k' done =
        bind_elim (read_dentry_by_name img (some filename) blank)
          (λ r.
            if r.0 == minus_one
            then some (minus_one, cli k)
            else open_entry drivers filename r.1 (cli k))
          done
          λ r found d1.
            if_elim (r.0 == minus_one) d1
              (λ b e. through (IsAlike k) _ v (cli k) k' (record { pages = refl; lists = refl }) e)
              (λ b e. open_entry-IsAlike filename (r.1) v k k' e)
