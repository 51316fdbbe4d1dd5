-- ===== src/Process/Filing/Whole.antt =====
-- system_call_handler.c and file_system.c together: a file that is opened by its name and read.
use illinix_os.Base.{
  ℕ, ◌^◌, ◌≤◌, ◌<◌, ◌≡◌, refl, ◌≢◌, ◌⊎◌, inl, inr, ◌∙◌, ap, ap₂, some, List, arith, min, length,
  get_elem?, set, get_elem?-set_self, get_elem?-lt, minus_one,
}
use illinix_os.Libc.{strlen}
use illinix_os.Descriptor.{FileDescriptor, file}
use illinix_os.FileSystem.{Image, Dentry, InodeBlock, read_dentry_by_name}
use illinix_os.FileSystem.Filled.{file_byte, IsFile, IsFilled}
use illinix_os.FileSystem.Lookup.{IsDirectory, reply, read_dentry_by_name_lem}
use illinix_os.FileSystem.Files.{Globals, file_open}
use illinix_os.FileSystem.Files.Reading.{outcome, file_read_lem}
use illinix_os.Process.{Pcb, Kernel, Drivers, opened, cli, put_table, call_open, sys_open, sys_read}
use illinix_os.Process.Calls.{IsRunning, taken, no_descriptor, sys_open_lem}
use illinix_os.Process.Transfer.{sys_read-served}
use illinix_os.Process.Filing.{FileWorld, open_with, read_with, file_drivers}

-- A descriptor of a regular file at its start.
abbrev pub at_start : ℕ → FileDescriptor
at_start inode = record {
  file_operation_table_ptr = some file;
  inode = inode;
  file_position = 0;
  flags = 1;
}

opened_file : (d : Dentry) → d.file_type ≡ 2 → opened d ≡ at_start d.inode_idx
opened_file d e = rw e refl

-- The first read from the start returns the bytes asked for, or all that the file has.
outcome-start :
    (node : InodeBlock) (i n : ℕ) (g : Globals) (out : List ℕ)
    → g.last_round ≡ 0
    → ((outcome node (at_start i) n g out).value ≡ min n node.length)
      × ((outcome node (at_start i) n g out).buf ≡ out)
outcome-start node i n g out e = (ground arith, ground arith)

module _ {V : Type 0} (img : Image) (drivers : Drivers V) where
  -- `file_open` behind `open`: it does not fault, and the next read is a first one.
  open_file :
      (filename : List ℕ) {len : ℕ} (w : FileWorld V)
      → strlen filename ≡ some len
      → IsDirectory img
      → (g : Globals) × (g.last_round ≡ 0)
        × (open_with img drivers file filename w ≡ some (record w { globals = g }))
  unfolding open_with file_open
  open_file filename w asked dir =
      let (r, e, first) =
        read_dentry_by_name_lem img filename w.globals.curr_file_dentry asked dir in
      (
        record (w.globals) {
          last_round = 0;
          curr_file_dentry = (reply w.globals.curr_file_dentry r).1;
        },
        refl,
        rw e refl,
      )

  -- `read` of a descriptor at the start of a file, when the next read is a first one.
  sys_read-start :
      (fd n : ℕ) (buf : List ℕ) (k : Kernel (FileWorld V)) (p i : ℕ) (pcb : Pcb) (node : InodeBlock)
      → IsRunning k p pcb
      → fd ≢ 1
      → fd < 8
      → get_elem? pcb.file_descriptor_tabele fd ≡ some (at_start i)
      → k.world.globals.last_round ≡ 0
      → IsFile img node
      → get_elem? img.inode_addr i ≡ some node
      → i < img.boot_block.inode_num
      → 0 < node.length
      → 0 < n
      → n < 2147483648
      → min n node.length ≤ length buf
      → (out : List ℕ) × (k' : Kernel (FileWorld V)) × (sys_read
            (file_drivers img drivers)
            fd
            (some buf)
            n
            k
          ≡ some (min n node.length, some out, k'))
        × IsFilled (file_byte img node) 0 (min n node.length) buf out
  unfolding read_with
  sys_read-start fd n buf k p i pcb node r ne low there first whole here valid full pos word room =
      let g = k.world.globals in
      let (out, e, filled) =
        file_read_lem img node n (at_start i) buf g whole
          (record { here = here; valid = valid; nonempty = full; within = omega arith }) pos word
          (omega (arith, first)) (omega (arith, room)) in
      let done = outcome node (at_start i) n g out in
      let (count, same) = outcome-start node i n g out first in
      let after : Kernel (FileWorld V) =
        record (put_table p pcb (set pcb.file_descriptor_tabele fd done.descriptor) (cli k)) {
          world = record (k.world) { globals = done.globals };
        } in
      (
        out,
        after,
        sys_read-served (file_drivers img drivers) fd (some buf) n k p pcb (at_start i) file r ne
              low (record { there = there; used = λ e. omega arith; driver = refl })
            ∙ rw e (ap₂ (λ v b. some (v, some b, after)) count same),
        record {
          same_length = filled.same_length;
          inside = λ j l u. filled.inside j l (omega arith) ∙ ap (file_byte img node) (omega arith);
          outside = λ j o. filled.outside j (grind arith);
        },
      )

  -- A regular file that is opened by its name and read. In a process whose block is whole, on a whole
  -- image, `open` takes a free descriptor, and `read` of `n` bytes from it then returns the count of
  -- the bytes of the file, but not more than `n`, and puts just these bytes, found through the blocks
  -- of the file, into the front of the buffer; or no descriptor is free, and `open` returns -1.
  pub sys_read-sys_open :
      (blank : Dentry) (filename : List ℕ) {len : ℕ} (d : Dentry) (node : InodeBlock) (n : ℕ)
      (buf : List ℕ) (k : Kernel (FileWorld V)) (p : ℕ) (pcb : Pcb)
      → IsRunning k p pcb
      → strlen filename ≡ some len
      → IsDirectory img
      → read_dentry_by_name img (some filename) blank ≡ some (0, d)
      → d.file_type ≡ 2
      → get_elem? img.inode_addr d.inode_idx ≡ some node
      → d.inode_idx < img.boot_block.inode_num
      → IsFile img node
      → 0 < node.length
      → 0 < n
      → n < 2 ^ 31
      → min n node.length ≤ length buf
      → ((fd : ℕ) × (k1 k2 : Kernel (FileWorld V)) × (out : List ℕ) × (sys_open
              (file_drivers img drivers)
              img
              blank
              (some filename)
              k
            ≡ some (fd, k1))
          × (sys_read (file_drivers img drivers) fd (some buf) n k1
              ≡ some (min n node.length, some out, k2))
          × IsFilled (file_byte img node) 0 (min n node.length) buf out)
        ⊎ (((j : ℕ) (f : FileDescriptor)
              → get_elem? pcb.file_descriptor_tabele j ≡ some f
              → f.flags ≢ 0)
            × (sys_open (file_drivers img drivers) img blank (some filename) k
                ≡ some (minus_one, cli k)))
  sys_read-sys_open blank filename d node n buf k p pcb r asked dir found regular here valid whole
        full pos word room =
      let fds = pcb.file_descriptor_tabele in
      let (g, first, opening) = open_file filename k.world asked dir in
      let called : call_open (file_drivers img drivers) (opened d) filename k.world
          ≡ some (record (k.world) { globals = g }) =
        rw (opened_file d regular) opening in
      elim (sys_open_lem (file_drivers img drivers) img blank filename d k p pcb
        (record (k.world) { globals = g }) r found called) [
          | taken fd high low clear e table ↦
              let pcb1 = record pcb { file_descriptor_tabele = set fds fd (opened d) } in
              let k1 : Kernel (FileWorld V) =
                record (put_table p pcb (set fds fd (opened d)) (cli k)) {
                  world = record (k.world) { globals = g };
                } in
              let (out, k2, e2, filled) =
                sys_read-start fd n buf k1 p d.inode_idx pcb1 node
                  (record {
                    here = r.here;
                    block = get_elem?-set_self k.pcbs p pcb1 (get_elem?-lt k.pcbs p r.block);
                    table = table;
                  })
                  (λ one. omega arith) low
                  (get_elem?-set_self fds fd (opened d) (get_elem?-lt fds fd clear)
                    ∙ ap some (opened_file d regular))
                  first whole here valid full pos word room in
              inl (fd, k1, k2, out, e, e2, filled)
          | no_descriptor used e ↦ inr (used, e)
        ]
