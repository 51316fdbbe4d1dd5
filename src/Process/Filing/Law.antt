-- ===== src/Process/Filing/Law.antt =====
-- file_system.c: the functions in its jump tables keep to the interface of the drivers.
use illinix_os.Base.{
  ℕ, ◌≡◌, refl, ap, subst, Option, some, List, ◌==◌, ◌&&◌, bind_elim, if_elim, get_elem?,
}
use mathlib.Core.Option.{some-injective}
use illinix_os.Descriptor.{FileOperationTable, FileDescriptor, stdin, stdout, rtc, dir, file}
use illinix_os.FileSystem.{Image, read_data}
use illinix_os.FileSystem.Files.{Globals, ReadResult, file_read, dir_read}
use illinix_os.Process.{Drivers}
use illinix_os.Process.Driving.{IsDriver}
use illinix_os.Process.Filing.{FileWorld, behind, read_other, read_with, file_drivers}

-- What a driver keeps of a descriptor.
record IsKept (f f' : FileDescriptor) : Type 0 where
  pub pointer : f'.file_operation_table_ptr ≡ f.file_operation_table_ptr
  pub flag : f'.flags ≡ f.flags

-- `file_read` moves the position of the descriptor and leaves the rest of it.
file_read-IsKept :
    (img : Image) (f : FileDescriptor) (buf : List ℕ) (n : ℕ) (g : Globals) (r : ReadResult)
    → file_read img f buf n g ≡ some r
    → IsKept f r.descriptor
unfolding file_read
file_read-IsKept img f buf n g r done =
    bind_elim (read_data img f.inode f.file_position buf n) _ done λ (len, out) e d1.
      if_elim ((len == 0) && (g.last_round == 0)) d1
        (λ b d2.
          bind_elim (get_elem? img.inode_addr f.inode) _ d2
            λ node e' d3. same d3 (record { pointer = refl; flag = refl }))
        λ b d2.
          if_elim ((len == 0) && (g.last_round == 1)) d2
            (λ b d3. same d3 (record { pointer = refl; flag = refl }))
            λ b d3. same d3 (record { pointer = refl; flag = refl })
  where
    same : {r' : ReadResult} → some r' ≡ some r → IsKept f r'.descriptor → IsKept f r.descriptor
    same h = subst (λ q. IsKept f q.descriptor) (some-injective _ _ h)

module _ {V : Type 0} (img : Image) (drivers : Drivers V) where
  other-IsKept :
      (t : FileOperationTable) (f f' : FileDescriptor) (buf buf' : Option (List ℕ)) (n v : ℕ)
      (w w' : FileWorld V)
      → IsDriver drivers
      → read_other img drivers t f buf n w ≡ some (v, f', buf', w')
      → IsKept f f'
  other-IsKept t f f' buf buf' n v w w' law done =
      bind_elim (drivers.on_read t f buf n w.others) _ done λ r e d.
        subst (IsKept f) (ap (λ q. q.1) (some-injective _ _ d)) (record {
          pointer = law.pointer t f r.1 buf r.2 n r.0 w.others r.3 e;
          flag = law.flag t f r.1 buf r.2 n r.0 w.others r.3 e;
        })

  read_with-IsKept :
      (t : FileOperationTable) (f f' : FileDescriptor) (buf buf' : Option (List ℕ)) (n v : ℕ)
      (w w' : FileWorld V)
      → IsDriver drivers
      → read_with img drivers t f buf n w ≡ some (v, f', buf', w')
      → IsKept f f'
  unfolding read_with
  read_with-IsKept file f f' buf buf' n v w w' law done =
      bind_elim (file_read img f (behind buf) n w.globals) _ done λ r e d.
        subst (IsKept f) (ap (λ q. q.1) (some-injective _ _ d))
          (file_read-IsKept img f (behind buf) n w.globals r e)
  read_with-IsKept dir f f' buf buf' n v w w' law done =
      bind_elim (dir_read img (behind buf) n w.globals) _ done λ r e d.
        subst (IsKept f) (ap (λ q. q.1) (some-injective _ _ d))
          (record { pointer = refl; flag = refl })
  read_with-IsKept stdin f f' buf buf' n v w w' law done =
      other-IsKept stdin f f' buf buf' n v w w' law done
  read_with-IsKept stdout f f' buf buf' n v w w' law done =
      other-IsKept stdout f f' buf buf' n v w w' law done
  read_with-IsKept rtc f f' buf buf' n v w w' law done =
      other-IsKept rtc f f' buf buf' n v w w' law done

  -- With the file system behind its jump tables, and with other drivers that keep to the interface,
  -- all drivers keep to it.
  pub file_drivers-IsDriver : IsDriver drivers → IsDriver (file_drivers img drivers)
  file_drivers-IsDriver law = record {
    pointer =
        λ t f f' buf buf' n v w w' h. (read_with-IsKept t f f' buf buf' n v w w' law h).pointer;
    flag = λ t f f' buf buf' n v w w' h. (read_with-IsKept t f f' buf buf' n v w w' law h).flag;
  }
