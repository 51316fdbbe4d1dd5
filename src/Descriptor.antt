-- ===== src/Descriptor.antt =====
-- lib.h: `file_descriptor_t` and `file_operation_table_t`. A table of operations is known by the
-- driver that filled it in.
use illinix_os.Base.{ℕ, Option}

-- The jump tables: `stdin_jumptable`, `stdout_jumptable`, `RTC_jumptable`, `DIR_jumptable` and
-- `FILE_jumptable`.
pub data FileOperationTable : Type 0 where
  stdin stdout rtc dir file : FileOperationTable

-- `file_descriptor_t`; `none` is the null pointer.
pub record FileDescriptor : Type 0 where
  pub file_operation_table_ptr : Option FileOperationTable
  pub inode : ℕ
  pub file_position : ℕ
  pub flags : ℕ
