-- ===== src/Process/Execute/Fresh.antt =====
-- system_call_handler.c: the table of descriptors of a new process.
use illinix_os.Base.{refl}
use illinix_os.Descriptor.{FileOperationTable}
use illinix_os.Process.{cleared}
use illinix_os.Process.Table.{HasDriver, IsTidy, IsTable, every, cleared-HasDriver}
use illinix_os.Process.Execute.{new_table, console}

console-HasDriver : (t : FileOperationTable) → HasDriver (console t)
console-HasDriver t used = (t, refl)

console-IsTidy : (t : FileOperationTable) → IsTidy (console t)
console-IsTidy t free = absurd (cc free)

clear : HasDriver cleared
clear = cleared-HasDriver

tidy : IsTidy cleared
tidy free = refl

pub new_table-IsTable : IsTable new_table
new_table-IsTable = record {
  eight = refl;
  drivers = every HasDriver new_table (
    console-HasDriver FileOperationTable.stdin,
    (
      console-HasDriver FileOperationTable.stdout,
      (clear, (clear, (clear, (clear, (clear, (clear, tt)))))),
    ),
  );
  tidy = every IsTidy new_table (
    console-IsTidy FileOperationTable.stdin,
    (console-IsTidy FileOperationTable.stdout, (tidy, (tidy, (tidy, (tidy, (tidy, (tidy, tt))))))),
  );
  input = (console FileOperationTable.stdin, refl, refl, refl);
  output = (console FileOperationTable.stdout, refl, refl, refl);
}
