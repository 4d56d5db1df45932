-- ===== src/Worker/Writes.antt =====
-- producer.c: the two steps of a write are the call of the function.
use so_pr2_synchronization.Base.{◌≡◌, true, arith, Option, Text}
use so_pr2_synchronization.Files.{Syscalls, open_truncated, fill, write_file}
use so_pr2_synchronization.Worker.{Shared, write_memory, write_memory_processes_on_waiting}

-- If the file can be opened and no other access comes between them, the two halves of a write of the
-- memory, or of the waiting list, leave what the whole call leaves, and the call returns when the
-- second half does.
pub write_halves :
    (calls : Syscalls) (t : Option Text) (s : Shared)
    → calls.open_ok ≡ true
    → let opened = (open_truncated calls s.memory).1 in
      let opened' = (open_truncated calls s.on_waiting).1 in
      (write_memory calls t s
        ≡ ((fill calls t opened).0, record s { memory = (fill calls t opened).1 }))
      × (write_memory_processes_on_waiting calls t s
          ≡ ((fill calls t opened').0, record s { on_waiting = (fill calls t opened').1 }))
unfolding write_memory write_memory_processes_on_waiting write_file open_truncated
write_halves calls t s e = (ground arith, ground arith)
