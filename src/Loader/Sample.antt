-- ===== src/Loader/Sample.antt =====
-- A loader just started, for the tests of the modules above it.
use pso.Loader.{Loader}

abbrev pub booted : Loader
booted = record {
  task_table = λ p. record { next = 0; prev = 0; cr3 = 0; esp0 = 0 };
  cur_pid = 0;
  tasks_running = 0;
  tasks_blocked = 0;
  free_pids = λ p. 0;
  next_free = 1;
  sched = record {
    tasks = λ p. record { state = 0; next = 0; prev = 0 };
    quantum = 1;
    current_pid = 0;
    last = 0;
  };
  cpu = record { cr3 = 0; esp = 0 };
}
