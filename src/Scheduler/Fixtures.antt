-- ===== src/Scheduler/Fixtures.antt =====
-- A scheduler with a driver's process and nothing to run, for tests of the drivers.
use speedy_os.Common.{true, false, none, some, [], ◌∷◌, update}
use speedy_os.Scheduler.State.{Scheduler, Process, Thread, normal, kernel_directory}
use speedy_os.Scheduler.Lifecycle.{cleared}

-- The driver's process, with one thread that listens to the events 4.
abbrev pub driver : Process
driver = record {
  id = 1;
  suspended = false;
  directories = 0;
  hooked_threads = record { thread_id = 1; enabled_event_ids = 4; handler = 0x0800_4000 } ∷ [];
  total_cpu_time = 0;
  name = [];
  threads = [];
  kernel_thread_page = 0x0122_0000;
  kernel_blocks = [];
  steady_sinks = [];
}

abbrev pub idle : Scheduler
idle = record {
  elapsed_ms = 0;
  time_slice_ms = 5;
  scheduler_idle_time_ms = 0;
  scheduler_running_time_ms = 0;
  timer_preempt = true;
  current_thread = none;
  temporary_registers = none;
  virtual_temporary_registers = 0;
  temporary_eip = 0;
  directory = kernel_directory;
  thread_list = [];
  process_list = (1, 8) ∷ [];
  thread_event_queue = [];
  thread_execution_queue = [];
  threads = λ t. none;
  processes = update (λ p. none) 8 (some driver);
  memory = λ a. 0;
  data_meta = [];
  reserved_blocks = 0;
  next_thread_id = 4;
  next_process_id = 2;
  process_name_list = [];
  scheduler_event_process = none;
  active_sinks = [];
  fpu_boot_state = 0;
}

-- A thread of the driver's process.
abbrev pub worker : Thread
worker = record {
  id = 1;
  registers = cleared;
  virtual_registers = 0x0640_1004;
  backup_registers = cleared;
  execution_policy = normal;
  suspended = false;
  parked = false;
  processing_event = false;
  process = 8;
  resume_time = 0;
  virtual_stack = 0x0640_2000;
  physical_stack = 0x0130_0000;
  kernel_block = 0;
}
