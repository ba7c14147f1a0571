-- ===== src/Interceptor/Requests.antt =====
-- a1/interceptor.c: `my_syscall`, the four requests that a process makes of the module.
pub mod Calls
pub mod Monitoring
pub mod Valid
pub mod Outcomes
use csc369group.Prelude.{
  ℕ, Bool, true, false, not, ◌&&◌, ◌||◌, Option, none, some, ℤ, pos, negsuc, is, if◌then◌else◌,
  ◌==◌, ltb,
}
use csc369group.Interceptor.State.{
  generic, Config, Context, Status, success, einval, eperm, ebusy, Cmd, pure, ◌>>=◌, ◌>>◌, kernel,
  put_entry, lock_calltable, unlock_calltable, lock_pidlist, unlock_pidlist, set_addr_rw,
  set_addr_ro, store_call,
}
use csc369group.Interceptor.Pids.{
  add_pid_sysc, del_pid_sysc, destroy_list, set_monitored, check_pid_from_list, check_pid_monitored,
}

-- The REQUEST_ constants of interceptor.h.
pub data Request : Type 0 where
  intercept release start_monitoring stop_monitoring : Request

unfoldable pub request_of : ℤ → Option Request
request_of cmd =
    if is cmd 1
    then some intercept
    else if is cmd 2
    then some release
    else if is cmd 3
    then some start_monitoring
    else if is cmd 4
    then some stop_monitoring
    else none

abbrev pub succeeded : Status → Bool
succeeded success = true
succeeded _ = false

-- Release the lock and return the status of the list operation.
unfoldable pub unlock_with : Status → Cmd Status
unlock_with s = do unlock_pidlist; pure s

-- The last branch of REQUEST_STOP_MONITORING: one pid leaves the list.
unfoldable pub stop_single : (n pid : ℕ) → Cmd Status
unfolding unlock_with
stop_single n pid = do
  s ← del_pid_sysc pid n
  k ← kernel
  if not (succeeded s)
      then unlock_with s
      else if is (k.table n).listcount 0
      then (do set_monitored n 0; unlock_with success)
      else unlock_with success

-- A negative pid is refused by the first test of either request.
unfoldable pub on_pid : ℤ → (ℕ → Cmd Status) → Cmd Status
on_pid (pos pid) act = act pid
on_pid (negsuc _) act = pure einval

module _ (c : Config) (x : Context) where
  -- The critical section of REQUEST_SYSCALL_INTERCEPT.
  unfoldable pub intercept_locked : ℕ → Cmd Status
  intercept_locked n = do
    lock_calltable
    set_addr_rw c
    k ← kernel
    put_entry n (record (k.table n) { f = k.sys_call_table n })
    store_call c n generic
    k ← kernel
    put_entry n (record (k.table n) { intercepted = 1 })
    set_addr_ro c
    unlock_calltable
    pure success

  unfoldable pub intercept_call : ℕ → Cmd Status
  unfolding intercept_locked
  intercept_call n = do
    k ← kernel
    if not (x.current_uid == 0)
        then pure eperm
        else if (k.table n).intercepted == 1
        then pure ebusy
        else intercept_locked n

  unfoldable pub release_call : ℕ → Cmd Status
  release_call n = do
    k ← kernel
    if not (x.current_uid == 0)
        then pure eperm
        else if (k.table n).intercepted == 0
        then pure einval
        else do
          lock_calltable
          set_addr_rw c
          k ← kernel
          store_call c n (k.table n).f
          k ← kernel
          put_entry n (record (k.table n) { intercepted = 0 })
          set_addr_ro c
          unlock_calltable
          pure success

module _ (x : Context) where
  -- `pid != 0 && pid_task(find_vpid(pid), PIDTYPE_PID) == NULL`
  unfoldable pub no_such_task : ℕ → Bool
  no_such_task pid = not (pid == 0) && elim (x.task_uid pid) [ none ↦ true | some u ↦ false ]

  -- `current_uid() != 0 && (pid == 0 || check_pid_from_list(current->pid, pid) == -EPERM)`
  unfoldable pub denied : ℕ → Cmd Bool
  denied pid = if x.current_uid == 0 then pure false else if pid == 0 then pure true else do
    owner ← check_pid_from_list x x.current_pid pid
    pure (elim owner [ Status.eperm ↦ true | _ ↦ false ])

  -- The critical section of REQUEST_START_MONITORING.
  unfoldable pub start_locked : (n pid : ℕ) → Cmd Status
  unfolding check_pid_monitored unlock_with
  start_locked n pid = do
    k ← kernel
    if (k.table n).monitored == 2 && check_pid_monitored n pid k
        then (do s ← del_pid_sysc pid n; unlock_with s)
        else if (k.table n).monitored == 2 && not (check_pid_monitored n pid k)
        then (do unlock_pidlist; pure ebusy)
        else if pid == 0
        then (do destroy_list n; set_monitored n 2; s ← add_pid_sysc x pid n; unlock_with s)
        else (do set_monitored n 1; s ← add_pid_sysc x pid n; unlock_with s)

  unfoldable pub start_monitoring_pid : (n pid : ℕ) → Cmd Status
  unfolding check_pid_monitored no_such_task denied start_locked
  start_monitoring_pid n pid = do
    k ← kernel
    if no_such_task pid || (k.table n).intercepted == 0 then pure einval else do
      no_right ← denied pid
      if no_right
          then pure eperm
          else if check_pid_monitored n pid k
              || ((k.table n).monitored == 2 && is (k.table n).listcount 1)
          then pure ebusy
          else do lock_pidlist; start_locked n pid

  -- The critical section of REQUEST_STOP_MONITORING.
  unfoldable pub stop_locked : (n pid : ℕ) → Cmd Status
  unfolding unlock_with stop_single
  stop_locked n pid = do
    k ← kernel
    if (k.table n).monitored == 2 && not (pid == 0)
        then (do s ← add_pid_sysc x pid n; unlock_with s)
        else if pid == 0
        then (do destroy_list n; set_monitored n 0; unlock_with success)
        else stop_single n pid

  unfoldable pub stop_monitoring_pid : (n pid : ℕ) → Cmd Status
  unfolding check_pid_monitored no_such_task denied stop_locked
  stop_monitoring_pid n pid = do
    k ← kernel
    if no_such_task pid || (k.table n).intercepted == 0 then pure einval else do
      no_right ← denied pid
      if no_right
          then pure eperm
          else if not (check_pid_monitored n pid k) && not ((k.table n).monitored == 2)
          then pure einval
          else if (k.table n).monitored == 0
          then pure einval
          else do lock_pidlist; stop_locked n pid

module _ (c : Config) (x : Context) where
  -- The `switch`.
  unfoldable pub serve : Option Request → ℕ → ℤ → Cmd Status
  unfolding on_pid intercept_call release_call start_monitoring_pid stop_monitoring_pid
  serve (some intercept) n pid = intercept_call c x n
  serve (some release) n pid = release_call c x n
  serve (some start_monitoring) n pid = on_pid pid (start_monitoring_pid x n)
  serve (some stop_monitoring) n pid = on_pid pid (stop_monitoring_pid x n)
  serve none n pid = pure einval

  -- The system call must lie in 1 .. NR_syscalls (MY_CUSTOM_SYSCALL is 0).
  unfoldable pub my_syscall : (cmd syscall pid : ℤ) → Cmd Status
  unfolding request_of serve
  my_syscall cmd (negsuc _) pid = pure einval
  my_syscall cmd (pos n) pid =
      if ltb c.nr_syscalls n || n == 0 then pure einval else serve (request_of cmd) n pid
