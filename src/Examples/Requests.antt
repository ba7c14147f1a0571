-- ===== src/Examples/Requests.antt =====
-- a1/interceptor.c: the handler and the module's functions, run and reasoned about at concrete inputs.
use csc369group.Prelude.{ℕ, ◌≡◌, ◌≢◌, refl, false, [], ◌∷◌, pos, arith, update}
use csc369group.Bits.{bit, set_bit, clear_bit}
use csc369group.Interceptor.State.{
  generic, Kernel, ok, Status, success, eperm, ebusy, enomem, ◌>>=◌, pure, lock_calltable,
  unlock_calltable, lock_pidlist, unlock_pidlist, set_addr_rw, set_addr_ro, store_call,
}
use csc369group.Interceptor.Pids.{contains, set_monitored, add_pid_sysc}
use csc369group.Interceptor.Invariant.{IsValid, Returns}
use csc369group.Interceptor.Invariant.Rules.{Keeps}
use csc369group.Interceptor.Requests.{
  no_such_task, intercept_locked, start_monitoring_pid, stop_monitoring_pid, my_syscall,
}
use csc369group.Interceptor.Requests.Monitoring.{has_right}
use csc369group.Interceptor.Requests.Calls.{hooked, release-intercept, intercept_locked_twice}
use csc369group.Interceptor.Requests.Outcomes.{
  IsAdmissible, start-ebusy, monitoring-eperm, stop-start, start-enomem, start_all-enomem,
}
use csc369group.Interceptor.Requests.Valid.{my_syscall-IsValid}
use csc369group.Interceptor.Module.{init_table, init_function}
use csc369group.Interceptor.Module.Lifetime.{initialised, init_function_lem}
use csc369group.Interceptor.Reach.{request, here, next, Reach-IsValid}
use csc369group.Examples.Interceptor.{
  config, by_root, by_user, without_memory, found, found-IsPristine, entries, entries-IsValid,
  working, working-IsValid, root-IsCaller, user-IsCaller, poor-IsCaller,
}

-- Process 50 is added to the list of call 5.
my_syscall-adds :
    my_syscall config by_root (pos 3) (pos 5) (pos 50) working
    ≡ ok success (record working {
      table =
          update
            (update entries 5 (entries 5))
            5
            (record (entries 5) { my_list = 50 ∷ 42 ∷ []; listcount = pos 2 });
    })
unfolding my_syscall lock_pidlist set_monitored add_pid_sysc unlock_pidlist
my_syscall-adds = refl

-- The call numbers 0 and NR_syscalls + 1 are refused.
my_syscall-bounds :
    (my_syscall config by_root (pos 1) (pos 0) (pos 0) working ≡ ok Status.einval working)
    × (my_syscall config by_root (pos 1) (pos 11) (pos 0) working ≡ ok Status.einval working)
unfolding my_syscall
my_syscall-bounds = (refl, refl)

my_syscall_example : Keeps config false (my_syscall config by_user (pos 3) (pos 5) (pos 42) working)
my_syscall_example =
    my_syscall-IsValid by_user user-IsCaller working-IsValid (pos 3) (pos 5) (pos 42)

-- The module is loaded and call 5 intercepted.
intercepted :
    my_syscall config by_root (pos 1) (pos 5) (pos 0) (initialised config found)
    ≡ ok success (hooked config 5 (initialised config found))
unfolding my_syscall lock_calltable unlock_calltable set_addr_rw set_addr_ro store_call bit set_bit
    clear_bit init_table
intercepted = refl

pristine_init : init_function config found ≡ ok tt (initialised config found)
unfolding bit
pristine_init = init_function_lem config found refl (omega arith)

Reach_example : IsValid config (hooked config 5 (initialised config found))
Reach_example =
    Reach-IsValid found-IsPristine pristine_init
      (next here (request by_root (pos 1) (pos 5) (pos 0) success root-IsCaller intercepted))

release_example :
    Returns
      (λ s k'.
        (s ≡ success)
        × ((m : ℕ) → k'.sys_call_table m ≡ working.sys_call_table m)
        × ((m : ℕ) → (k'.table m).intercepted ≡ (working.table m).intercepted))
      ((my_syscall config by_root (pos 1) (pos 7) (pos 0) >>= λ s. elim s [
        | Status.success ↦ my_syscall config by_root (pos 2) (pos 7) (pos 0)
        | other ↦ pure other
      ])
        working)
release_example =
    release-intercept config by_root 7 (pos 0) (pos 0) working-IsValid refl (omega arith)
      (omega arith) refl

twice_example :
    Returns
      (λ s k'. (s ≡ success) × ((k'.table 7).f ≡ generic))
      ((intercept_locked config by_root 7 >>= λ _. intercept_locked config by_root 7) working)
twice_example = intercept_locked_twice config by_root 7 working-IsValid

-- Requests that pass the first tests.
root-IsAdmissible : IsAdmissible by_root 5 50 working
unfolding no_such_task has_right
root-IsAdmissible = record { task = refl; intercepted = omega arith; right = refl }

all-IsAdmissible : IsAdmissible by_root 6 42 working
unfolding no_such_task has_right
all-IsAdmissible = record { task = refl; intercepted = omega arith; right = refl }

poor_all-IsAdmissible : IsAdmissible without_memory 5 0 working
unfolding no_such_task has_right
poor_all-IsAdmissible = record { task = refl; intercepted = omega arith; right = refl }

listed_50 : contains 50 (working.table 5).my_list ≡ false
unfolding contains
listed_50 = refl

listed_0 : contains 0 (working.table 5).my_list ≡ false
unfolding contains
listed_0 = refl

ebusy_example :
    (k' : Kernel) × (start_monitoring_pid by_root 6 42 working ≡ ok ebusy k')
    × ((m : ℕ) → k'.table m ≡ working.table m)
ebusy_example = start-ebusy by_root root-IsCaller 6 42 working all-IsAdmissible refl refl

task_50 : no_such_task by_user 50 ≡ false
unfolding no_such_task
task_50 = refl

no_right_50 : has_right by_user 50 ≡ false
unfolding has_right
no_right_50 = refl

eperm_example :
    (start_monitoring_pid by_user 5 50 working ≡ ok eperm working)
    × (stop_monitoring_pid by_user 5 50 working ≡ ok eperm working)
eperm_example =
    monitoring-eperm by_user user-IsCaller 5 50 working task_50 (omega arith) no_right_50

stop_start_example :
    Returns
      (λ s k'.
        (s ≡ success)
        × ((k'.table 5).my_list ≡ (working.table 5).my_list)
        × ((k'.table 5).listcount ≡ (working.table 5).listcount)
        × ((m : ℕ) → m ≢ 5 → k'.table m ≡ working.table m))
      ((start_monitoring_pid by_root 5 50 >>= λ _. stop_monitoring_pid by_root 5 50) working)
stop_start_example =
    stop-start by_root root-IsCaller 5 50 working root-IsAdmissible refl (omega arith) (omega arith)
      listed_50 refl (entries-IsValid 5)

-- Call 7 has been intercepted, and nothing is monitored yet.
abbrev unmonitored : Kernel
unmonitored = hooked config 7 working

unmonitored-IsAdmissible : IsAdmissible without_memory 7 50 unmonitored
unfolding no_such_task has_right
unmonitored-IsAdmissible = record { task = refl; intercepted = omega arith; right = refl }

unlisted_50 : contains 50 (unmonitored.table 7).my_list ≡ false
unfolding contains
unlisted_50 = refl

unmonitored_7 : (unmonitored.table 7).monitored ≡ 0
unmonitored_7 = refl

enomem_example :
    Returns
      (λ s k'.
        (s ≡ enomem)
        × ((k'.table 7).monitored ≡ 1)
        × (k'.table 7 ≡ record (unmonitored.table 7) { monitored = 1 })
        × ((j : ℕ) → j ≢ 7 → k'.table j ≡ unmonitored.table j)
        × (k'.pidlist_lock ≡ false))
      (start_monitoring_pid without_memory 7 50 unmonitored)
enomem_example =
    start-enomem without_memory poor-IsCaller 7 50 unmonitored unmonitored-IsAdmissible refl
      (omega arith) (omega arith) unlisted_50 refl

all_enomem_example :
    Returns
      (λ s k'. (s ≡ enomem) × ((k'.table 5).monitored ≡ 2) × ((k'.table 5).my_list ≡ []))
      (start_monitoring_pid without_memory 5 0 working)
all_enomem_example =
    start_all-enomem without_memory poor-IsCaller 5 working poor_all-IsAdmissible refl (omega arith)
      listed_0 refl
