-- ===== src/Interceptor/Module.antt =====
-- a1/interceptor.c: the functions that take the place of system calls, and the module's start and end.
pub mod Watch
pub mod Lifetime
use csc369group.Prelude.{
  ℕ, zero, suc, ◌+◌, false, ◌&&◌, ◌||◌, [], ◌∷◌, pos, exceeds, if◌then◌else◌, ◌==◌, update,
}
use csc369group.Interceptor.State.{
  Handler, custom, exiting, MyTable, PtRegs, Config, Context, ok, Cmd, pure, ◌>>=◌, ◌>>◌, kernel,
  put_entry, lock_calltable, unlock_calltable, lock_pidlist, unlock_pidlist, set_addr_rw,
  set_addr_ro, store_call,
}
use csc369group.Interceptor.Pids.{del_pid, check_pid_monitored}

-- `log_message`: one more line of the kernel's log.
unfoldable pub log_message : Context → PtRegs → Cmd (Unit {0})
log_message x r k = ok tt (record k { log = record { pid = x.current_pid; regs = r } ∷ k.log })

-- The tail call `table[reg.ax].f(reg)` is the result: the handler that is called.
unfoldable pub call_original : PtRegs → Cmd Handler
call_original r k = ok (k.table r.ax).f k

unfoldable pub interceptor : Context → PtRegs → Cmd Handler
unfolding log_message call_original check_pid_monitored
interceptor x r = do
  k ← kernel
  let e = k.table r.ax
  let listed = check_pid_monitored r.ax x.current_pid k
  if e.monitored == 2 && exceeds e.listcount 1
      then (if listed then call_original r else (do log_message x r; call_original r))
      else if listed || e.monitored == 2
      then (do log_message x r; call_original r)
      else call_original r

-- The result is the function that is called last, with the exit status of the process.
unfoldable pub my_exit_group : Config → Context → (status : ℕ) → Cmd (Handler × ℕ)
my_exit_group c x status = do
  lock_pidlist
  found ← del_pid c x.current_pid
  unlock_pidlist
  k ← kernel
  pure (k.orig_exit_group, status)

-- An entry of `table` after the loop of `init_function`.
unfoldable pub fresh_entry : Handler → MyTable
fresh_entry h = record { f = h; intercepted = 0; monitored = 0; listcount = pos 0; my_list = [] }

-- `for (i = 0; i < NR_syscalls + 1; i++)`: the first `rounds` entries.
unfoldable pub init_table : (rounds : ℕ) → (ℕ → Handler) → (ℕ → MyTable) → ℕ → MyTable
unfolding fresh_entry
init_table zero calls t = t
init_table (suc n) calls t = update (init_table n calls t) n (fresh_entry (calls n))

-- `spin_lock_init`
unfoldable pub init_locks : Cmd (Unit {0})
init_locks k = ok tt (record k { calltable_lock = false; pidlist_lock = false })

unfoldable pub init_bookkeeping : Config → Cmd (Unit {0})
unfolding init_table
init_bookkeeping c k =
    ok tt (record k { table = init_table (c.nr_syscalls + 1) k.sys_call_table k.table })

unfoldable pub save_originals : Config → Cmd (Unit {0})
save_originals c k = ok tt (record k {
  orig_custom_syscall = k.sys_call_table 0;
  orig_exit_group = k.sys_call_table c.nr_exit_group;
})

-- `table[n].intercepted = 1`
unfoldable pub mark_intercepted : ℕ → Cmd (Unit {0})
mark_intercepted n = do k ← kernel; put_entry n (record (k.table n) { intercepted = 1 })

unfoldable pub init_function : Config → Cmd (Unit {0})
unfolding init_locks init_bookkeeping save_originals mark_intercepted
init_function c = do
  init_locks
  lock_calltable
  set_addr_rw c
  save_originals c
  store_call c 0 custom
  store_call c c.nr_exit_group exiting
  set_addr_ro c
  init_bookkeeping c
  mark_intercepted 0
  mark_intercepted c.nr_exit_group
  unlock_calltable

unfoldable pub exit_function : Config → Cmd (Unit {0})
exit_function c = do
  lock_calltable
  set_addr_rw c
  k ← kernel
  store_call c 0 k.orig_custom_syscall
  k ← kernel
  store_call c c.nr_exit_group k.orig_exit_group
  set_addr_ro c
  unlock_calltable
