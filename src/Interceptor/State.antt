-- ===== src/Interceptor/State.antt =====
-- a1/interceptor.c: the kernel data that the module reads and writes, and the commands over it.
-- A command is a function of the whole state; `deadlock` is a `spin_lock` of a lock that is held,
-- `oops` a write to a page that is not writable or a read through NULL.
pub mod Runs
use csc369group.Prelude.{ℕ, Bool, true, false, Option, List, ℤ, if◌then◌else◌, ◌==◌, update}
use csc369group.Bits.{bit, set_bit, clear_bit}

-- What an entry of the system call table points at: a function of the kernel, `interceptor`,
-- `my_syscall` or `my_exit_group`.
pub data Handler : Type 0 where
  original : ℕ → Handler
  generic custom exiting : Handler

-- `mytable`: what is kept for one system call. The list is in the order of `list_for_each`.
pub record MyTable : Type 0 where
  pub f : Handler
  pub intercepted : ℕ
  pub monitored : ℕ
  pub listcount : ℤ
  pub my_list : List ℕ

-- The registers of a trapped call, `struct pt_regs`.
pub record PtRegs : Type 0 where
  pub ax : ℕ
  pub bx : ℕ
  pub cx : ℕ
  pub dx : ℕ
  pub si : ℕ
  pub di : ℕ
  pub bp : ℕ

-- One call of the `log_message` macro.
pub record Message : Type 0 where
  pub pid : ℕ
  pub regs : PtRegs

pub record Kernel : Type 0 where
  pub table : ℕ → MyTable
  pub sys_call_table : ℕ → Handler
  pub table_pte : ℕ  -- the page-table entry that maps `sys_call_table`
  pub calltable_lock : Bool
  pub pidlist_lock : Bool
  pub orig_custom_syscall : Handler
  pub orig_exit_group : Handler
  pub log : List Message

-- Constants of the kernel that the module is built against.
pub record Config : Type 0 where
  pub nr_syscalls : ℕ
  pub nr_exit_group : ℕ
  pub page_rw : ℕ  -- the position of the bit `_PAGE_RW`

-- What the kernel answers during one call: the caller, the owner of each process that exists
-- (`pid_task(find_vpid(pid))` and its `real_cred->uid`), and whether `kmalloc` succeeds.
pub record Context : Type 0 where
  pub current_pid : ℕ
  pub current_uid : ℕ
  pub task_uid : ℕ → Option ℕ
  pub kmalloc : Bool

-- The results 0, -EINVAL, -EPERM, -EBUSY and -ENOMEM.
pub data Status : Type 0 where
  success einval eperm ebusy enomem : Status

pub data Run (A : Type 0) : Type 0 where
  ok : A → Kernel → Run A
  deadlock oops : Run A

abbrev pub Cmd : Type 0 → Type 0
Cmd A = Kernel → Run A

abbrev pub pure : {A : Type 0} → A → Cmd A
pure a k = ok a k

-- What follows a command runs only if the command ended.
abbrev pub and_then : {A B : Type 0} → Run A → (A → Cmd B) → Run B
and_then (ok a k) f = f a k
and_then deadlock f = deadlock
and_then oops f = oops

infixl 5 ◌>>=◌ ◌>>◌
abbrev pub ◌>>=◌ : {A B : Type 0} → Cmd A → (A → Cmd B) → Cmd B
◌>>=◌ m f k = and_then (m k) f

abbrev pub ◌>>◌ : {B : Type 0} → Cmd (Unit {0}) → Cmd B → Cmd B
m >> n = m >>= λ _. n

abbrev pub kernel : Cmd Kernel
kernel k = ok k k

-- table[sysc] = e
abbrev pub put_entry : ℕ → MyTable → Cmd (Unit {0})
put_entry sysc e k = ok tt (record k { table = update k.table sysc e })

-- spin_lock and spin_unlock
unfoldable pub lock_calltable : Cmd (Unit {0})
lock_calltable k = if k.calltable_lock then deadlock else ok tt (record k { calltable_lock = true })

unfoldable pub unlock_calltable : Cmd (Unit {0})
unlock_calltable k = ok tt (record k { calltable_lock = false })

unfoldable pub lock_pidlist : Cmd (Unit {0})
lock_pidlist k = if k.pidlist_lock then deadlock else ok tt (record k { pidlist_lock = true })

unfoldable pub unlock_pidlist : Cmd (Unit {0})
unlock_pidlist k = ok tt (record k { pidlist_lock = false })

module _ (c : Config) where
  -- `if (pte->pte &~ _PAGE_RW) pte->pte |= _PAGE_RW`
  unfoldable pub set_addr_rw : Cmd (Unit {0})
  set_addr_rw k =
      if clear_bit c.page_rw k.table_pte == 0
      then ok tt k
      else ok tt (record k { table_pte = set_bit c.page_rw k.table_pte })

  unfoldable pub set_addr_ro : Cmd (Unit {0})
  set_addr_ro k = ok tt (record k { table_pte = clear_bit c.page_rw k.table_pte })

  -- sys_call_table[n] = h, which traps where the page is read-only
  unfoldable pub store_call : ℕ → Handler → Cmd (Unit {0})
  store_call n h k =
      if bit c.page_rw k.table_pte
      then ok tt (record k { sys_call_table = update k.sys_call_table n h })
      else oops
