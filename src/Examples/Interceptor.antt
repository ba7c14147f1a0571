-- ===== src/Examples/Interceptor.antt =====
-- a1/interceptor.c at concrete inputs: a kernel with ten system calls, as the module finds it and
-- while it is at work.
use csc369group.Prelude.{
  ℕ, refl, true, false, Option, none, some, [], ◌∷◌, pos, arith, if◌then◌else◌, ◌==◌,
}
use csc369group.Bits.{bit}
use csc369group.Interceptor.State.{Handler, original, generic, MyTable, Kernel, Config, Context}
use csc369group.Interceptor.Invariant.{EntryIsValid, IsValid}
use csc369group.Interceptor.Requests.Monitoring.{IsCaller}
use csc369group.Interceptor.Module.{fresh_entry}
use csc369group.Interceptor.Module.Lifetime.{IsPristine}

abbrev pub config : Config
config = record { nr_syscalls = 10; nr_exit_group = 3; page_rw = 1 }

-- Processes 42 and 50 exist; 50 belongs to user 8.
abbrev pub owners : ℕ → ℕ → Option ℕ
owners uid pid = if pid == 42 then some uid else if pid == 50 then some 8 else none

abbrev pub by_root : Context
by_root = record { current_pid = 42; current_uid = 0; task_uid = owners 0; kmalloc = true }

abbrev pub by_user : Context
by_user = record { current_pid = 42; current_uid = 7; task_uid = owners 7; kmalloc = true }

abbrev pub without_memory : Context
without_memory = record { current_pid = 42; current_uid = 0; task_uid = owners 0; kmalloc = false }

-- The kernel before the module is loaded.
abbrev pub found : Kernel
found = record {
  table = λ n. fresh_entry (original n);
  sys_call_table = original;
  table_pte = 1;
  calltable_lock = false;
  pidlist_lock = false;
  orig_custom_syscall = original 0;
  orig_exit_group = original 3;
  log = [];
}

pub found-IsPristine : IsPristine config found
unfolding bit
found-IsPristine = record {
  read_only = refl;
  mapped = omega arith;
  exit_call = omega arith;
  exit_known = omega arith;
  foreign = λ n. ground arith;
  beyond = λ n h. refl;
}

-- Call 5 is intercepted for process 42, call 6 for all but those on a blacklist that holds only the 0 that marks it.
abbrev pub entries : ℕ → MyTable
entries n =
    if n == 5
    then record {
      f = original 5;
      intercepted = 1;
      monitored = 1;
      listcount = pos 1;
      my_list = 42 ∷ [];
    }
    else if n == 6
    then record {
      f = original 6;
      intercepted = 1;
      monitored = 2;
      listcount = pos 1;
      my_list = 0 ∷ [];
    }
    else record { f = original n; intercepted = 0; monitored = 0; listcount = pos 0; my_list = [] }

abbrev pub calls : ℕ → Handler
calls n = if n == 5 then generic else if n == 6 then generic else original n

abbrev pub working : Kernel
working = record {
  table = entries;
  sys_call_table = calls;
  table_pte = 1;
  calltable_lock = false;
  pidlist_lock = false;
  orig_custom_syscall = original 0;
  orig_exit_group = original 3;
  log = [];
}

pub entries-IsValid : (n : ℕ) → EntryIsValid (entries n)
entries-IsValid n = record {
  counted = ground arith;
  mode = ground arith;
  idle = ground arith;
  saved = ground arith;
}

pub working-IsValid : IsValid config working
unfolding bit
working-IsValid = record {
  calltable_free = refl;
  pidlist = refl;
  read_only = refl;
  mapped = omega arith;
  entries = entries-IsValid;
  hooks = λ n h. ground arith;
  flags = λ n. ground arith;
  originals = (ground arith, ground arith);
}

pub root-IsCaller : IsCaller by_root
root-IsCaller = record { exists = refl }

pub user-IsCaller : IsCaller by_user
user-IsCaller = record { exists = refl }

pub poor-IsCaller : IsCaller without_memory
poor-IsCaller = record { exists = refl }
