-- ===== src/Interceptor/Invariant.antt =====
-- a1/interceptor.c: what holds between calls of the module, and inside its critical sections.
pub mod Rules
use csc369group.Prelude.{ℕ, ◌≤◌, ◌≡◌, ◌≢◌, Bool, false, [], pos, length}
use csc369group.Bits.{bit}
use csc369group.Interceptor.State.{generic, MyTable, Kernel, Config, Run, ok}

-- One entry: the counter counts the list, and an entry that monitors nothing has an empty list.
pub record EntryIsValid (e : MyTable) : Type 0 where
  pub counted : e.listcount ≡ pos (length e.my_list)
  pub mode : e.monitored ≤ 2
  pub idle : e.monitored ≡ 0 → e.my_list ≡ []
  pub saved : e.f ≢ generic

-- `pidlist_lock` is as given and the other lock is free, the table of calls is mapped and read-only,
-- every entry is valid, and a call that is not intercepted does not lead to `interceptor`.
pub record IsConsistent (c : Config) (held : Bool) (k : Kernel) : Type 0 where
  pub calltable_free : k.calltable_lock ≡ false
  pub pidlist : k.pidlist_lock ≡ held
  pub read_only : bit c.page_rw k.table_pte ≡ false
  pub mapped : k.table_pte ≢ 0
  pub entries : (n : ℕ) → EntryIsValid (k.table n)
  pub hooks : (n : ℕ) → (k.table n).intercepted ≡ 0 → k.sys_call_table n ≢ generic
  pub flags : (n : ℕ) → (k.table n).intercepted ≤ 1
  pub originals : (k.orig_custom_syscall ≢ generic) × (k.orig_exit_group ≢ generic)

-- What holds between calls.
abbrev pub IsValid : Config → Kernel → Type 0
IsValid c k = IsConsistent c false k

-- A run that ends, in a state and with a result of which `P` holds: no deadlock and no fault.
pub data Returns {A : Type 0} (P : A → Kernel → Type 0) : Run A → Type 0 where
  returns : {a : A} {k : Kernel} → P a k → Returns P (ok a k)
