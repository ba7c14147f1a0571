-- ===== src/Interceptor/Module/Lifetime.antt =====
-- a1/interceptor.c: the module is loaded and unloaded.
use csc369group.Prelude.{
  ℕ, zero, suc, ◌+◌, ◌≤◌, ◌<◌, ◌≡◌, ◌≢◌, refl, true, false, [], pos, arith, ◌==◌, if◌then◌else◌,
  Bool-cases, inl, inr, ltb, update, ◌∙◌, ap,
}
use csc369group.Bits.{bit, set_bit, clear_bit}
use csc369group.Bits.Laws.{bit-set_bit, clear_bit-set_bit, clear_bit_self}
use csc369group.Interceptor.State.{
  Handler, generic, custom, exiting, MyTable, Kernel, Config, ok, ◌>>=◌, ◌>>◌, unlock_calltable,
  set_addr_ro,
}
use csc369group.Interceptor.State.Runs.{
  lock_calltable-free, set_addr_rw-mapped, store_call-writable,
}
use csc369group.Interceptor.Invariant.{IsValid, Returns, returns}
use csc369group.Interceptor.Module.{fresh_entry, init_table, init_function, exit_function}

-- The kernel as the module finds it: the table of calls is mapped and read-only, and leads to none
-- of the module's functions. The entries of `table` past the array, which nothing reads, are fresh.
pub record IsPristine (c : Config) (k : Kernel) : Type 0 where
  pub read_only : bit c.page_rw k.table_pte ≡ false
  pub mapped : k.table_pte ≢ 0
  pub exit_call : 0 < c.nr_exit_group
  pub exit_known : c.nr_exit_group ≤ c.nr_syscalls
  pub foreign : (n : ℕ) → k.sys_call_table n ≢ generic
  pub beyond : (n : ℕ) → c.nr_syscalls < n → k.table n ≡ fresh_entry (k.sys_call_table n)

init_table_lem :
    (r : ℕ) (calls : ℕ → Handler) (t : ℕ → MyTable) (n : ℕ)
    → init_table r calls t n ≡ (if ltb n r then fresh_entry (calls n) else t n)
unfolding init_table
init_table_lem zero calls t n = ground arith
init_table_lem (suc r) calls t n = ground (arith, init_table_lem r calls t n)

-- `sys_call_table` while the module is loaded.
abbrev hijacked : Config → Kernel → ℕ → Handler
hijacked c k = update (update k.sys_call_table 0 custom) c.nr_exit_group exiting

abbrev marked : ℕ → (ℕ → MyTable) → ℕ → MyTable
marked n t = update t n (record (t n) { intercepted = 1 })

-- The state that `init_function` leaves.
abbrev pub initialised : Config → Kernel → Kernel
initialised c k = record k {
  table = marked c.nr_exit_group (marked 0 (init_table (c.nr_syscalls + 1) (hijacked c k) k.table));
  sys_call_table = hijacked c k;
  table_pte = clear_bit c.page_rw (set_bit c.page_rw k.table_pte);
  calltable_lock = false;
  pidlist_lock = false;
  orig_custom_syscall = k.sys_call_table 0;
  orig_exit_group = k.sys_call_table c.nr_exit_group;
}

module _ (c : Config) (k : Kernel) (ro : bit c.page_rw k.table_pte ≡ false)
    (mapped : k.table_pte ≢ 0) where
  opens : (clear_bit c.page_rw k.table_pte == 0) ≡ false
  opens = ground (arith, clear_bit_self c.page_rw k.table_pte ro, mapped)

  writable : bit c.page_rw (set_bit c.page_rw k.table_pte) ≡ true
  writable = ground (arith, bit-set_bit c.page_rw c.page_rw k.table_pte)

  closed : clear_bit c.page_rw (set_bit c.page_rw k.table_pte) ≡ k.table_pte
  closed = clear_bit-set_bit c.page_rw k.table_pte ∙ clear_bit_self c.page_rw k.table_pte ro

  pub init_function_lem : init_function c k ≡ ok tt (initialised c k)
  unfolding init_function unlock_calltable set_addr_ro
  init_function_lem =
      rw (◌>>=◌, lock_calltable-free, refl, set_addr_rw-mapped, opens)
        (rw (◌>>=◌, store_call-writable, writable) (rw (◌>>=◌, store_call-writable, writable) refl))

  exit_function_lem :
      k.calltable_lock ≡ false
      → exit_function c k
        ≡ ok tt (record k {
          sys_call_table =
              update
                (update k.sys_call_table 0 k.orig_custom_syscall)
                c.nr_exit_group
                k.orig_exit_group;
          table_pte = clear_bit c.page_rw (set_bit c.page_rw k.table_pte);
          calltable_lock = false;
        })
  unfolding exit_function unlock_calltable set_addr_ro
  exit_function_lem free =
      rw (◌>>=◌, lock_calltable-free, free, set_addr_rw-mapped, opens)
        (rw (◌>>=◌, store_call-writable, writable) (rw (◌>>=◌, store_call-writable, writable) refl))

module _ (c : Config) (k : Kernel) (p : IsPristine c k) where
  filled :
      (n : ℕ)
      → init_table (c.nr_syscalls + 1) (hijacked c k) k.table n ≡ fresh_entry (hijacked c k n)
  filled n = elim (Bool-cases (ltb n (c.nr_syscalls + 1))) [
    | inl inside ↦ init_table_lem (c.nr_syscalls + 1) (hijacked c k) k.table n ∙ rw inside refl
    | inr past ↦
        init_table_lem (c.nr_syscalls + 1) (hijacked c k) k.table n
        ∙ rw past
            (p.beyond n (ground arith) ∙ ap fresh_entry (ground (arith, p.exit_known, p.exit_call)))
  ]

  -- Entry `n` is fresh but for the mark on the two calls that the module takes over.
  entry-initialised :
      (n : ℕ)
      → let e = (initialised c k).table n in
        (e.f ≡ hijacked c k n)
        × (e.listcount ≡ pos 0)
        × (e.my_list ≡ [])
        × (e.monitored ≡ 0)
        × (e.intercepted ≤ 1)
        × (e.intercepted ≡ 0 → hijacked c k n ≡ k.sys_call_table n)
  unfolding fresh_entry
  entry-initialised n = (
    ground (arith, filled n, filled 0, filled c.nr_exit_group),
    ground (arith, filled n, filled 0, filled c.nr_exit_group),
    ground (arith, filled n, filled 0, filled c.nr_exit_group),
    ground (arith, filled n, filled 0, filled c.nr_exit_group),
    ground (arith, filled n, filled 0, filled c.nr_exit_group),
    ground (arith, filled n, filled 0, filled c.nr_exit_group),
  )

  hijacked-foreign : (n : ℕ) → hijacked c k n ≢ generic
  hijacked-foreign n = ground (arith, p.foreign n)

  initialised-IsValid : IsValid c (initialised c k)
  initialised-IsValid = record {
    calltable_free = refl;
    pidlist = refl;
    read_only = rw (closed c k p.read_only p.mapped) p.read_only;
    mapped = rw (closed c k p.read_only p.mapped) p.mapped;
    entries = λ n. record {
      counted = ground (arith, entry-initialised n);
      mode = omega (arith, (entry-initialised n).3);
      idle = λ _. (entry-initialised n).2;
      saved = rw (entry-initialised n).0 (hijacked-foreign n);
    };
    hooks = λ n _. hijacked-foreign n;
    flags = λ n. (entry-initialised n).4;
    originals = (p.foreign 0, p.foreign c.nr_exit_group);
  }

  -- Loading the module into a pristine kernel ends, with a valid state in which the calls 0 and
  -- `exit_group` lead to the module, every other entry of the system call table is as before, and
  -- no list holds a pid.
  pub init_function-IsValid :
      Returns
        (λ _ k'.
          IsValid c k'
          × (k'.sys_call_table 0 ≡ custom)
          × (k'.sys_call_table c.nr_exit_group ≡ exiting)
          × ((n : ℕ) → n ≢ 0 → n ≢ c.nr_exit_group → k'.sys_call_table n ≡ k.sys_call_table n)
          × ((n : ℕ) → (k'.table n).my_list ≡ []))
        (init_function c k)
  init_function-IsValid = rw (init_function_lem c k p.read_only p.mapped) (
      returns (
        initialised-IsValid,
        ground (arith, p.exit_call),
        ground arith,
        (λ n other_than_0 other_than_exit. ground arith),
        (λ n. (entry-initialised n).2),
      ))

  -- Loading the module into a pristine kernel and unloading it again ends, and leaves the system
  -- call table as it was.
  pub exit-init :
      Returns
        (λ _ k'. (n : ℕ) → k'.sys_call_table n ≡ k.sys_call_table n)
        ((init_function c >> exit_function c) k)
  exit-init = rw (init_function_lem c k p.read_only p.mapped) (
      rw
        (exit_function_lem c (initialised c k) (rw (closed c k p.read_only p.mapped) p.read_only)
          (rw (closed c k p.read_only p.mapped) p.mapped) refl)
        (returns λ n. ground arith))

-- Unloading the module in a valid state gives back the calls 0 and `exit_group` alone: the entry of
-- any other system call stays as it is, so one that is intercepted goes on leading to `interceptor`.
pub exit_function_others :
    (c : Config) (k : Kernel)
    → IsValid c k
    → Returns
        (λ _ k'.
          (k'.sys_call_table c.nr_exit_group ≡ k.orig_exit_group)
          × ((n : ℕ) → n ≢ 0 → n ≢ c.nr_exit_group → k'.sys_call_table n ≡ k.sys_call_table n))
        (exit_function c k)
exit_function_others c k v =
    rw (exit_function_lem c k v.read_only v.mapped v.calltable_free)
      (returns (ground arith, λ n other_than_0 other_than_exit. ground arith))
