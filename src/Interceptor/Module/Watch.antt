-- ===== src/Interceptor/Module/Watch.antt =====
-- a1/interceptor.c: which calls `interceptor` logs, and what an exiting process leaves behind.
use csc369group.Prelude.{
  ℕ, ◌-◌, ◌≤◌, ◌<◌, ◌≡◌, ◌≢◌, refl, Bool, true, false, not, List, [], ◌∷◌, length, arith, ◌==◌,
  if◌then◌else◌, Bool-cases, inl, inr, exceeds,
}
use csc369group.Interceptor.State.{
  MyTable, PtRegs, Kernel, Config, Context, ok, unlock_pidlist, ◌>>=◌,
}
use csc369group.Interceptor.State.Runs.{lock_pidlist-free}
use csc369group.Interceptor.Pids.{contains, del_pid}
use csc369group.Interceptor.Pids.Entries.{occurrences, occurrences-purge, purge_below_lem}
use csc369group.Interceptor.Invariant.{EntryIsValid, Returns, returns}
use csc369group.Interceptor.Module.{interceptor, my_exit_group}

-- What an entry stands for, as a predicate on pids: with `monitored == 2` the list is a blacklist and
-- all other pids are watched, otherwise the listed pids are.
pub watches : MyTable → ℕ → Bool
watches e pid = if e.monitored == 2 then not (contains pid e.my_list) else contains pid e.my_list

-- A blacklist holds pid 0, which START_MONITORING puts there.
abbrev pub IsMarked : MyTable → Type 0
IsMarked e = e.monitored ≡ 2 → contains 0 e.my_list ≡ true

short_list :
    (pid : ℕ) (l : List ℕ) → contains 0 l ≡ true → length l ≤ 1 → pid ≢ 0 → contains pid l ≡ false
unfolding contains
short_list pid [] h le ne = refl
short_list pid (q ∷ []) h le ne = ground arith
short_list pid (q ∷ r ∷ l) h le ne = absurd (omega arith)

-- For a process with a pid other than 0 and a valid entry, whose blacklist, if it has one, holds
-- pid 0, `interceptor` logs the call exactly if the entry watches the process; it goes on to the
-- saved call and changes nothing else.
pub interceptor-watches :
    (x : Context) (r : PtRegs) (k : Kernel)
    → EntryIsValid (k.table r.ax)
    → IsMarked (k.table r.ax)
    → x.current_pid ≢ 0
    → interceptor x r k
      ≡ ok (k.table r.ax).f (
          if watches (k.table r.ax) x.current_pid
          then record k { log = record { pid = x.current_pid; regs = r } ∷ k.log }
          else k)
unfolding interceptor watches
interceptor-watches x r k v marked user =
    let e = k.table r.ax in
    elim (Bool-cases (e.monitored == 2)) [
      | inr single ↦ elim (Bool-cases (contains x.current_pid e.my_list)) [
        | inl listed ↦ rw (single, listed) refl
        | inr absent ↦ rw (single, absent) refl
      ]
      | inl all ↦ elim (Bool-cases (exceeds e.listcount 1)) [
        | inl long ↦ elim (Bool-cases (contains x.current_pid e.my_list)) [
          | inl listed ↦ rw (all, long, listed) refl
          | inr absent ↦ rw (all, long, absent) refl
        ]
        | inr short ↦
            let absent : contains x.current_pid e.my_list ≡ false =
              short_list x.current_pid e.my_list (marked (ground arith)) (ground (arith, v.counted))
                user in
            rw (all, short, absent) refl
      ]
    ]

-- `exit_group` with the lock free: the exiting pid is gone from the lists of the system calls
-- 1 .. NR_syscalls - 1 and every other pid stands there as often as before, entry 0 and those from
-- NR_syscalls on are untouched, the lock is free again, and the kernel's own call comes last.
pub my_exit_group_lem :
    (c : Config) (x : Context) (status : ℕ) (k : Kernel)
    → k.pidlist_lock ≡ false
    → Returns
        (λ r k'.
          (r ≡ (k.orig_exit_group, status))
          × (k'.pidlist_lock ≡ false)
          × ((n j : ℕ)
              → 0 < n
              → n < c.nr_syscalls
              → occurrences j (k'.table n).my_list
                ≡ (if j == x.current_pid then 0 else occurrences j (k.table n).my_list))
          × (k'.table 0 ≡ k.table 0)
          × ((n : ℕ) → c.nr_syscalls ≤ n → k'.table n ≡ k.table n))
        (my_exit_group c x status k)
unfolding my_exit_group del_pid unlock_pidlist
my_exit_group_lem c x status k free =
    rw (◌>>=◌, lock_pidlist-free, free)
      (returns (
        refl,
        refl,
        (λ n j low high. ground (
          arith,
          purge_below_lem x.current_pid (c.nr_syscalls - 1) k.table n,
          occurrences-purge x.current_pid j (k.table n),
        )),
        ground (arith, purge_below_lem x.current_pid (c.nr_syscalls - 1) k.table 0),
        (λ n high. ground (arith, purge_below_lem x.current_pid (c.nr_syscalls - 1) k.table n)),
      ))
