-- ===== src/Interceptor/Requests/Outcomes.antt =====
-- a1/interceptor.c: what the monitoring requests return and change, branch by branch.
use csc369group.Prelude.{
  ℕ, ◌≡◌, ◌≢◌, refl, true, false, [], ◌∷◌, arith, ◌==◌, if◌then◌else◌, Bool-cases, inl, inr, is,
  update, increment, decrement,
}
use csc369group.Interceptor.State.{
  MyTable, Kernel, Context, ok, success, eperm, ebusy, enomem, ◌>>=◌, unlock_pidlist,
}
use csc369group.Interceptor.State.Runs.{lock_pidlist-free}
use csc369group.Interceptor.Pids.{
  contains, unlink, drop_pid, add_pid_sysc, del_pid_sysc, destroy_list, set_monitored,
}
use csc369group.Interceptor.Invariant.{EntryIsValid, Returns, returns}
use csc369group.Interceptor.Requests.{
  unlock_with, no_such_task, denied, start_locked, start_monitoring_pid, stop_locked,
  stop_monitoring_pid,
}
use csc369group.Interceptor.Requests.Monitoring.{IsCaller, has_right, denied_lem}

-- The tests that every monitoring request makes first: the process exists, the system call is
-- intercepted, and the caller may name the process.
pub record IsAdmissible (x : Context) (n pid : ℕ) (k : Kernel) : Type 0 where
  pub task : no_such_task x pid ≡ false
  pub intercepted : (k.table n).intercepted ≢ 0
  pub right : has_right x pid ≡ true

module _ (x : Context) (i : IsCaller x) (n pid : ℕ) (k : Kernel) (a : IsAdmissible x n pid k) where
  granted : denied x pid k ≡ ok false k
  granted = rw (denied_lem x i pid k a.task, a.right)

  hooked_entry : ((k.table n).intercepted == 0) ≡ false
  hooked_entry = ground (arith, a.intercepted)

  -- Where a caller that exists makes the request, the process named exists or the pid is 0, the
  -- system call is intercepted, and the caller is root or owns the process, the lock is free and
  -- all pids are monitored (`monitored == 2`), REQUEST_START_MONITORING returns -EBUSY, whether
  -- or not the pid is listed, and changes no entry.
  pub start-ebusy :
      k.pidlist_lock ≡ false
      → (k.table n).monitored ≡ 2
      → (k' : Kernel) × (start_monitoring_pid x n pid k ≡ ok ebusy k')
        × ((m : ℕ) → k'.table m ≡ k.table m)
  unfolding start_monitoring_pid start_locked unlock_pidlist
  start-ebusy free all = elim (Bool-cases (contains pid (k.table n).my_list)) [
    | inl listed ↦ (k, rw (a.task, hooked_entry, granted, listed), λ m. refl)
    | inr new ↦ elim (Bool-cases (is (k.table n).listcount 1)) [
      | inl one ↦ (k, rw (a.task, hooked_entry, granted, new, all, one), λ m. refl)
      | inr more ↦ (
        record k { pidlist_lock = false },
        rw (a.task, hooked_entry, granted, new, all, more)
            (rw (◌>>=◌, lock_pidlist-free, free) (rw (all, new))),
        λ m. refl,
      )
    ]
  ]

module _ (x : Context) (i : IsCaller x) (n pid : ℕ) (k : Kernel) where
  -- Where a caller that exists names pid 0 or a process that exists, the system call is
  -- intercepted, and the caller neither is root nor owns the process (nobody owns pid 0), both
  -- monitoring requests return -EPERM and change nothing.
  pub monitoring-eperm :
      no_such_task x pid ≡ false
      → (k.table n).intercepted ≢ 0
      → has_right x pid ≡ false
      → (start_monitoring_pid x n pid k ≡ ok eperm k) × (stop_monitoring_pid x n pid k ≡ ok eperm k)
  unfolding start_monitoring_pid stop_monitoring_pid
  monitoring-eperm task on right =
      let hooked : ((k.table n).intercepted == 0) ≡ false = ground arith in
      (
        rw (task, hooked, denied_lem x i pid k task, right),
        rw (task, hooked, denied_lem x i pid k task, right),
      )

-- The entry after a pid is added to it.
abbrev listing : ℕ → MyTable → MyTable
listing pid e = record e { my_list = pid ∷ e.my_list; listcount = increment e.listcount }

-- The state that REQUEST_STOP_MONITORING of one listed pid leaves.
abbrev stopped : (n pid : ℕ) → Kernel → Kernel
stopped n pid k =
    let dropped = update k.table n (drop_pid pid (k.table n)) in
    record k {
      table =
          if is (dropped n).listcount 0
          then update dropped n (record (dropped n) { monitored = 0 })
          else dropped;
      pidlist_lock = false;
    }

module _ (n pid : ℕ) (k : Kernel) where
  my_list-stopped : ((stopped n pid k).table n).my_list ≡ unlink pid (k.table n).my_list
  unfolding drop_pid
  my_list-stopped = ground arith

  listcount-stopped : ((stopped n pid k).table n).listcount ≡ decrement (k.table n).listcount
  unfolding drop_pid
  listcount-stopped = ground arith

  table-stopped : (m : ℕ) → m ≢ n → (stopped n pid k).table m ≡ k.table m
  unfolding drop_pid
  table-stopped m ne = ground arith

module _ (x : Context) (i : IsCaller x) (n pid : ℕ) (k : Kernel) (a : IsAdmissible x n pid k)
    (free : k.pidlist_lock ≡ false) (single : pid ≢ 0) (some_pids : (k.table n).monitored ≢ 2)
    (on : (k.table n).monitored ≢ 0) (listed : contains pid (k.table n).my_list ≡ true) where
  stop_listed : stop_monitoring_pid x n pid k ≡ ok success (stopped n pid k)
  unfolding stop_monitoring_pid stop_locked del_pid_sysc set_monitored unlock_with unlock_pidlist
  stop_listed =
      let not_all : ((k.table n).monitored == 2) ≡ false = ground arith in
      let not_zero : (pid == 0) ≡ false = ground arith in
      let not_idle : ((k.table n).monitored == 0) ≡ false = ground arith in
      let dropped = update k.table n (drop_pid pid (k.table n)) in
      rw (a.task, hooked_entry x i n pid k a, granted x i n pid k a, listed, not_idle)
        (rw (◌>>=◌, lock_pidlist-free, free)
          (rw (not_all, not_zero, listed)
            (elim (Bool-cases (is (dropped n).listcount 0)) [
              | inl z ↦ rw z refl
              | inr z ↦ rw z refl
            ])))

module _ (x : Context) (i : IsCaller x) (n pid : ℕ) (k : Kernel) (a : IsAdmissible x n pid k)
    (free : k.pidlist_lock ≡ false) (single : pid ≢ 0) (some_pids : (k.table n).monitored ≢ 2)
    (new : contains pid (k.table n).my_list ≡ false) where
  not_all : ((k.table n).monitored == 2) ≡ false
  not_all = ground (arith, some_pids)

  not_zero : (pid == 0) ≡ false
  not_zero = ground (arith, single)

  -- The state that REQUEST_START_MONITORING of one pid leaves.
  abbrev started : Kernel
  started =
      let marked = update k.table n (record (k.table n) { monitored = 1 }) in
      record k { table = update marked n (listing pid (marked n)); pidlist_lock = false }

  start_single : x.kmalloc ≡ true → start_monitoring_pid x n pid k ≡ ok success started
  unfolding start_monitoring_pid start_locked unlock_pidlist set_monitored add_pid_sysc
  start_single memory =
      rw (a.task, hooked_entry x i n pid k a, granted x i n pid k a, new, not_all)
        (rw (◌>>=◌, lock_pidlist-free, free) (rw (not_all, not_zero) (rw memory refl)))

  -- Where a caller that exists makes the request, the process named exists or the pid is 0, the
  -- system call is intercepted, and the caller is root or owns the process, the lock is free, not
  -- all pids are monitored, memory is at hand and the entry is valid, starting and then stopping
  -- the monitoring of a pid that is not 0 and not listed succeeds; the list and the counter of
  -- the call, and all other entries, are as before.
  pub stop-start :
      x.kmalloc ≡ true
      → EntryIsValid (k.table n)
      → Returns
          (λ s k'.
            (s ≡ success)
            × ((k'.table n).my_list ≡ (k.table n).my_list)
            × ((k'.table n).listcount ≡ (k.table n).listcount)
            × ((m : ℕ) → m ≢ n → k'.table m ≡ k.table m))
          ((start_monitoring_pid x n pid >>= λ _. stop_monitoring_pid x n pid) k)
  stop-start memory e = rw (start_single memory) (
      rw
        (stop_listed x i n pid started
          (record { task = a.task; intercepted = ground (arith, a.intercepted); right = a.right })
          refl single (ground arith) (ground arith) (unfold contains in ground arith))
        (returns (
          refl,
          rw (my_list-stopped n pid started) (unfold unlink in ground arith),
          rw (listcount-stopped n pid started) (ground (arith, e.counted)),
          λ m ne. rw (table-stopped n pid started m ne) (ground arith),
        )))

  -- Where a caller that exists makes the request, the process named exists or the pid is 0, the
  -- system call is intercepted, and the caller is root or owns the process, the lock is free, not
  -- all pids are monitored and `kmalloc` fails, starting the monitoring of a pid that is not 0
  -- and not listed returns -ENOMEM with the lock free. The entry is as before but for its mode, which
  -- is that of monitoring single pids (`monitored == 1`) also where nothing was monitored, and all
  -- other entries are as before.
  pub start-enomem :
      x.kmalloc ≡ false
      → Returns
          (λ s k'.
            (s ≡ enomem)
            × ((k'.table n).monitored ≡ 1)
            × (k'.table n ≡ record (k.table n) { monitored = 1 })
            × ((j : ℕ) → j ≢ n → k'.table j ≡ k.table j)
            × (k'.pidlist_lock ≡ false))
          (start_monitoring_pid x n pid k)
  unfolding start_monitoring_pid start_locked unlock_pidlist set_monitored add_pid_sysc
  start-enomem memory =
      rw (a.task, hooked_entry x i n pid k a, granted x i n pid k a, new, not_all)
        (rw (◌>>=◌, lock_pidlist-free, free)
          (rw (not_all, not_zero)
            (rw memory
              (returns (refl, ground arith, ground arith, (λ j ne. ground (arith, ne)), refl)))))

-- Where root, as a caller that exists, names pid 0, the system call is intercepted, the lock is
-- free, not all pids are monitored, 0 is not listed and `kmalloc` fails, REQUEST_START_MONITORING
-- returns -ENOMEM, and yet the list is empty and all pids are monitored (`monitored == 2`).
pub start_all-enomem :
    (x : Context) (i : IsCaller x) (n : ℕ) (k : Kernel)
    → IsAdmissible x n 0 k
    → k.pidlist_lock ≡ false
    → (k.table n).monitored ≢ 2
    → contains 0 (k.table n).my_list ≡ false
    → x.kmalloc ≡ false
    → Returns
        (λ s k'. (s ≡ enomem) × ((k'.table n).monitored ≡ 2) × ((k'.table n).my_list ≡ []))
        (start_monitoring_pid x n 0 k)
unfolding start_monitoring_pid start_locked unlock_pidlist set_monitored add_pid_sysc destroy_list
start_all-enomem x i n k a free some_pids new memory =
    let not_all : ((k.table n).monitored == 2) ≡ false = ground arith in
    rw (a.task, hooked_entry x i n 0 k a, granted x i n 0 k a, new, not_all)
      (rw (◌>>=◌, lock_pidlist-free, free)
        (rw not_all (rw memory (returns (refl, ground arith, ground arith)))))
