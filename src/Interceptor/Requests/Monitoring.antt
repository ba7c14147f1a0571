-- ===== src/Interceptor/Requests/Monitoring.antt =====
-- a1/interceptor.c: the requests that start and stop the monitoring of a process.
use csc369group.Prelude.{
  ℕ, ◌≡◌, ◌≢◌, refl, Bool, true, false, not, ◌&&◌, ◌||◌, none, some, arith, ◌==◌, inl, inr, is,
  Option-cases,
}
use csc369group.Interceptor.State.{Kernel, Config, Context, ok, Status, success, ◌>>=◌}
use csc369group.Interceptor.Pids.{add_pid_sysc, check_pid_from_list, check_pid_monitored}
use csc369group.Interceptor.Pids.Entries.{my_list-empty}
use csc369group.Interceptor.Invariant.{IsValid, IsConsistent, returns}
use csc369group.Interceptor.Invariant.Rules.{
  bind, branch, Keeps, Keeps-add_pid_sysc, Keeps-del_pid_sysc, Keeps-destroy_list,
  Keeps-set_monitored, Keeps-lock_pidlist, Keeps-unlock_pidlist,
}
use csc369group.Interceptor.Requests.{
  unlock_with, succeeded, no_such_task, denied, start_locked, start_monitoring_pid, stop_single,
  stop_locked, stop_monitoring_pid,
}

-- The process that makes the call exists, and has the user that it runs as.
pub record IsCaller (x : Context) : Type 0 where
  pub exists : x.task_uid x.current_pid ≡ some x.current_uid

-- The owner test in one expression: root may name any process, and others their own only.
unfoldable pub has_right : Context → ℕ → Bool
has_right x pid =
    x.current_uid == 0
    || (not (pid == 0) && elim (x.task_uid pid) [ none ↦ false | some u ↦ u == x.current_uid ])

module _ (x : Context) (i : IsCaller x) (pid : ℕ) (k : Kernel) where
  pub denied_lem : no_such_task x pid ≡ false → denied x pid k ≡ ok (not (has_right x pid)) k
  unfolding denied no_such_task has_right check_pid_from_list
  denied_lem h = elim (Option-cases (x.task_uid pid)) [
    | inl gone ↦ ground (arith, i.exists)
    | inr (u, e) ↦ rw (i.exists, e) (ground arith)
  ]

module _ {c : Config} {held : Bool} {k : Kernel} (v : IsConsistent c held k) where
  Keeps-unlock_with : (s : Status) → Keeps c false (unlock_with s k)
  unfolding unlock_with
  Keeps-unlock_with s = bind (Keeps-unlock_pidlist v) λ _ k w. returns w

module _ {c : Config} (x : Context) (n pid : ℕ) {k : Kernel} (v : IsConsistent c true k) where
  Keeps-add_unlock :
      (k.table n).monitored ≢ 0 → Keeps c false ((add_pid_sysc x pid n >>= λ s. unlock_with s) k)
  Keeps-add_unlock on = bind (Keeps-add_pid_sysc v x pid n on) λ s k w. Keeps-unlock_with w s

module _ {c : Config} (x : Context) (n pid : ℕ) {k : Kernel} (v : IsConsistent c true k) where
  Keeps-start_locked : Keeps c false (start_locked x n pid k)
  unfolding start_locked
  Keeps-start_locked =
      branch ((k.table n).monitored == 2 && check_pid_monitored n pid k) _ _ k
        (λ _. bind (Keeps-del_pid_sysc v pid n) λ s k w. Keeps-unlock_with w s)
        (λ _.
          branch ((k.table n).monitored == 2 && not (check_pid_monitored n pid k)) _ _ k
            (λ _. bind (Keeps-unlock_pidlist v) λ _ k w. returns w)
            (λ _.
              branch (pid == 0) _ _ k
                (λ _. bind (Keeps-destroy_list v n) λ _ k w.
                  bind (Keeps-set_monitored w.0 n 2 (omega arith) (λ e. absurd (omega arith)))
                    λ _ k u. Keeps-add_unlock x n pid u.0 (omega (arith, u.1)))
                (λ _.
                  bind (Keeps-set_monitored v n 1 (omega arith) (λ e. absurd (omega arith)))
                    λ _ k u. Keeps-add_unlock x n pid u.0 (omega (arith, u.1)))))

  Keeps-stop_single : Keeps c false (stop_single n pid k)
  unfolding stop_single
  Keeps-stop_single = bind (Keeps-del_pid_sysc v pid n) λ s k w.
      branch (not (succeeded s)) _ _ k (λ _. Keeps-unlock_with w s)
        (λ _.
          branch (is (k.table n).listcount 0) _ _ k
            (λ z.
              bind (Keeps-set_monitored w n 0 (omega arith) (λ _. my_list-empty (w.entries n) z))
                λ _ k u. Keeps-unlock_with u.0 success)
            (λ _. Keeps-unlock_with w success))

  Keeps-stop_locked : Keeps c false (stop_locked x n pid k)
  unfolding stop_locked
  Keeps-stop_locked =
      branch ((k.table n).monitored == 2 && not (pid == 0)) _ _ k
        (λ h. Keeps-add_unlock x n pid v (ground arith))
        (λ _.
          branch (pid == 0) _ _ k
            (λ _. bind (Keeps-destroy_list v n) λ _ k w.
              bind (Keeps-set_monitored w.0 n 0 (omega arith) (λ _. w.1))
                λ _ k u. Keeps-unlock_with u.0 success)
            (λ _. Keeps-stop_single))

module _ {c : Config} (x : Context) (i : IsCaller x) (n pid : ℕ) {k : Kernel}
    (v : IsValid c k) where
  pub Keeps-start_monitoring_pid : Keeps c false (start_monitoring_pid x n pid k)
  unfolding start_monitoring_pid
  Keeps-start_monitoring_pid =
      branch (no_such_task x pid || (k.table n).intercepted == 0) _ _ k (λ _. returns v)
        λ h. rw (denied_lem x i pid k (ground arith)) (
          branch (not (has_right x pid)) _ _ k (λ _. returns v)
            λ _.
              branch
                (check_pid_monitored n pid k
                  || (k.table n).monitored == 2 && is (k.table n).listcount 1)
                _ _ k (λ _. returns v)
                λ _. bind (Keeps-lock_pidlist v refl) λ _ k w. Keeps-start_locked x n pid w)

  pub Keeps-stop_monitoring_pid : Keeps c false (stop_monitoring_pid x n pid k)
  unfolding stop_monitoring_pid
  Keeps-stop_monitoring_pid =
      branch (no_such_task x pid || (k.table n).intercepted == 0) _ _ k (λ _. returns v)
        λ h. rw (denied_lem x i pid k (ground arith)) (
          branch (not (has_right x pid)) _ _ k (λ _. returns v)
            λ _.
              branch (not (check_pid_monitored n pid k) && not ((k.table n).monitored == 2)) _ _ k
                (λ _. returns v)
                λ _.
                  branch ((k.table n).monitored == 0) _ _ k (λ _. returns v)
                    λ _. bind (Keeps-lock_pidlist v refl) λ _ k w. Keeps-stop_locked x n pid w)
