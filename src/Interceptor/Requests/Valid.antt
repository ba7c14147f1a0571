-- ===== src/Interceptor/Requests/Valid.antt =====
-- a1/interceptor.c: `my_syscall` as a whole.
use csc369group.Prelude.{ℕ, false, ◌||◌, Option, none, some, ℤ, pos, negsuc, ◌==◌, ltb}
use csc369group.Interceptor.State.{Kernel, Config, Context, Cmd, Status}
use csc369group.Interceptor.Invariant.{IsValid, returns}
use csc369group.Interceptor.Invariant.Rules.{branch, Keeps}
use csc369group.Interceptor.Requests.{
  Request, intercept, release, start_monitoring, stop_monitoring, request_of, on_pid, serve,
  my_syscall,
}
use csc369group.Interceptor.Requests.Calls.{Keeps-intercept_call, Keeps-release_call}
use csc369group.Interceptor.Requests.Monitoring.{
  IsCaller, Keeps-start_monitoring_pid, Keeps-stop_monitoring_pid,
}

module _ {c : Config} (x : Context) (i : IsCaller x) {k : Kernel} (v : IsValid c k) where
  Keeps-on_pid :
      (p : ℤ) (act : ℕ → Cmd Status)
      → ((pid : ℕ) → Keeps c false (act pid k))
      → Keeps c false (on_pid p act k)
  unfolding on_pid
  Keeps-on_pid (pos pid) act h = h pid
  Keeps-on_pid (negsuc m) act h = returns v

  Keeps-serve : (r : Option Request) (n : ℕ) (p : ℤ) → Keeps c false (serve c x r n p k)
  unfolding serve
  Keeps-serve (some intercept) n p = Keeps-intercept_call c x n v
  Keeps-serve (some release) n p = Keeps-release_call c x n v
  Keeps-serve (some start_monitoring) n p =
      Keeps-on_pid p _ λ pid. Keeps-start_monitoring_pid x i n pid v
  Keeps-serve (some stop_monitoring) n p =
      Keeps-on_pid p _ λ pid. Keeps-stop_monitoring_pid x i n pid v
  Keeps-serve none n p = returns v

  -- Called in a valid state by a process that exists, `my_syscall` ends for every argument and on
  -- every branch, with no deadlock and no fault, and leaves a valid state: both locks free and
  -- the table of calls read-only, counters that count their lists, and no call that is not
  -- intercepted leading to `interceptor`.
  pub my_syscall-IsValid : (cmd syscall pid : ℤ) → Keeps c false (my_syscall c x cmd syscall pid k)
  unfolding my_syscall
  my_syscall-IsValid cmd (negsuc m) pid = returns v
  my_syscall-IsValid cmd (pos n) pid =
      branch (ltb c.nr_syscalls n || n == 0) _ _ k (λ _. returns v)
        λ _. Keeps-serve (request_of cmd) n pid
