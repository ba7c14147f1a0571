-- ===== src/Interceptor/Reach.antt =====
-- a1/interceptor.c: every state between the loading and the unloading of the module.
use csc369group.Prelude.{ℕ, ◌≡◌, refl, false, ℤ, subst, ◌==◌, ◌&&◌, ◌||◌, exceeds}
use csc369group.Interceptor.State.{
  Handler, PtRegs, Kernel, Config, Context, Run, ok, Status, and_then,
}
use csc369group.Interceptor.Pids.{check_pid_monitored}
use csc369group.Interceptor.Invariant.{IsValid, Returns, returns}
use csc369group.Interceptor.Invariant.Rules.{
  bind, branch, Keeps, Keeps-del_pid, Keeps-lock_pidlist, Keeps-unlock_pidlist,
}
use csc369group.Interceptor.Requests.{my_syscall}
use csc369group.Interceptor.Requests.Monitoring.{IsCaller}
use csc369group.Interceptor.Requests.Valid.{my_syscall-IsValid}
use csc369group.Interceptor.Module.{
  interceptor, my_exit_group, init_function, log_message, call_original,
}
use csc369group.Interceptor.Module.Lifetime.{IsPristine, init_function-IsValid}

-- One call that the kernel makes into the module, with an outcome.
pub data Step (c : Config) (k k' : Kernel) : Type 0 where
  request :
      (x : Context) (cmd syscall pid : ℤ) (s : Status)
      → IsCaller x
      → my_syscall c x cmd syscall pid k ≡ ok s k'
      → Step c k k'
  process_exit :
      (x : Context) (status : ℕ) (r : Handler × ℕ)
      → my_exit_group c x status k ≡ ok r k'
      → Step c k k'
  trap : (x : Context) (r : PtRegs) (h : Handler) → interceptor x r k ≡ ok h k' → Step c k k'

pub data Reach (c : Config) (k : Kernel) : Kernel → Type 0 where
  here : Reach c k k
  next : {k' k'' : Kernel} → Reach c k k' → Step c k' k'' → Reach c k k''

abbrev Holds : {A : Type 0} → (A → Kernel → Type 0) → Run A → Type 0
Holds P (ok a k) = P a k
Holds P _ = ⊥

holds : {A : Type 0} {P : A → Kernel → Type 0} {r : Run A} → Returns P r → Holds P r
holds (returns p) = p

-- The state after a run that keeps the invariant.
outcome :
    {A : Type 0} {c : Config} {r : Run A} (a : A) (k : Kernel)
    → Keeps c false r
    → r ≡ ok a k
    → IsValid c k
outcome {c} a k h e = subst (Holds (λ _ k'. IsValid c k')) e (holds h)

module _ (c : Config) (x : Context) {k : Kernel} (v : IsValid c k) where
  my_exit_group-IsValid : (status : ℕ) → Keeps c false (my_exit_group c x status k)
  unfolding my_exit_group
  my_exit_group-IsValid status = bind (Keeps-lock_pidlist v refl) λ _ k w.
      bind (Keeps-del_pid w x.current_pid) λ _ k u. bind (Keeps-unlock_pidlist u) λ _ k t. returns t

  interceptor-IsValid : (r : PtRegs) → Keeps c false (interceptor x r k)
  unfolding interceptor
  interceptor-IsValid r =
      branch ((k.table r.ax).monitored == 2 && exceeds (k.table r.ax).listcount 1) _ _ k
        (λ _. branch (check_pid_monitored r.ax x.current_pid k) _ _ k (λ _. unlogged) (λ _. logged))
        (λ _.
          branch (check_pid_monitored r.ax x.current_pid k || (k.table r.ax).monitored == 2) _ _ k
            (λ _. logged) (λ _. unlogged))
    where
      unlogged : Keeps c false (call_original r k)
      unlogged = unfold call_original in returns v

      logged : Keeps c false (and_then (log_message x r k) (λ _. call_original r))
      logged =
          unfold log_message call_original in
          returns (record {
            calltable_free = v.calltable_free;
            pidlist = v.pidlist;
            read_only = v.read_only;
            mapped = v.mapped;
            entries = v.entries;
            hooks = v.hooks;
            flags = v.flags;
            originals = v.originals;
          })

Step-IsValid : {c : Config} {k k' : Kernel} → Step c k k' → IsValid c k → IsValid c k'
Step-IsValid (request x cmd syscall pid s i e) v =
    outcome s _ (my_syscall-IsValid x i v cmd syscall pid) e
Step-IsValid {c} (process_exit x status r e) v = outcome r _ (my_exit_group-IsValid c x v status) e
Step-IsValid {c} (trap x r h e) v = outcome h _ (interceptor-IsValid c x v r) e

-- Whatever requests processes that exist make after the module is loaded into a pristine kernel,
-- and whatever processes exit or calls trap, in any order, the state is valid between these
-- calls: both locks are free, the table of calls is read-only, each counter counts its list, no
-- saved call is `interceptor`, and a call that is not intercepted does not lead to it.
pub Reach-IsValid :
    {c : Config} {k k0 k' : Kernel}
    → IsPristine c k
    → init_function c k ≡ ok tt k0
    → Reach c k0 k'
    → IsValid c k'
Reach-IsValid {c} {k} {k0} p e here = (subst (Holds _) e (holds (init_function-IsValid c k p))).0
Reach-IsValid p e (next r st) = Step-IsValid st (Reach-IsValid p e r)
