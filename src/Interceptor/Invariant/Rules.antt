-- ===== src/Interceptor/Invariant/Rules.antt =====
-- a1/interceptor.c: how the commands of the module keep the invariant.
use csc369group.Prelude.{
  ℕ, ◌≤◌, ◌≡◌, ◌≢◌, refl, Bool, true, false, [], arith, ◌==◌, if◌then◌else◌, Bool-cases, inl, inr,
  update, sym, ◌∙◌, ◌-◌,
}
use csc369group.Interceptor.State.{
  MyTable, Kernel, Config, Context, Run, Cmd, and_then, and_then, unlock_pidlist, lock_pidlist,
}
use csc369group.Interceptor.Pids.{
  contains, add_pid_sysc, del_pid_sysc, destroy_list, set_monitored, del_pid, drop_pid,
}
use csc369group.Interceptor.Pids.Entries.{
  drop_pid-EntryIsValid, purge_below-EntryIsValid, intercepted-purge_below,
}
use csc369group.Interceptor.Invariant.{EntryIsValid, IsConsistent, Returns, returns}

module _ {A B : Type 0} {P : A → Kernel → Type 0} {Q : B → Kernel → Type 0} where
  pub bind :
      {r : Run A} {f : A → Cmd B}
      → Returns P r
      → ((a : A) (k : Kernel) → P a k → Returns Q (f a k))
      → Returns Q (and_then r f)
  bind (returns p) next = next _ _ p

pub branch :
    {A : Type 0} {Q : A → Kernel → Type 0} (b : Bool) (m n : Cmd A) (k : Kernel)
    → (b ≡ true → Returns Q (m k))
    → (b ≡ false → Returns Q (n k))
    → Returns Q ((if b then m else n) k)
branch true m n k h g = h refl
branch false m n k h g = g refl

-- The invariant as the postcondition of a command.
abbrev pub Keeps : {A : Type 0} → Config → Bool → Run A → Type 0
Keeps {A} c held r = Returns {A = A} (λ _ k. IsConsistent c held k) r

module _ {c : Config} {held : Bool} {k : Kernel} (v : IsConsistent c held k) where
  pub put_entry-IsConsistent :
      (n : ℕ) (e : MyTable)
      → EntryIsValid e
      → e.intercepted ≡ (k.table n).intercepted
      → IsConsistent c held (record k { table = update k.table n e })
  put_entry-IsConsistent n e h same = record {
    calltable_free = v.calltable_free;
    pidlist = v.pidlist;
    read_only = v.read_only;
    mapped = v.mapped;
    entries = λ m. elim (Bool-cases (m == n)) [ inl p ↦ rw p h | inr p ↦ rw p (v.entries m) ];
    hooks = λ m. ground (arith, v.hooks m);
    flags = λ m. ground (arith, v.flags m, v.flags n);
    originals = v.originals;
  }

  pub Keeps-add_pid_sysc :
      (x : Context) (pid n : ℕ) → (k.table n).monitored ≢ 0 → Keeps c held (add_pid_sysc x pid n k)
  unfolding add_pid_sysc
  Keeps-add_pid_sysc x pid n on =
      branch x.kmalloc _ _ k
        (λ _. returns (
          put_entry-IsConsistent n _
            (record {
              counted = ground (arith, (v.entries n).counted);
              mode = (v.entries n).mode;
              idle = λ z. absurd (on z);
              saved = (v.entries n).saved;
            })
            refl))
        (λ _. returns v)

  pub Keeps-del_pid_sysc : (pid n : ℕ) → Keeps c held (del_pid_sysc pid n k)
  unfolding del_pid_sysc
  Keeps-del_pid_sysc pid n =
      branch (contains pid (k.table n).my_list) _ _ k
        (λ h. returns (
          put_entry-IsConsistent n _ (drop_pid-EntryIsValid pid h (v.entries n))
            (unfold drop_pid in refl)))
        (λ _. returns v)

  pub Keeps-destroy_list :
      (n : ℕ)
      → Returns (λ _ k'. IsConsistent c held k' × ((k'.table n).my_list ≡ [])) (destroy_list n k)
  unfolding destroy_list
  Keeps-destroy_list n = returns (
    put_entry-IsConsistent n _
        (record {
          counted = refl;
          mode = omega arith;
          idle = λ _. refl;
          saved = (v.entries n).saved;
        })
        refl,
    ground arith,
  )

  pub Keeps-set_monitored :
      (n m : ℕ)
      → m ≤ 2
      → (m ≡ 0 → (k.table n).my_list ≡ [])
      → Returns
          (λ _ k'. IsConsistent c held k' × ((k'.table n).monitored ≡ m))
          (set_monitored n m k)
  unfolding set_monitored
  Keeps-set_monitored n m le h = returns (
    put_entry-IsConsistent n _
        (record {
          counted = (v.entries n).counted;
          mode = le;
          idle = h;
          saved = (v.entries n).saved;
        })
        refl,
    ground arith,
  )

  pub Keeps-del_pid : (pid : ℕ) → Keeps c held (del_pid c pid k)
  unfolding del_pid
  Keeps-del_pid pid =
      let same = λ (n : ℕ). intercepted-purge_below pid (c.nr_syscalls - 1) k.table n in
      returns (record {
        calltable_free = v.calltable_free;
        pidlist = v.pidlist;
        read_only = v.read_only;
        mapped = v.mapped;
        entries = purge_below-EntryIsValid pid (c.nr_syscalls - 1) k.table v.entries;
        hooks = λ n z. v.hooks n (sym (same n) ∙ z);
        flags = λ n. rw same (v.flags n);
        originals = v.originals;
      })

  pub Keeps-lock_pidlist : held ≡ false → Keeps c true (lock_pidlist k)
  unfolding lock_pidlist
  Keeps-lock_pidlist free = rw (v.pidlist ∙ free) (
      returns (record {
        calltable_free = v.calltable_free;
        pidlist = refl;
        read_only = v.read_only;
        mapped = v.mapped;
        entries = v.entries;
        hooks = v.hooks;
        flags = v.flags;
        originals = v.originals;
      }))

  pub Keeps-unlock_pidlist : Keeps c false (unlock_pidlist k)
  unfolding unlock_pidlist
  Keeps-unlock_pidlist = returns (record {
    calltable_free = v.calltable_free;
    pidlist = refl;
    read_only = v.read_only;
    mapped = v.mapped;
    entries = v.entries;
    hooks = v.hooks;
    flags = v.flags;
    originals = v.originals;
  })
