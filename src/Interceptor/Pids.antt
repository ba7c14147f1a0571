-- ===== src/Interceptor/Pids.antt =====
-- a1/interceptor.c, "LIST OPERATIONS": the lists of monitored pids.
pub mod Entries
use csc369group.Prelude.{
  ℕ, zero, suc, ◌-◌, Bool, false, ◌&&◌, ◌||◌, Option, some, List, [], ◌∷◌, pos, increment,
  decrement, is, if◌then◌else◌, ◌==◌, update,
}
use csc369group.Interceptor.State.{
  MyTable, Kernel, Config, Context, Status, success, einval, eperm, enomem, Run, oops, Cmd, pure,
  ◌>>=◌, ◌>>◌, kernel, put_entry,
}

-- The walk of `list_for_each` up to the first node that holds the pid.
unfoldable pub contains : ℕ → List ℕ → Bool
contains pid [] = false
contains pid (q ∷ qs) = (q == pid) || contains pid qs

-- `list_del` of the first node that holds the pid.
unfoldable pub unlink : ℕ → List ℕ → List ℕ
unlink pid [] = []
unlink pid (q ∷ qs) = if q == pid then qs else q ∷ unlink pid qs

-- `list_del`, `listcount--`, and the end of the monitoring of single pids with the last of them.
unfoldable pub drop_pid : ℕ → MyTable → MyTable
unfolding unlink
drop_pid pid e =
    let left = decrement e.listcount in
    record e {
      my_list = unlink pid e.my_list;
      listcount = left;
      monitored = if is left 0 && e.monitored == 1 then 0 else e.monitored;
    }

unfoldable pub add_pid_sysc : Context → (pid sysc : ℕ) → Cmd Status
add_pid_sysc x pid sysc =
    if x.kmalloc
    then (do
      k ← kernel
      let e = k.table sysc
      put_entry sysc (record e { my_list = pid ∷ e.my_list; listcount = increment e.listcount })
      pure success)
    else pure enomem

unfoldable pub del_pid_sysc : (pid sysc : ℕ) → Cmd Status
unfolding contains drop_pid
del_pid_sysc pid sysc = do
  k ← kernel
  if contains pid (k.table sysc).my_list
      then (do put_entry sysc (drop_pid pid (k.table sysc)); pure success)
      else pure einval

-- The `list_for_each_safe` of `del_pid` over the nodes of one list. Each node that holds the pid is
-- the first such node of the list that is left, so `drop_pid` unlinks that node.
unfoldable pub purge_nodes : ℕ → List ℕ → MyTable → MyTable
unfolding drop_pid
purge_nodes pid [] e = e
purge_nodes pid (q ∷ qs) e = purge_nodes pid qs (if q == pid then drop_pid pid e else e)

unfoldable pub purge : ℕ → MyTable → MyTable
unfolding purge_nodes
purge pid e = purge_nodes pid e.my_list e

-- `for (s = 1; s < NR_syscalls; s++)`, from the last round back: the rounds touch different entries.
unfoldable pub purge_below : ℕ → (rounds : ℕ) → (ℕ → MyTable) → ℕ → MyTable
unfolding purge
purge_below pid zero t = t
purge_below pid (suc n) t = update (purge_below pid n t) (suc n) (purge pid (t (suc n)))

-- `ispid`: whether any of those lists holds the pid.
unfoldable pub listed_below : ℕ → (rounds : ℕ) → (ℕ → MyTable) → Bool
unfolding contains
listed_below pid zero t = false
listed_below pid (suc n) t = contains pid (t (suc n)).my_list || listed_below pid n t

-- The result is `ispid`, which the only caller ignores.
unfoldable pub del_pid : Config → ℕ → Cmd Bool
unfolding purge_below listed_below
del_pid c pid = do
  k ← kernel
  let found = listed_below pid (c.nr_syscalls - 1) k.table
  λ k. Run.ok found (record k { table = purge_below pid (c.nr_syscalls - 1) k.table })

unfoldable pub destroy_list : ℕ → Cmd (Unit {0})
destroy_list sysc = do
  k ← kernel
  put_entry sysc (record (k.table sysc) { my_list = []; listcount = pos 0; monitored = 0 })

-- `monitored = n`
unfoldable pub set_monitored : (sysc n : ℕ) → Cmd (Unit {0})
set_monitored sysc n = do k ← kernel; put_entry sysc (record (k.table sysc) { monitored = n })

compare_owners : Option ℕ → Option ℕ → Cmd Status
compare_owners (some u) (some v) = pure (if u == v then success else eperm)
compare_owners _ _ = λ k. oops

-- Both processes are looked up and dereferenced.
unfoldable pub check_pid_from_list : Context → (pid1 pid2 : ℕ) → Cmd Status
unfolding compare_owners
check_pid_from_list x pid1 pid2 = compare_owners (x.task_uid pid1) (x.task_uid pid2)

unfoldable pub check_pid_monitored : (sysc pid : ℕ) → Kernel → Bool
unfolding contains
check_pid_monitored sysc pid k = contains pid (k.table sysc).my_list
