-- ===== src/Examples/Loading.antt =====
-- a1/interceptor.c: `interceptor`, `my_exit_group` and the module's start and end at concrete inputs.
use csc369group.Prelude.{ℕ, ◌<◌, ◌≤◌, ◌≡◌, ◌≢◌, refl, false, [], ◌∷◌, arith, if◌then◌else◌, ◌==◌}
use csc369group.Interceptor.State.{original, custom, exiting, PtRegs, ok, ◌>>◌}
use csc369group.Interceptor.Pids.{contains}
use csc369group.Interceptor.Pids.Entries.{occurrences}
use csc369group.Interceptor.Invariant.{IsValid, Returns}
use csc369group.Interceptor.Module.{interceptor, my_exit_group, init_function, exit_function}
use csc369group.Interceptor.Module.Lifetime.{init_function-IsValid, exit-init}
use csc369group.Interceptor.Module.Watch.{watches, IsMarked, interceptor-watches, my_exit_group_lem}
use csc369group.Examples.Interceptor.{
  config, by_user, found, found-IsPristine, entries-IsValid, working,
}

abbrev trapped : PtRegs
trapped = record { ax = 6; bx = 1; cx = 2; dx = 3; si = 4; di = 5; bp = 6 }

six-IsMarked : IsMarked (working.table 6)
unfolding contains
six-IsMarked e = refl

watches_example :
    interceptor by_user trapped working
    ≡ ok (original 6) (
        if watches (working.table 6) 42
        then record working { log = record { pid = 42; regs = trapped } ∷ [] }
        else working)
watches_example =
    interceptor-watches by_user trapped working (entries-IsValid 6) six-IsMarked (omega arith)

exit_example :
    Returns
      (λ r k'.
        (r ≡ (original 3, 0))
        × (k'.pidlist_lock ≡ false)
        × ((n j : ℕ)
            → 0 < n
            → n < 10
            → occurrences j (k'.table n).my_list
              ≡ (if j == 42 then 0 else occurrences j (working.table n).my_list))
        × (k'.table 0 ≡ working.table 0)
        × ((n : ℕ) → 10 ≤ n → k'.table n ≡ working.table n))
      (my_exit_group config by_user 0 working)
exit_example = my_exit_group_lem config by_user 0 working refl

init_example :
    Returns
      (λ _ k'.
        IsValid config k'
        × (k'.sys_call_table 0 ≡ custom)
        × (k'.sys_call_table 3 ≡ exiting)
        × ((n : ℕ) → n ≢ 0 → n ≢ 3 → k'.sys_call_table n ≡ original n)
        × ((n : ℕ) → (k'.table n).my_list ≡ []))
      (init_function config found)
init_example = init_function-IsValid config found found-IsPristine

exit_init_example :
    Returns
      (λ _ k'. (n : ℕ) → k'.sys_call_table n ≡ original n)
      ((init_function config >> exit_function config) found)
exit_init_example = exit-init config found found-IsPristine
