-- ===== src/Interceptor/State/Runs.antt =====
-- a1/interceptor.c: when the primitive commands of `Interceptor.State` go through.
use csc369group.Prelude.{ℕ, ◌≡◌, true, false, ◌==◌, update}
use csc369group.Bits.{bit, set_bit, clear_bit}
use csc369group.Interceptor.State.{
  Handler, Kernel, Config, ok, lock_calltable, lock_pidlist, set_addr_rw, store_call,
}

module _ (k : Kernel) where
  pub lock_calltable-free :
      k.calltable_lock ≡ false → lock_calltable k ≡ ok tt (record k { calltable_lock = true })
  unfolding lock_calltable
  lock_calltable-free h = rw h

  pub lock_pidlist-free :
      k.pidlist_lock ≡ false → lock_pidlist k ≡ ok tt (record k { pidlist_lock = true })
  unfolding lock_pidlist
  lock_pidlist-free h = rw h

  pub set_addr_rw-mapped :
      (c : Config)
      → (clear_bit c.page_rw k.table_pte == 0) ≡ false
      → set_addr_rw c k ≡ ok tt (record k { table_pte = set_bit c.page_rw k.table_pte })
  unfolding set_addr_rw
  set_addr_rw-mapped c h = rw h

  pub store_call-writable :
      (c : Config) (n : ℕ) (h : Handler)
      → bit c.page_rw k.table_pte ≡ true
      → store_call c n h k ≡ ok tt (record k { sys_call_table = update k.sys_call_table n h })
  unfolding store_call
  store_call-writable c n h e = rw e
