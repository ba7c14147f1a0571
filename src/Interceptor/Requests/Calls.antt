-- ===== src/Interceptor/Requests/Calls.antt =====
-- a1/interceptor.c: the requests that hook a system call and give it back.
use csc369group.Prelude.{
  ℕ, ◌≤◌, ◌≡◌, ◌≢◌, refl, true, false, ◌||◌, ℤ, pos, arith, ◌==◌, Bool-cases, inl, inr, ltb, ◌<◌,
  update, ◌∙◌,
}
use csc369group.Bits.{bit, set_bit, clear_bit}
use csc369group.Bits.Laws.{bit-set_bit, clear_bit-set_bit, clear_bit_self}
use csc369group.Interceptor.State.{
  generic, Kernel, Config, Context, ok, Status, success, pure, ◌>>=◌, unlock_calltable, set_addr_ro,
}
use csc369group.Interceptor.State.Runs.{
  lock_calltable-free, set_addr_rw-mapped, store_call-writable,
}
use csc369group.Interceptor.Invariant.{IsValid, Returns, returns}
use csc369group.Interceptor.Invariant.Rules.{Keeps}
use csc369group.Interceptor.Requests.{intercept_call, release_call, intercept_locked, my_syscall}

-- The state after the critical section of REQUEST_SYSCALL_INTERCEPT.
abbrev pub hooked : Config → ℕ → Kernel → Kernel
hooked c n k =
    let saved = update k.table n (record (k.table n) { f = k.sys_call_table n }) in
    record k {
      table = update saved n (record (saved n) { intercepted = 1 });
      sys_call_table = update k.sys_call_table n generic;
      table_pte = clear_bit c.page_rw (set_bit c.page_rw k.table_pte);
      calltable_lock = false;
    }

-- The state after the critical section of REQUEST_SYSCALL_RELEASE.
abbrev pub unhooked : Config → ℕ → Kernel → Kernel
unhooked c n k = record k {
  table = update k.table n (record (k.table n) { intercepted = 0 });
  sys_call_table = update k.sys_call_table n (k.table n).f;
  table_pte = clear_bit c.page_rw (set_bit c.page_rw k.table_pte);
  calltable_lock = false;
}

module _ (c : Config) (x : Context) (n : ℕ) (k : Kernel) (free : k.calltable_lock ≡ false)
    (ro : bit c.page_rw k.table_pte ≡ false) (mapped : k.table_pte ≢ 0) where
  opens : (clear_bit c.page_rw k.table_pte == 0) ≡ false
  opens = ground (arith, clear_bit_self c.page_rw k.table_pte ro, mapped)

  writable : bit c.page_rw (set_bit c.page_rw k.table_pte) ≡ true
  writable = ground (arith, bit-set_bit c.page_rw c.page_rw k.table_pte)

  intercept_locked_lem : intercept_locked c x n k ≡ ok success (hooked c n k)
  unfolding intercept_locked unlock_calltable set_addr_ro
  intercept_locked_lem =
      rw
        (◌>>=◌, lock_calltable-free, free, set_addr_rw-mapped, opens, store_call-writable, writable)

  release_call_root :
      (x.current_uid == 0) ≡ true
      → ((k.table n).intercepted == 0) ≡ false
      → release_call c x n k ≡ ok success (unhooked c n k)
  unfolding release_call unlock_calltable set_addr_ro
  release_call_root root held =
      rw (root, held)
        (rw (
          ◌>>=◌, lock_calltable-free, free, set_addr_rw-mapped, opens, store_call-writable,
          writable,
        ))

module _ (c : Config) (x : Context) (n : ℕ) {k : Kernel} (v : IsValid c k) where
  restored : clear_bit c.page_rw (set_bit c.page_rw k.table_pte) ≡ k.table_pte
  restored =
      clear_bit-set_bit c.page_rw k.table_pte ∙ clear_bit_self c.page_rw k.table_pte v.read_only

  pub intercept_call_valid :
      (x.current_uid == 0) ≡ true
      → ((k.table n).intercepted == 1) ≡ false
      → intercept_call c x n k ≡ ok success (hooked c n k)
  unfolding intercept_call
  intercept_call_valid root fresh =
      rw (root, fresh) (intercept_locked_lem c x n k v.calltable_free v.read_only v.mapped)

  pub release_call_valid :
      (x.current_uid == 0) ≡ true
      → ((k.table n).intercepted == 0) ≡ false
      → release_call c x n k ≡ ok success (unhooked c n k)
  release_call_valid = release_call_root c x n k v.calltable_free v.read_only v.mapped

  pub hooked-IsValid : ((k.table n).intercepted == 1) ≡ false → IsValid c (hooked c n k)
  hooked-IsValid fresh = record {
    calltable_free = refl;
    pidlist = v.pidlist;
    read_only = rw restored v.read_only;
    mapped = rw restored v.mapped;
    entries = λ m. record {
      counted = ground (arith, (v.entries m).counted, (v.entries n).counted);
      mode = ground (arith, (v.entries m).mode, (v.entries n).mode);
      idle = ground (arith, (v.entries m).idle, (v.entries n).idle);
      saved = ground (arith, (v.entries m).saved, v.hooks n, v.flags n);
    };
    hooks = λ m. ground (arith, v.hooks m);
    flags = λ m. ground (arith, v.flags m, v.flags n);
    originals = v.originals;
  }

  pub unhooked-IsValid : IsValid c (unhooked c n k)
  unhooked-IsValid = record {
    calltable_free = refl;
    pidlist = v.pidlist;
    read_only = rw restored v.read_only;
    mapped = rw restored v.mapped;
    entries = λ m. record {
      counted = ground (arith, (v.entries m).counted, (v.entries n).counted);
      mode = ground (arith, (v.entries m).mode, (v.entries n).mode);
      idle = ground (arith, (v.entries m).idle, (v.entries n).idle);
      saved = ground (arith, (v.entries m).saved, (v.entries n).saved);
    };
    hooks = λ m. ground (arith, v.hooks m, (v.entries n).saved);
    flags = λ m. ground (arith, v.flags m, v.flags n);
    originals = v.originals;
  }

  pub Keeps-intercept_call : Keeps c false (intercept_call c x n k)
  Keeps-intercept_call = elim (Bool-cases (x.current_uid == 0)) [
    | inr user ↦ unfold intercept_call in rw user (returns v)
    | inl root ↦ elim (Bool-cases ((k.table n).intercepted == 1)) [
      | inl busy ↦ unfold intercept_call in rw (root, busy) (returns v)
      | inr fresh ↦ rw (intercept_call_valid root fresh) (returns (hooked-IsValid fresh))
    ]
  ]

  pub Keeps-release_call : Keeps c false (release_call c x n k)
  Keeps-release_call = elim (Bool-cases (x.current_uid == 0)) [
    | inr user ↦ unfold release_call in rw user (returns v)
    | inl root ↦ elim (Bool-cases ((k.table n).intercepted == 0)) [
      | inl never ↦ unfold release_call in rw (root, never) (returns v)
      | inr held ↦ rw (release_call_valid root held) (returns unhooked-IsValid)
    ]
  ]

-- In a valid state, REQUEST_SYSCALL_INTERCEPT and then REQUEST_SYSCALL_RELEASE, made by root for
-- a system call that is in range and not intercepted, both succeed and leave every entry of the
-- system call table, and every flag `intercepted`, as it was.
pub release-intercept :
    (c : Config) (x : Context) (n : ℕ) (p q : ℤ) {k : Kernel}
    → IsValid c k
    → x.current_uid ≡ 0
    → 0 < n
    → n ≤ c.nr_syscalls
    → (k.table n).intercepted ≡ 0
    → Returns
        (λ s k'.
          (s ≡ success)
          × ((m : ℕ) → k'.sys_call_table m ≡ k.sys_call_table m)
          × ((m : ℕ) → (k'.table m).intercepted ≡ (k.table m).intercepted))
        ((my_syscall c x (pos 1) (pos n) p >>= λ s. elim s [
          | Status.success ↦ my_syscall c x (pos 2) (pos n) q
          | other ↦ pure other
        ])
          k)
unfolding my_syscall
release-intercept c x n p q {k} v root low high fresh =
    let range : (ltb c.nr_syscalls n || n == 0) ≡ false = ground arith in
    let uid : (x.current_uid == 0) ≡ true = ground arith in
    let idle : ((k.table n).intercepted == 1) ≡ false = ground arith in
    rw range (
      rw (intercept_call_valid c x n v uid idle) (
        rw range (
          rw (release_call_valid c x n (hooked-IsValid c x n v idle) uid (ground arith))
            (returns (refl, λ m. ground arith, λ m. ground arith)))))

-- The test of REQUEST_SYSCALL_INTERCEPT stands outside its lock. In a valid state, two runs of
-- the critical section one after the other both succeed, and the saved call of the entry is
-- `interceptor` itself then, for every system call.
pub intercept_locked_twice :
    (c : Config) (x : Context) (n : ℕ) {k : Kernel}
    → IsValid c k
    → Returns
        (λ s k'. (s ≡ success) × ((k'.table n).f ≡ generic))
        ((intercept_locked c x n >>= λ _. intercept_locked c x n) k)
intercept_locked_twice c x n {k} v =
    rw (intercept_locked_lem c x n k v.calltable_free v.read_only v.mapped) (
      rw
        (intercept_locked_lem c x n (hooked c n k) refl (rw (restored c x n v) v.read_only)
          (rw (restored c x n v) v.mapped))
        (returns (refl, ground arith)))
