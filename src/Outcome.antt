-- ===== src/Outcome.antt =====
-- How a C function of a2/starter and a3 ends. It returns, calls `exit`, or stops at an `assert` or at
-- an access outside an array.
use csc369group.Prelude.{ℕ, Bool, true, false}

pub data Outcome (A : Type 0) : Type 0 where
  ok : A → Outcome A
  exit : (status : ℕ) → Outcome A
  abort : Outcome A

infixl 5 ◌>>=◌ ◌>>◌
abbrev pub ◌>>=◌ : {A B : Type 0} → Outcome A → (A → Outcome B) → Outcome B
ok a >>= f = f a
exit n >>= f = exit n
abort >>= f = abort

abbrev pub ◌>>◌ : {B : Type 0} → Outcome (Unit {0}) → Outcome B → Outcome B
m >> n = m >>= λ _. n

abbrev pub assert : Bool → Outcome (Unit {0})
assert true = ok tt
assert false = abort

-- The function returns, with a result of which `P` holds.
pub data Returns {A : Type 0} (P : A → Type 0) : Outcome A → Type 0 where
  returns : {a : A} → P a → Returns P (ok a)

pub bind :
    {A B : Type 0} {P : A → Type 0} {Q : B → Type 0} {m : Outcome A} {f : A → Outcome B}
    → Returns P m
    → ((a : A) → P a → Returns Q (f a))
    → Returns Q (m >>= f)
bind (returns p) next = next _ p

pub imply :
    {A : Type 0} {P Q : A → Type 0} {m : Outcome A}
    → Returns P m
    → ((a : A) → P a → Q a)
    → Returns Q m
imply (returns p) h = returns (h _ p)
