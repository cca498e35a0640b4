-- ===== src/Common/Results.antt =====
-- A Go result that is a value or an error, its chaining, and the outcomes of a transaction.
use Prim.Native.Nat.{ℕ}
use mathlib.Core.Path.{◌≡◌, refl}
use mathlib.Core.Logic.{◌⊎◌, inl, inr}
use mathlib.Core.Option.{Option, none, some}
use mathlib.Core.Bool.{Bool, true, false}

pub data Result {ℓ} (E : Type ℓ) (A : Type ℓ) : Type ℓ where
  ok : A → Result E A
  err : E → Result E A

pub ok_inj : {E A : Type 0} {a b : A} → (let r : Result E A = ok a in r ≡ ok b) → a ≡ b
ok_inj h = cc h

-- `if err != nil { return err }`
infixl 5 ◌>>=◌ ◌>>◌
abbrev pub ◌>>=◌ {ℓ} : {E A B : Type ℓ} → Result E A → (A → Result E B) → Result E B
ok a >>= f = f a
err e >>= f = err e

abbrev pub ◌>>◌ {ℓ} : {E A B : Type ℓ} → Result E A → Result E B → Result E B
m >> k = m >>= λ _. k

-- The nil error, or one that ends the function, as the caller wraps it.
abbrev pub no_error : {C E : Type 0} → (C → E) → Option C → Result E (Unit {0})
no_error wrap none = ok tt
no_error wrap (some e) = err (wrap e)

-- Go's test of a condition that has to hold, with the error returned where it does not.
abbrev pub require : {E : Type 0} → Bool → E → Result E (Unit {0})
require true e = ok tt
require false e = err e

pub require-ok : {E : Type 0} (b : Bool) (e : E) → require b e ≡ ok tt → b ≡ true
require-ok true e h = refl
require-ok false e h = cc h

-- A chain that gives a value ran both of its parts.
pub >>=-eq-ok :
    {E A B : Type 0} (m : Result E A) (f : A → Result E B) (b : B)
    → (m >>= f) ≡ ok b
    → (a : A) × (m ≡ ok a) × (f a ≡ ok b)
>>=-eq-ok (ok a) f b h = (a, refl, h)
>>=-eq-ok (err e) f b h = cc h

-- A check that precedes it passed.
pub >>-eq-ok :
    {E A : Type 0} (m : Result E (Unit {0})) (k : Result E A) (b : A)
    → (m >> k) ≡ ok b
    → (m ≡ ok tt) × (k ≡ ok b)
>>-eq-ok (ok tt) k b h = (refl, h)
>>-eq-ok (err e) k b h = cc h

-- What a commit comes to: done, undone with an error, or done with the reply lost.
pub data CommitOutcome : Type 0 where
  commits : CommitOutcome
  rolls_back : ℕ → CommitOutcome
  reply_lost : ℕ → CommitOutcome

-- The end of a transaction whose body has run on the state before.
pub settle_transaction :
    {S E A : Type 0} → (ℕ → E) → CommitOutcome → S → Result E (S × A) → S × Result E A
settle_transaction failure c before (err e) = (before, err e)
settle_transaction failure commits before (ok (after, a)) = (after, ok a)
settle_transaction failure (rolls_back e) before (ok (after, a)) = (before, err (failure e))
settle_transaction failure (reply_lost e) before (ok (after, a)) = (after, err (failure e))

-- `BeginTx`, the body, `Commit`, with the deferred `Rollback` on every early return.
unfoldable pub transact :
    {S E A : Type 0}
    → (ℕ → E)
    → Option ℕ
    → CommitOutcome
    → (S → Result E (S × A))
    → S
    → S × Result E A
unfolding settle_transaction
transact failure (some e) c body before = (before, err (failure e))
transact failure none c body before = settle_transaction failure c before (body before)

-- A transaction that reports success ran its body and keeps what it wrote.
pub transact-ok :
    {S E A : Type 0} (failure : ℕ → E) (begin_fails : Option ℕ) (c : CommitOutcome)
    (body : S → Result E (S × A)) (s : S) (a : A)
    → (transact failure begin_fails c body s).1 ≡ ok a
    → body s ≡ ok ((transact failure begin_fails c body s).0, a)
unfolding transact
transact-ok {S} {E} {A} failure (some e) c body s a h = cc h
transact-ok {S} {E} {A} failure none c body s a h = settled (body s) c h
  where
    settled :
        (r : Result E (S × A)) (c : CommitOutcome)
        → (settle_transaction failure c s r).1 ≡ ok a
        → r ≡ ok ((settle_transaction failure c s r).0, a)
    settled (err e) c k = cc k
    settled (ok (t, b)) commits k = cc k
    settled (ok (t, b)) (rolls_back e) k = cc k
    settled (ok (t, b)) (reply_lost e) k = cc k

-- A transaction leaves the state as it was, or as its body left it.
pub transact-states :
    {S E A : Type 0} (failure : ℕ → E) (begin_fails : Option ℕ) (c : CommitOutcome)
    (body : S → Result E (S × A)) (s : S)
    → ((transact failure begin_fails c body s).0 ≡ s)
      ⊎ ((a : A) × (body s ≡ ok ((transact failure begin_fails c body s).0, a)))
unfolding transact
transact-states {S} {E} {A} failure (some e) c body s = inl refl
transact-states {S} {E} {A} failure none c body s = settled (body s) c
  where
    settled :
        (r : Result E (S × A)) (c : CommitOutcome)
        → ((settle_transaction failure c s r).0 ≡ s)
          ⊎ ((a : A) × (r ≡ ok ((settle_transaction failure c s r).0, a)))
    settled (err e) c = inl refl
    settled (ok (t, b)) commits = inr (b, refl)
    settled (ok (t, b)) (rolls_back e) = inl refl
    settled (ok (t, b)) (reply_lost e) = inr (b, refl)
