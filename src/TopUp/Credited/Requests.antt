-- ===== src/TopUp/Credited/Requests.antt =====
-- Whole requests and sweeps are sequences of these transactions, however they end.
use ai_cinema_be.Common.{◌≡◌, refl, Bool, true, false, Option, some, none, if◌then◌else◌}
use ai_cinema_be.Common.Errors.{Error}
use ai_cinema_be.Common.Transaction.{Tx, Result, ok, err}
use ai_cinema_be.Common.Action.{Action, commit, requires, or_fail, next, ◌>>=◌, ◌>>◌}
use ai_cinema_be.Settings.{PlatformSetting}
use ai_cinema_be.Wallet.Rows.{Database}
use ai_cinema_be.TopUp.Rows.{Orders}
use ai_cinema_be.TopUp.Credited.Reach.{Step, Reach, here, next as then_step}

module _ (db : Database) (s : PlatformSetting) where
  pub Reach-trans : {a b c : Orders} → Reach db s a b → Reach db s b c → Reach db s a c
  Reach-trans p here = p
  Reach-trans p (then_step q t) = then_step (Reach-trans p q) t

  -- Whatever the action answers, the store that it leaves is reached from the one that it got.
  abbrev pub Runs : {A : Type 0} → Action Orders A → Type 0
  Runs m = (st : Orders) → Reach db s st (m st).1

  pub Runs-next :
      {A B : Type 0} (st : Orders) (r : Result A × Orders) (f : A → Action Orders B)
      → Reach db s st r.1
      → ((a : A) → Runs (f a))
      → Reach db s st (next r f).1
  Runs-next st (ok a, mid) f p q = Reach-trans p (q a mid)
  Runs-next st (err e, mid) f p q = p

  pub Runs-bind :
      {A B : Type 0} (m : Action Orders A) (f : A → Action Orders B)
      → Runs m
      → ((a : A) → Runs (f a))
      → Runs (m >>= f)
  Runs-bind m f p q st = Runs-next st (m st) f (p st) q

  pub Runs-then :
      {A B : Type 0} (m : Action Orders A) (k : Action Orders B) → Runs m → Runs k → Runs (m >> k)
  Runs-then m k p q = Runs-bind m (λ _. k) p (λ _. q)

  committed :
      {A : Type 0} (st : Orders) (r : Result (A × Orders))
      → ((a : A) (after : Orders) → r ≡ ok (a, after) → Reach db s st after)
      → Reach db s st
          (elim r as (λ _. Result A × Orders) [ ok p ↦ (ok p.0, p.1) | err e ↦ (err e, st) ]).1
  committed st (ok (a, after)) p = p a after refl
  committed st (err e) p = here

  pub Runs-commit :
      {A : Type 0} (m : Tx Orders A)
      → ((st after : Orders) (a : A) → m st ≡ ok (a, after) → Step db s st after)
      → Runs (commit m)
  Runs-commit m p st = committed st (m st) (λ a after h. then_step here (p st after a h))

  pub Runs-requires : (t : Bool) (e : Error) → Runs (requires {S = Orders} t e)
  Runs-requires true e st = here
  Runs-requires false e st = here

  pub Runs-or_fail : {A : Type 0} (o : Option A) (e : Error) → Runs (or_fail {S = Orders} o e)
  Runs-or_fail none e st = here
  Runs-or_fail (some a) e st = here

  pub Runs-if :
      {A : Type 0} (t : Bool) (m k : Action Orders A) → Runs m → Runs k → Runs (if t then m else k)
  Runs-if true m k p q = p
  Runs-if false m k p q = q
