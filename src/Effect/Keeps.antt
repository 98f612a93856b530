-- ===== src/Effect/Keeps.antt =====
-- Invariants of actions: one rule for each way to build an action.
use loglens_api.Base.{◌≡◌, refl, Bool, true, false, Option, none, some, if◌then◌else◌}
use loglens_api.Errors.{Error}
use loglens_api.Effect.{Env, World, Result, ok, err, Action, pure, raise, or_raise, ◌>>=◌, catch}

-- The action keeps `P`, whether it returns or raises.
pub record Keeps {env : Env} {A : Type 0} (P : World env → Type 0) (m : Action env A) : Type 0 where
  pub at : (w : World env) → P w → P (m w).1

module _ {env : Env} {A : Type 0} {P : World env → Type 0} where
  pub Keeps-pure : (a : A) → Keeps P (pure a)
  Keeps-pure a = record { at = λ w h. h }

  pub Keeps-raise : (e : Error) → Keeps P (raise {A = A} e)
  Keeps-raise e = record { at = λ w h. h }

  pub Keeps-or_raise : (o : Option A) (e : Error) → Keeps P (or_raise o e)
  Keeps-or_raise none e = record { at = λ w h. h }
  Keeps-or_raise (some a) e = record { at = λ w h. h }

  pub Keeps-if :
      (b : Bool) (m n : Action env A) → Keeps P m → Keeps P n → Keeps P (if b then m else n)
  Keeps-if true m n km kn = km
  Keeps-if false m n km kn = kn

module _ {env : Env} {A B : Type 0} {P : World env → Type 0} where
  pub Keeps-bind :
      (m : Action env A) (f : A → Action env B)
      → Keeps P m
      → ((a : A) → Keeps P (f a))
      → Keeps P (m >>= f)
  Keeps-bind m f km kf = record { at = λ w h. after (m w).0 (m w).1 (km.at w h) }
    where
      after :
          (r : Result A) (w' : World env)
          → P w'
          → P (elim r as (λ _. Result B × World env) [ ok a ↦ f a w' | err e ↦ (err e, w') ]).1
      after (ok a) w' h = (kf a).at w' h
      after (err e) w' h = h

  pub Keeps-after :
      (m : Action env A) (f : A → Action env B) (w : World env)
      → P (m w).1
      → ((a : A) → Keeps P (f a))
      → P ((m >>= f) w).1
  Keeps-after m f w h kf = after (m w).0 (m w).1 h
    where
      after :
          (r : Result A) (w' : World env)
          → P w'
          → P (elim r as (λ _. Result B × World env) [ ok a ↦ f a w' | err e ↦ (err e, w') ]).1
      after (ok a) w' h = (kf a).at w' h
      after (err e) w' h = h

  -- What may be used of the value that `m` gives, in the state that it leaves.
  pub Keeps-bind_at :
      (m : Action env A) (f : A → Action env B)
      → Keeps P m
      → ((w : World env) (a : A) → P w → (m w).0 ≡ ok a → P (f a (m w).1).1)
      → Keeps P (m >>= f)
  Keeps-bind_at m f km kf = record { at = λ w h. after w h (m w).0 refl }
    where
      after :
          (w : World env) (h : P w) (r : Result A)
          → (m w).0 ≡ r
          → P
              (elim r as (λ _. Result B × World env) [
                | ok a ↦ f a (m w).1
                | err e ↦ (err e, (m w).1)
              ]).1
      after w h (ok a) e = kf w a h e
      after w h (err x) e = km.at w h

module _ {env : Env} {A : Type 0} {P : World env → Type 0} where
  pub Keeps-catch :
      (m : Action env A) (handler : Error → Action env A)
      → Keeps P m
      → ((e : Error) → Keeps P (handler e))
      → Keeps P (catch m handler)
  Keeps-catch m handler km kh = record { at = λ w h. after (m w).0 (m w).1 (km.at w h) }
    where
      after :
          (r : Result A) (w' : World env)
          → P w'
          → P (elim r as (λ _. Result A × World env) [ ok a ↦ (ok a, w') | err e ↦ handler e w' ]).1
      after (ok a) w' h = h
      after (err e) w' h = (kh e).at w' h

pub ruleset keeps_rules =
    (Keeps-pure, Keeps-raise, Keeps-or_raise, Keeps-if, Keeps-bind, Keeps-catch)
