-- ===== src/Effect/Laws.antt =====
-- One step of an action at a time.
use loglens_api.Base.{◌≡◌, ap}
use loglens_api.Effect.{Env, World, Result, ok, err, Action, ◌>>=◌, catch}
use loglens_api.Errors.{Error}

module _ {env : Env} {A B : Type 0} where
  -- What follows a step that gives a value.
  pub bind-ok :
      (m : Action env A) (f : A → Action env B) (w : World env) {w' : World env} {a : A}
      → m w ≡ (ok a, w')
      → (m >>= f) w ≡ f a w'
  bind-ok m f w e =
      ap (λ (r : Result A × World env). elim r.0 [ ok a ↦ f a r.1 | err e ↦ (err e, r.1) ]) e

  -- What follows a step that raises.
  pub bind-err :
      (m : Action env A) (f : A → Action env B) (w : World env) {w' : World env} {e : Error}
      → m w ≡ (err e, w')
      → (m >>= f) w ≡ (err e, w')
  bind-err m f w e =
      ap (λ (r : Result A × World env). elim r.0 [ ok a ↦ f a r.1 | err e ↦ (err e, r.1) ]) e

module _ {env : Env} {A : Type 0} where
  abbrev handled : (Error → Action env A) → Result A × World env → Result A × World env
  handled handler r = elim r.0 [ ok a ↦ (ok a, r.1) | err e ↦ handler e r.1 ]

  pub catch-ok :
      (m : Action env A) (handler : Error → Action env A) (w : World env) {w' : World env} {a : A}
      → m w ≡ (ok a, w')
      → catch m handler w ≡ (ok a, w')
  catch-ok m handler w e = ap (handled handler) e

  pub catch-err :
      (m : Action env A) (handler : Error → Action env A) (w : World env) {w' : World env}
      {e : Error}
      → m w ≡ (err e, w')
      → catch m handler w ≡ handler e w'
  catch-err m handler w h = ap (handled handler) h
