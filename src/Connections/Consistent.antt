-- ===== src/Connections/Consistent.antt =====
-- What holds of the connections of a process at all times, and that each call keeps it.
use loglens_api.Base.{
  ℕ, ◌+◌, ◌≤◌, ◌<◌, ◌≡◌, ◌⊎◌, refl, sym, subst, ◌∙◌, Bool, false, Option, none, some, List, [], ◌∷◌,
  All, arith, inl, inr, Option-cases, ◌==◌,
}
use loglens_api.Connections.{
  Process, initial, get_engine, get_session_factory, dispose_engine, get_redis_client,
  close_redis_client, instrument_sqlalchemy_engine, instrument_sqlalchemy,
}

abbrev pub IsUnlisted : Option ℕ → List ℕ → Type 0
IsUnlisted none xs = Unit
IsUnlisted (some n) xs = All (λ m. (m == n) ≡ false) xs

abbrev pub IsBelow : ℕ → Option ℕ → Type 0
IsBelow next none = Unit
IsBelow next (some n) = n < next

-- The factory, if there is one, is bound to the engine that is in use; what is in use was not given up.
pub record IsConsistent (p : Process) : Type 0 where
  pub bound : (p.session_factory ≡ none) ⊎ (p.session_factory ≡ p.engine)
  pub engine_live : IsUnlisted p.engine p.disposed
  pub client_live : IsUnlisted p.redis_client p.closed
  pub engine_made : IsBelow p.engines_made p.engine
  pub client_made : IsBelow p.clients_made p.redis_client
  pub disposed_made : All (λ m. m < p.engines_made) p.disposed
  pub closed_made : All (λ m. m < p.clients_made) p.closed
  pub listened_made : All (λ m. m < p.engines_made) p.listened

pub initial-IsConsistent : IsConsistent initial
initial-IsConsistent = record {
  bound = inl refl;
  engine_live = tt;
  client_live = tt;
  engine_made = tt;
  client_made = tt;
  disposed_made = tt;
  closed_made = tt;
  listened_made = tt;
}

All-weaken : (n n' : ℕ) (ms : List ℕ) → n ≤ n' → All (λ m. m < n) ms → All (λ m. m < n') ms
All-weaken n n' [] le h = tt
All-weaken n n' (m ∷ ms) le h = (omega (arith, h.0), All-weaken n n' ms le h.1)

-- What is made next was not given up before.
pub fresh-IsUnlisted : (n : ℕ) (ms : List ℕ) → All (λ m. m < n) ms → IsUnlisted (some n) ms
fresh-IsUnlisted n [] h = tt
fresh-IsUnlisted n (m ∷ ms) h = let below = h.0 in (ground arith, fresh-IsUnlisted n ms h.1)

module _ (otel_enabled : Bool) where
  pub engine_created :
      (p : Process)
      → p.engine ≡ none
      → let (engine, q) = get_engine otel_enabled p in
        (engine ≡ p.engines_made)
        × (q.engine ≡ some p.engines_made)
        × (q.engines_made ≡ p.engines_made + 1)
        × (q.session_factory ≡ p.session_factory)
        × (q.disposed ≡ p.disposed)
        × (q.redis_client ≡ p.redis_client)
        × (q.clients_made ≡ p.clients_made)
        × (q.closed ≡ p.closed)
        × ((q.listened ≡ p.listened) ⊎ (q.listened ≡ p.engines_made ∷ p.listened))
  unfolding get_engine instrument_sqlalchemy_engine instrument_sqlalchemy
  engine_created p gone = ground arith

  engine_kept :
      (p : Process) {engine : ℕ} → p.engine ≡ some engine → get_engine otel_enabled p ≡ (engine, p)
  unfolding get_engine
  engine_kept p there = rw there refl

  pub get_engine-IsConsistent :
      (p : Process)
      → IsConsistent p
      → let (engine, q) = get_engine otel_enabled p in IsConsistent q × (q.engine ≡ some engine)
  get_engine-IsConsistent p h = elim (Option-cases p.engine) [
    | inr (engine, there) ↦ rw (engine_kept p there) (h, there)
    | inl gone ↦
        let (answer, engine, made, factory, disposed, client, clients, closed, listened) =
          engine_created p gone in
        (
          record {
            bound = inl (elim h.bound [ inl e ↦ factory ∙ e | inr e ↦ factory ∙ (e ∙ gone) ]);
            engine_live =
                rw (engine, disposed) (fresh-IsUnlisted p.engines_made p.disposed h.disposed_made);
            client_live = rw (client, closed) h.client_live;
            engine_made = rw (engine, made) (omega arith);
            client_made = rw (clients, client) h.client_made;
            disposed_made =
                rw (made, disposed) (All-weaken _ _ p.disposed (omega arith) h.disposed_made);
            closed_made = rw (clients, closed) h.closed_made;
            listened_made = elim listened [
              | inl e ↦ rw (e, made) (All-weaken _ _ p.listened (omega arith) h.listened_made)
              | inr e ↦
                  rw (e, made)
                    (omega arith, All-weaken _ _ p.listened (omega arith) h.listened_made)
            ];
          },
          rw answer engine,
        )
  ]

  factory_kept :
      (p : Process) {bound : ℕ}
      → p.session_factory ≡ some bound
      → get_session_factory otel_enabled p ≡ (bound, p)
  unfolding get_session_factory
  factory_kept p there = rw there refl

  factory_created :
      (p : Process)
      → p.session_factory ≡ none
      → let (engine, q) = get_engine otel_enabled p in
        get_session_factory otel_enabled p ≡ (engine, record q { session_factory = some engine })
  unfolding get_session_factory
  factory_created p gone = rw gone refl

  pub factory-IsConsistent :
      (p : Process)
      → IsConsistent p
      → let (bound, q) = get_session_factory otel_enabled p in
        IsConsistent q × (q.engine ≡ some bound)
  factory-IsConsistent p h = elim (Option-cases p.session_factory) [
    | inr (bound, there) ↦ subst Bound (sym (factory_kept p there)) (h, live bound there h.bound)
    | inl gone ↦
        let (kept, engine) = get_engine-IsConsistent p h in
        subst Bound (sym (factory_created p gone)) (
          record {
            bound = inr (sym engine);
            engine_live = kept.engine_live;
            client_live = kept.client_live;
            engine_made = kept.engine_made;
            client_made = kept.client_made;
            disposed_made = kept.disposed_made;
            closed_made = kept.closed_made;
            listened_made = kept.listened_made;
          },
          engine,
        )
  ]
    where
      Bound : ℕ × Process → Type 0
      Bound o = IsConsistent o.1 × (o.1.engine ≡ some o.0)

      live :
          (bound : ℕ)
          → p.session_factory ≡ some bound
          → (p.session_factory ≡ none) ⊎ (p.session_factory ≡ p.engine)
          → p.engine ≡ some bound
      live bound there (inl gone) = absurd (cc (gone, there))
      live bound there (inr same) = sym same ∙ there

dispose_none : (p : Process) → p.engine ≡ none → dispose_engine p ≡ p
unfolding dispose_engine
dispose_none p gone = rw gone refl

dispose_some :
    (p : Process) {engine : ℕ}
    → p.engine ≡ some engine
    → dispose_engine p
      ≡ record p { disposed = engine ∷ p.disposed; engine = none; session_factory = none }
unfolding dispose_engine
dispose_some p there = rw there refl

pub dispose-IsConsistent : (p : Process) → IsConsistent p → IsConsistent (dispose_engine p)
dispose-IsConsistent p h = elim (Option-cases p.engine) [
  | inl gone ↦ subst IsConsistent (sym (dispose_none p gone)) h
  | inr (engine, there) ↦ subst IsConsistent (sym (dispose_some p there)) (record {
    bound = inl refl;
    engine_live = tt;
    client_live = h.client_live;
    engine_made = tt;
    client_made = h.client_made;
    disposed_made = (subst (IsBelow p.engines_made) there h.engine_made, h.disposed_made);
    closed_made = h.closed_made;
    listened_made = h.listened_made;
  })
]

client_kept :
    (p : Process) {client : ℕ} → p.redis_client ≡ some client → get_redis_client p ≡ (client, p)
unfolding get_redis_client
client_kept p there = rw there refl

client_created :
    (p : Process)
    → p.redis_client ≡ none
    → get_redis_client p ≡ (
      p.clients_made,
      record p { redis_client = some p.clients_made; clients_made = p.clients_made + 1 },
    )
unfolding get_redis_client
client_created p gone = rw gone refl

pub client-IsConsistent : (p : Process) → IsConsistent p → IsConsistent (get_redis_client p).1
client-IsConsistent p h = elim (Option-cases p.redis_client) [
  | inr (client, there) ↦ subst (λ o. IsConsistent o.1) (sym (client_kept p there)) h
  | inl gone ↦
      subst (λ o. IsConsistent o.1) (sym (client_created p gone))
        (record {
          bound = h.bound;
          engine_live = h.engine_live;
          client_live = fresh-IsUnlisted p.clients_made p.closed h.closed_made;
          engine_made = h.engine_made;
          client_made = omega arith;
          disposed_made = h.disposed_made;
          closed_made = All-weaken _ _ p.closed (omega arith) h.closed_made;
          listened_made = h.listened_made;
        })
]

close_none : (p : Process) → p.redis_client ≡ none → close_redis_client p ≡ p
unfolding close_redis_client
close_none p gone = rw gone refl

close_some :
    (p : Process) {client : ℕ}
    → p.redis_client ≡ some client
    → close_redis_client p ≡ record p { closed = client ∷ p.closed; redis_client = none }
unfolding close_redis_client
close_some p there = rw there refl

pub close-IsConsistent : (p : Process) → IsConsistent p → IsConsistent (close_redis_client p)
close-IsConsistent p h = elim (Option-cases p.redis_client) [
  | inl gone ↦ subst IsConsistent (sym (close_none p gone)) h
  | inr (client, there) ↦ subst IsConsistent (sym (close_some p there)) (record {
    bound = h.bound;
    engine_live = h.engine_live;
    client_live = tt;
    engine_made = h.engine_made;
    client_made = tt;
    disposed_made = h.disposed_made;
    closed_made = (subst (IsBelow p.clients_made) there h.client_made, h.closed_made);
    listened_made = h.listened_made;
  })
]
