-- ===== src/Gateway/Quiet.antt =====
-- src/operations/operations-gateway.ts: the parts of methods that commit nothing and ask no worker for an
-- effect.
use real_ming.Base.{◌≡◌, refl, ◌∙◌, Option, none, some, List, [], ◌∷◌, ◌++◌}
use real_ming.Contracts.Records.{WorkerEffect}
use real_ming.Store.Database.{Database, Failure}
use real_ming.Gateway.World.{
  Environment, World, Notice, effect_requested, Run, done, thrown, after, continue, M, pure, throw,
  ◌>>=◌, read, tell, next_call, now,
}

abbrev requested : Notice → List WorkerEffect
requested (effect_requested effect) = effect ∷ []
requested _ = []

-- The effects that the worker has been asked for.
abbrev pub requested_effects : List Notice → List WorkerEffect
requested_effects [] = []
requested_effects (n ∷ ns) = requested n ++ requested_effects ns

-- The database stays as it is, and no effect is asked for.
pub record Untouched (v w : World) : Type 0 where
  pub database : w.database ≡ v.database
  pub effects : requested_effects w.told ≡ requested_effects v.told

pub record Quiet {A : Type 0} (m : M A) : Type 0 where
  pub same : (w : World) → Untouched w (after (m w))

nothing : {w : World} → Untouched w w
nothing = record { database = refl; effects = refl }

Untouched-trans : {u v w : World} → Untouched u v → Untouched v w → Untouched u w
Untouched-trans a b = record { database = b.database ∙ a.database; effects = b.effects ∙ a.effects }

pub Quiet-pure : {A : Type 0} (a : A) → Quiet (pure a)
unfolding pure
Quiet-pure a = record { same = λ w. nothing }

pub Quiet-throw : {A : Type 0} (e : Failure) → Quiet (throw {A = A} e)
unfolding throw
Quiet-throw e = record { same = λ w. nothing }

pub Quiet-read : {A : Type 0} (f : Database → A) → Quiet (read f)
unfolding read
Quiet-read f = record { same = λ w. nothing }

requested-append :
    (ns : List Notice) (n : Notice)
    → requested n ≡ []
    → requested_effects (ns ++ (n ∷ [])) ≡ requested_effects ns
requested-append [] n h = rw h refl
requested-append (m ∷ ns) n h = rw (requested-append ns n h) refl

pub Quiet-tell : (notice : Notice) → requested notice ≡ [] → Quiet (tell notice)
unfolding tell
Quiet-tell notice h = record {
  same = λ w. record { database = refl; effects = requested-append w.told notice h };
}

pub Quiet-next_call : Quiet next_call
unfolding next_call
Quiet-next_call = record { same = λ w. record { database = refl; effects = refl } }

pub Quiet-now : (env : Environment) → Quiet (now env)
unfolding now
Quiet-now env = record { same = λ w. record { database = refl; effects = refl } }

continued :
    {A B : Type 0} (v : World) (r : Run A) (k : A → M B)
    → Untouched v (after r)
    → ((a : A) → Quiet (k a))
    → Untouched v (after (continue r k))
continued v (done a w) k s h = Untouched-trans s ((h a).same w)
continued v (thrown e w) k s h = s

pub Quiet-bind :
    {A B : Type 0} {m : M A} {k : A → M B} → Quiet m → ((a : A) → Quiet (k a)) → Quiet (m >>= k)
unfolding ◌>>=◌
Quiet-bind {m = m} {k = k} first rest = record {
  same = λ w. continued w (m w) k (first.same w) rest;
}

pub Quiet-option :
    {A B : Type 0} (o : Option A) {n : M B} {s : A → M B}
    → Quiet n
    → ((a : A) → Quiet (s a))
    → Quiet (elim o [ none ↦ n | some a ↦ s a ])
Quiet-option none h g = h
Quiet-option (some a) h g = g a
