-- ===== src/Gateway/Rules.antt =====
-- src/operations/operations-gateway.ts: a rule for each way to build a method, from which follows what
-- a method does to the database, whether it ends with a value or throws.
use real_ming.Base.{Bool, true, false, if◌then◌else◌, refl, Option, none, some}
use real_ming.Store.Database.{Database, Failure, Result, ok, err}
use real_ming.Store.Sql.{Sql}
use real_ming.Store.Steps.{Steps, here, Steps-trans}
use real_ming.Store.Steps.Rules.{Reaches}
use real_ming.Gateway.World.{
  Environment, World, Notice, Run, done, thrown, after, continue, committed, forgotten, M, pure,
  throw, ◌>>=◌, transaction, read, tell, next_call, swallow, now, random_uuid,
}

-- What a method commits, it commits by steps of the database.
pub record Runs {A : Type 0} (m : M A) : Type 0 where
  pub path : (w : World) → Steps w.database (after (m w)).database

pub Runs-pure : {A : Type 0} (a : A) → Runs (pure a)
unfolding pure
Runs-pure a = record { path = λ w. here }

pub Runs-throw : {A : Type 0} (e : Failure) → Runs (throw {A = A} e)
unfolding throw
Runs-throw e = record { path = λ w. here }

pub Runs-read : {A : Type 0} (f : Database → A) → Runs (read f)
unfolding read
Runs-read f = record { path = λ w. here }

pub Runs-tell : (notice : Notice) → Runs (tell notice)
unfolding tell
Runs-tell notice = record { path = λ w. here }

pub Runs-next_call : Runs next_call
unfolding next_call
Runs-next_call = record { path = λ w. here }

pub Runs-now : (env : Environment) → Runs (now env)
unfolding now
Runs-now env = record { path = λ w. here }

pub Runs-random_uuid : (env : Environment) → Runs (random_uuid env)
unfolding random_uuid
Runs-random_uuid env = record { path = λ w. here }

continued :
    {A B : Type 0} (t : Database) (r : Run A) (k : A → M B)
    → Steps t (after r).database
    → ((a : A) → Runs (k a))
    → Steps t (after (continue r k)).database
continued t (done a w) k s h = Steps-trans s ((h a).path w)
continued t (thrown e w) k s h = s

pub Runs-bind :
    {A B : Type 0} {m : M A} {k : A → M B} → Runs m → ((a : A) → Runs (k a)) → Runs (m >>= k)
unfolding ◌>>=◌
Runs-bind {m = m} {k = k} first rest = record {
  path = λ w. continued w.database (m w) k (first.path w) rest;
}

committed-Steps :
    {A : Type 0} (w : World) (r : Result (A × Database))
    → Reaches w.database r
    → Steps w.database (after (committed w r)).database
committed-Steps w (ok (a, u)) h = h.ends a u refl
committed-Steps w (err f) h = here

pub Runs-transaction :
    {A : Type 0} {m : Sql A} → ((t : Database) → Reaches t (m t)) → Runs (transaction m)
unfolding transaction
Runs-transaction {m = m} h = record { path = λ w. committed-Steps w (m w.database) (h w.database) }

forgotten-Steps :
    {A : Type 0} (t : Database) (r : Run A)
    → Steps t (after r).database
    → Steps t (after (forgotten r)).database
forgotten-Steps t (done a v) s = s
forgotten-Steps t (thrown e v) s = s

pub Runs-swallow : {A : Type 0} {m : M A} → Runs m → Runs (swallow m)
unfolding swallow
Runs-swallow {m = m} h = record { path = λ w. forgotten-Steps w.database (m w) (h.path w) }

pub Runs-if : {A : Type 0} (b : Bool) {m k : M A} → Runs m → Runs k → Runs (if b then m else k)
Runs-if true h g = h
Runs-if false h g = g

pub Runs-option :
    {A B : Type 0} (o : Option A) {n : M B} {s : A → M B}
    → Runs n
    → ((a : A) → Runs (s a))
    → Runs (elim o [ none ↦ n | some a ↦ s a ])
Runs-option none h g = h
Runs-option (some a) h g = g a
