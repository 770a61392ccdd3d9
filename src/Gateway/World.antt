-- ===== src/Gateway/World.antt =====
-- src/operations/operations-gateway.ts: the gateway's surroundings, and its methods' way to run: a method
-- changes the world and ends with a value or a failure, and what it had committed stays.
-- The methods of one gateway run one after another here: none starts while another waits.
use real_ming.Base.{ℕ, suc, String, Bool, Option, List, ◌∷◌, [], ◌++◌}
use real_ming.Contracts.Kinds.{UnavailableReason}
use real_ming.Contracts.Json.{Json}
use real_ming.Contracts.Records.{
  CeoCommand, CommandClassification, ExpectedEffect, WorkItem, WorkerEffect, WorkerReceipt,
}
use real_ming.Store.Database.{Database, Failure, Result, ok, err}
use real_ming.Store.Sql.{Sql}

-- `options.worker.execute`: a receipt, a `WorkerUnavailableError`, or any other error.
pub data WorkerReply : Type 0 where
  receipt : WorkerReceipt → WorkerReply
  unavailable : UnavailableReason → WorkerReply
  broken : WorkerReply

-- `options.workItemChanged`: done, an error that `workItemProjectionRetryable` accepts, or another.
pub data Projection : Type 0 where
  projected : Projection
  transient : Projection
  refused : Projection

pub data MaterialBlockerReason : Type 0 where
  collaborator_execution_failed : MaterialBlockerReason
  effect_verification_failed : MaterialBlockerReason
  worker_execution_failed : MaterialBlockerReason
  worker_unavailable : UnavailableReason → MaterialBlockerReason

-- What the gateway is given: the clock, `randomUUID`, the detector of secrets, the classifier, the
-- worker, the verifier, the responder and the projector. A reply may depend on which call it is.
pub record Environment : Type 0 where
  pub clock : ℕ → String
  pub uuid : ℕ → String
  pub carries_secret : Json → Bool
  pub sensitive_fields : Option (List (String × String)) → List String
  pub classify : CeoCommand → CommandClassification
  pub answer : ℕ → CeoCommand → Result String
  pub execute : ℕ → WorkerEffect → WorkerReply
  pub verify : ℕ → WorkerReceipt → ExpectedEffect → WorkerEffect → Bool
  pub project : Option (ℕ → WorkItem → Projection)

-- What the gateway tells the callbacks that it was composed with.
pub data Notice : Type 0 where
  work_item_changed : WorkItem → Notice
  projection_failed : WorkItem → Notice
  material_blocker : WorkItem → MaterialBlockerReason → Notice
  blocker_recovered : WorkItem → Notice
  effect_requested : WorkerEffect → Notice

pub record World : Type 0 where
  pub database : Database
  pub ticks : ℕ  -- readings of the clock
  pub draws : ℕ  -- identifiers drawn
  pub calls : ℕ  -- calls of the worker, the verifier, the responder and the projector
  pub told : List Notice  -- the latest last

pub data Run (A : Type 0) : Type 0 where
  done : A → World → Run A
  thrown : Failure → World → Run A

abbrev pub after : {A : Type 0} → Run A → World
after (done a w) = w
after (thrown e w) = w

abbrev pub M : Type 0 → Type 0
M A = World → Run A

unfoldable pub pure : {A : Type 0} → A → M A
pure a w = done a w

unfoldable pub throw : {A : Type 0} → Failure → M A
throw e w = thrown e w

abbrev pub continue : {A B : Type 0} → Run A → (A → M B) → Run B
continue (done a w) f = f a w
continue (thrown e w) f = thrown e w

infixl 5 ◌>>=◌ ◌>>◌
-- Opening this opens the other ways to build a method.
unfoldable pub ◌>>=◌ : {A B : Type 0} → M A → (A → M B) → M B
unfolding pure throw
◌>>=◌ m f w = continue (m w) f

abbrev pub ◌>>◌ : {A B : Type 0} → M A → M B → M B
m >> k = m >>= λ _. k

-- A method of `OperationsState`.
abbrev pub committed : {A : Type 0} → World → Result (A × Database) → Run A
committed w (ok (a, db)) = done a (record w { database = db })
committed w (err e) = thrown e w

unfoldable pub transaction : {A : Type 0} → Sql A → M A
transaction m w = committed w (m w.database)

unfoldable pub read : {A : Type 0} → (Database → A) → M A
read f w = done (f w.database) w

unfoldable pub tell : Notice → M (Unit {0})
tell notice w = done tt (record w { told = w.told ++ (notice ∷ []) })

-- The index of the next call.
unfoldable pub next_call : M ℕ
next_call w = done w.calls (record w { calls = suc w.calls })

-- `await m.catch(() => undefined)`
abbrev pub forgotten : {A : Type 0} → Run A → Run (Unit {0})
forgotten (done a w) = done tt w
forgotten (thrown e w) = done tt w

unfoldable pub swallow : {A : Type 0} → M A → M (Unit {0})
swallow m w = forgotten (m w)

module _ (env : Environment) where
  unfoldable pub now : M String
  now w = done (env.clock w.ticks) (record w { ticks = suc w.ticks })

  unfoldable pub random_uuid : M String
  random_uuid w = done (env.uuid w.draws) (record w { draws = suc w.draws })
