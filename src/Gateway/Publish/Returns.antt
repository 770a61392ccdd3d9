-- ===== src/Gateway/Publish/Returns.antt =====
-- src/operations/operations-gateway.ts: publishing commits nothing, and returns the Work Item or throws.
use real_ming.Base.{ℕ, ◌≡◌, refl, Option, none, some}
use real_ming.Contracts.Records.{WorkItem}
use real_ming.Gateway.World.{
  Environment, World, done, Projection, projected, transient, refused, M, pure, throw, ◌>>=◌, tell,
  next_call,
}
use real_ming.Gateway.Quiet.{
  Quiet, Quiet-pure, Quiet-throw, Quiet-tell, Quiet-next_call, Quiet-bind, Quiet-option,
}
use real_ming.Gateway.Publish.{project_once, give_up, second_reply, first_reply, publish}

-- A method that returns nothing but `item`.
record Yields (item : WorkItem) (m : M WorkItem) : Type 0 where
  same : (w v : World) (a : WorkItem) → m w ≡ done a v → a ≡ item

Yields-pure : (item : WorkItem) → Yields item (pure item)
unfolding pure
Yields-pure item = record { same = λ w v a h. let same : done item w ≡ done a v = h in cc }

Yields-option :
    {A : Type 0} {item : WorkItem} (o : Option A) {n : M WorkItem} {s : A → M WorkItem}
    → Yields item n
    → ((a : A) → Yields item (s a))
    → Yields item (elim o [ none ↦ n | some a ↦ s a ])
Yields-option none h g = h
Yields-option (some a) h g = g a

module _ (env : Environment) where
  project_once-Quiet :
      (project : ℕ → WorkItem → Projection) (item : WorkItem)
      → Quiet (project_once env project item)
  unfolding project_once
  project_once-Quiet project item =
      Quiet-bind (Quiet-tell _ refl) λ u. Quiet-bind Quiet-next_call λ n. Quiet-pure _

  give_up-Quiet : (item : WorkItem) → Quiet (give_up env item)
  unfolding give_up
  give_up-Quiet item = Quiet-bind (Quiet-tell _ refl) λ u. Quiet-throw _

  second_reply-Quiet : (item : WorkItem) (reply : Projection) → Quiet (second_reply env item reply)
  unfolding second_reply
  second_reply-Quiet item projected = Quiet-pure item
  second_reply-Quiet item transient = give_up-Quiet item
  second_reply-Quiet item refused = give_up-Quiet item

  first_reply-Quiet :
      (project : ℕ → WorkItem → Projection) (item : WorkItem) (reply : Projection)
      → Quiet (first_reply env project item reply)
  unfolding first_reply
  first_reply-Quiet project item projected = Quiet-pure item
  first_reply-Quiet project item refused = give_up-Quiet item
  first_reply-Quiet project item transient =
      Quiet-bind (project_once-Quiet project item) (second_reply-Quiet item)

  pub publish-Quiet : (item : WorkItem) → Quiet (publish env item)
  unfolding publish
  publish-Quiet item =
      Quiet-option env.project (Quiet-pure item)
        λ project. Quiet-bind (project_once-Quiet project item) (first_reply-Quiet project item)

  -- Without a projector, publishing returns at once.
  pub publish-none :
      (item : WorkItem) (w : World) → env.project ≡ none → publish env item w ≡ done item w
  unfolding publish pure
  publish-none item w h = rw h refl

  second_reply-same :
      (item a : WorkItem) (reply : Projection) (w v : World)
      → second_reply env item reply w ≡ done a v
      → a ≡ item
  unfolding second_reply give_up pure throw tell ◌>>=◌
  second_reply-same item a projected w v h = cc
  second_reply-same item a transient w v h = cc
  second_reply-same item a refused w v h = cc

  first_reply-same :
      (project : ℕ → WorkItem → Projection) (item a : WorkItem) (reply : Projection) (w v : World)
      → first_reply env project item reply w ≡ done a v
      → a ≡ item
  unfolding first_reply give_up project_once pure throw tell next_call ◌>>=◌
  first_reply-same project item a projected w v h = cc
  first_reply-same project item a transient w v h = second_reply-same item a _ _ v h
  first_reply-same project item a refused w v h = cc

  pub publish-same : (item a : WorkItem) (w v : World) → publish env item w ≡ done a v → a ≡ item
  unfolding publish project_once pure tell next_call ◌>>=◌
  publish-same item a w v h =
      (Yields-option env.project (Yields-pure item) λ project. record {
        same = λ w v a h. first_reply-same project item a (project w.calls item) _ v h;
      }).same
        w v a h
