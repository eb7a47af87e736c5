-- ===== src/Trigger/Resource/Worker.antt =====
-- trigger/resource/resource.go: the worker that takes keys from the work queue and syncs them. The
-- queue (client-go's workqueue) and the informer's store are parameters.
use locutus.Trigger.{ExecutionRegister, execute_registered}
use locutus.Prelude.{
  ℕ, zero, suc, String, Bool, true, false, ◌≡◌, ◌⊎◌, Option, none, some, if◌then◌else◌,
}
use locutus.Outcome.{Error, Outcome, ok, err, panic, M, pure, lift, attempt, ◌>>=◌, ◌>>◌}
use locutus.Env.{Env}
use locutus.Client.{Client}
use locutus.Feedback.{ObjectFeedback, new_feedback}
use locutus.Rollout.Config.{RolloutConfig}

-- `get` has no key once the queue is shut down.
pub record WorkQueue (W : Type 0) : Type 0 where
  pub get : W → Option String × W
  pub add : String → W → W
  pub done : String → W → W
  pub forget : String → W → W
  pub add_rate_limited : String → W → W
  pub shut_down : W → W

-- What the queue promises, where `Waiting` means that the key waits or that the queue is shut down,
-- since it takes no key from then on. A key waits from when it was added, at once or after a delay,
-- until a worker gets it. One that is added again by the worker that has it is `Held`, and waits only
-- from when its item is done.
pub record QueueLaws {W : Type 0} (queue : WorkQueue W) : Type 1 where
  pub Waiting : String → W → Type 0
  pub Held : String → W → Type 0
  pub put : (key : String) (w : W) → Waiting key (queue.add key w)
  pub added : (key : String) (w : W) → Held key (queue.add_rate_limited key w)
  pub released : (key : String) (w : W) → Held key w → Waiting key (queue.done key w)
  pub got :
      (key : String) (w : W)
      → Waiting key w
      → Waiting key (queue.get w).1 ⊎ ((queue.get w).0 ≡ some key)
  pub kept : (key other : String) (w : W) → Waiting key w → Waiting key (queue.done other w)
  pub put_keeps : (key other : String) (w : W) → Waiting key w → Waiting key (queue.add other w)
  pub add_keeps :
      (key other : String) (w : W) → Waiting key w → Waiting key (queue.add_rate_limited other w)
  pub forget_keeps :
      (key other : String) (w : W) → Waiting key w → Waiting key (queue.forget other w)

module _ (env : Env) (W : Type 0) where
  open env use {Obj}

  pub record ResourceTrigger : Type 0 where
    pub executions : ExecutionRegister W (RolloutConfig env)
    pub client : Client env
    pub queue : WorkQueue W
    -- GetByKey of the main informer's store, and json.Marshal
    pub get_by_key : String → M W (Option Obj)
    pub marshal : Obj → Outcome String
    -- DeletionHandlingMetaNamespaceKeyFunc
    pub key_of : Obj → Outcome String
    pub write_status : Bool

  -- What is given to `enqueue`: nil, a key, or an object.
  pub data Enqueued : Type 0 where
    nothing : Enqueued
    a_key : String → Enqueued
    an_object : Obj → Enqueued

  abbrev pub known_key : Outcome String → Option String
  known_key (ok k) = some k
  known_key (err e) = none
  known_key panic = none

  abbrev pub key_func : ResourceTrigger → Obj → Option String
  key_func p obj = known_key (p.key_of obj)

  abbrev pub add_key : ResourceTrigger → Option String → M W (Unit {0})
  add_key p none w = (ok tt, w)
  add_key p (some k) w = (ok tt, p.queue.add k w)

  unfoldable pub enqueue : ResourceTrigger → Enqueued → M W (Unit {0})
  enqueue p nothing = pure tt
  enqueue p (a_key k) = add_key p (some k)
  enqueue p (an_object obj) = add_key p (key_func p obj)

  abbrev pub feedback_for : ResourceTrigger → Obj → Option (ObjectFeedback env)
  feedback_for p obj = if p.write_status then some (new_feedback env p.client obj) else none

  abbrev pub sync_object : ResourceTrigger → Option Obj → M W (Unit {0})
  sync_object p none = pure tt
  sync_object p (some obj) = do
    cfg ← lift (p.marshal obj)
    execute_registered W (RolloutConfig env) p.executions
        (some (record { raw_config = some cfg; feedback = feedback_for p obj }))

  unfoldable pub sync : ResourceTrigger → String → M W (Unit {0})
  sync p key = p.get_by_key key >>= sync_object p

  abbrev pub change : (W → W) → M W (Unit {0})
  change f w = (ok tt, f w)

  -- the deferred Done, which runs after a panic too
  abbrev pub then_done : {A : Type 0} → (W → W) → M W A → M W A
  then_done f m w = let (o, w') = m w in (o, f w')

  abbrev pub process_key : ResourceTrigger → Option String → M W Bool
  process_key p none = pure false
  process_key p (some key) = then_done (p.queue.done key) (
      attempt (sync p key) (λ _. change (p.queue.forget key) >> pure true)
        (λ _. change (p.queue.add_rate_limited key) >> pure true))

  -- The answer is whether the worker goes on.
  unfoldable pub process_next_work_item : ResourceTrigger → M W Bool
  process_next_work_item p w = let (key, w') = p.queue.get w in process_key p key w'

  -- The worker, for at most the number of items; it ends at the first that is not to go on.
  unfoldable pub worker : ℕ → ResourceTrigger → M W (Unit {0})
  worker zero p = pure tt
  worker (suc items) p =
      process_next_work_item p >>= λ more. if more then worker items p else pure tt

  -- Where a key that was added again waits when its item is done, a key that the worker
  -- took and whose sync failed is waiting again afterwards, and the worker goes on.
  process_next_work_item-Waiting :
      (p : ResourceTrigger) (laws : QueueLaws p.queue) (key : String) (e : Error) (w w₁ w₂ : W)
      → p.queue.get w ≡ (some key, w₁)
      → sync p key w₁ ≡ (err e, w₂)
      → (w' : W) × (process_next_work_item p w ≡ (ok true, w')) × laws.Waiting key w'
  unfolding process_next_work_item
  process_next_work_item-Waiting p laws key e w w₁ w₂ got failed = (
    p.queue.done key (p.queue.add_rate_limited key w₂),
    rw (got, failed),
    laws.released key (p.queue.add_rate_limited key w₂) (laws.added key w₂),
  )
