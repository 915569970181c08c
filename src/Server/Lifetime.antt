-- ===== src/Server/Lifetime.antt =====
-- The order in which server_app/server_manager/ServerManager.cpp makes and destroys its services.
use simple_messenger.Prelude.{subst, ◌≡◌, refl, sym, ap, ◌∙◌, false, none, some, List, ◌++◌, length}
use mathlib.Core.Option
use simple_messenger.CircularBuffer.Refine.{contents}
use simple_messenger.Singleton
use simple_messenger.Singleton.{DynamicCrtpSingleton, null, init, object, get_instance, delete_at}
use simple_messenger.ThreadManager.Defs.{task_queue_size, construct}
use simple_messenger.ThreadManager.System.{System, alive, left, start, Reach}
use simple_messenger.ThreadManager.Joined.{Steps, left-takes}

-- AuthentificationService, which has no members, and the object of ThreadManager.
pub record Services (Task : Type 0) : Type 0 where
  pub auth : DynamicCrtpSingleton Unit
  pub pool : System Task

-- The constructor.
unfoldable pub construct_services : {Task : Type 0} → List Task → Services Task
construct_services storage = record { auth = init null tt; pool = start (construct storage) }

-- The destructor, from its call to the return of `ThreadManager::destroy`. Its first statement leads
-- from `p` to `deleted`, in which the pool is as it was, and its second from there to `q`, while the
-- threads go on until the pool has been destroyed.
pub record Destructor {Task : Type 0} (p q : Services Task) : Type 0 where
  pub called : p.pool.owner ≡ alive
  pub deleted : Services Task
  pub auth_destroyed : Singleton.destroy p.auth ≡ some deleted.auth
  pub pool_untouched : deleted.pool ≡ p.pool
  pub pool_destroyed : Steps deleted.pool q.pool
  pub auth_untouched : q.auth ≡ deleted.auth
  pub returned : q.pool.owner ≡ left

made_auth : get_instance (init null tt) ≡ some tt
unfolding get_instance init null object Option.bind
made_auth = refl

destroyed_auth :
    (a : DynamicCrtpSingleton Unit)
    → Singleton.destroy (init null tt) ≡ some a
    → get_instance a ≡ none
unfolding get_instance init null object Singleton.destroy delete_at Option.bind
destroyed_auth a e = sym (ap (λ o. Option.bind o get_instance) e)

-- Until the destructor is called, AuthentificationService::getInstance gives the service. After its
-- first statement getInstance follows a dangling pointer, and no task that waited at the call has been
-- taken; the workers then take all of these tasks, which are logins, in their order and before the
-- destructor returns. No task is pushed meanwhile, and the array of the queue has its size.
pub queued_logins_dangle :
    {Task : Type 0} (storage : List Task) (p q : Services Task)
    → length storage ≡ task_queue_size
    → p.auth ≡ (construct_services storage).auth
    → Reach (construct storage) p.pool
    → (d : Destructor p q) → q.pool.late ≡ false
    → q.pool.scheduled ≡ p.pool.scheduled
    → (get_instance p.auth ≡ some tt)
      × (get_instance d.deleted.auth ≡ none)
      × (q.pool.started ≡ d.deleted.pool.started ++ contents p.pool.shared.task_queue)
      × (get_instance q.auth ≡ none)
unfolding construct_services
queued_logins_dangle {Task} storage p q full made r d early same =
    let destroyed : Singleton.destroy (init null tt) ≡ some d.deleted.auth =
      ap Singleton.destroy (sym made) ∙ d.auth_destroyed in
    let dangles = destroyed_auth d.deleted.auth destroyed in
    let run : Steps p.pool q.pool = subst (λ s. Steps s q.pool) d.pool_untouched d.pool_destroyed in
    (
      ap get_instance made ∙ made_auth,
      dangles,
      left-takes storage full r run d.returned early same
          ∙ ap (λ (s : System Task). s.started ++ contents p.pool.shared.task_queue)
              (sym d.pool_untouched),
      ap get_instance d.auth_untouched ∙ dangles,
    )
