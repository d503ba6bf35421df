-- ===== src/Tasks/Routing.antt =====
-- Which queue a task of the discovered packages goes to, and whether a worker reads it. Celery's
-- router is a parameter.
use ai_developer_copilot_pla.Prelude.{
  ◌≡◌, ◌≢◌, refl, ◌∙◌, List, [], ◌∷◌, ◌++◌, Bool, true, false, if◌then◌else◌, Option, none, some,
  Option-cases, inl, inr, ap, arith, All,
}
use mathlib.Core.List.{Mem, mem-cons_self, mem-cons_of_mem}
use ai_developer_copilot_pla.Text.{Text, codes, Lacks, strip_prefix, eq_text}
use ai_developer_copilot_pla.Config.{Settings}
use ai_developer_copilot_pla.Tasks.Celery.{CeleryApp, celery_app, routes, task_packages}

-- What a `*` at the end of a pattern stands for: one character or more, of which the first is no end
-- of a line.
abbrev pub IsSome : Text → Type 0
IsSome [] = ⊥
IsSome (c ∷ s) = c ≢ 10

-- Patterns that end in their only `*`, from the texts before it.
abbrev pub patterns : List (Text × Text) → List (Text × Text)
patterns [] = []
patterns ((p, queue) ∷ rows) = (p ++ codes "*", queue) ∷ patterns rows

-- No row has the text.
abbrev pub is_new : Text → List (Text × Text) → Bool
is_new p [] = true
is_new p ((other, queue) ∷ rows) = if eq_text p other then false else is_new p rows

-- What Celery does with a dictionary `task_routes` whose keys end in their only `*`: they are tried in
-- their order, and all characters but the `*` stand for themselves.
pub record IsRouter (route : List (Text × Text) → Text → Option Text) : Type 0 where
  pub taken :
      (p queue rest : Text) (rows : List (Text × Text)) (name : Text)
      → Lacks b'*' p
      → is_new p rows ≡ true
      → IsSome rest
      → strip_prefix p name ≡ some rest
      → route (patterns ((p, queue) ∷ rows)) name ≡ some queue
  pub passed :
      (p queue : Text) (rows : List (Text × Text)) (name : Text)
      → Lacks b'*' p
      → is_new p rows ≡ true
      → strip_prefix p name ≡ none
      → route (patterns ((p, queue) ∷ rows)) name ≡ route (patterns rows) name

-- The kinds of work that celery_app.py and docker/docker-compose.yml name: one queue for each, and
-- one worker that reads it.
abbrev pub kinds : List Text
kinds = codes "indexing" ∷ codes "analysis" ∷ codes "agent" ∷ []

-- What the three workers of docker/docker-compose.yml read, the arguments of their `-Q`.
abbrev pub worker_queues : List Text
worker_queues = codes "indexing_queue" ∷ codes "analysis_queue" ∷ codes "agent_queue" ∷ []

first_worker : Mem (codes "indexing_queue") worker_queues
first_worker = mem-cons_self

second_worker : Mem (codes "analysis_queue") worker_queues
second_worker = mem-cons_of_mem (codes "indexing_queue") mem-cons_self

third_worker : Mem (codes "agent_queue") worker_queues
third_worker =
    mem-cons_of_mem (codes "indexing_queue")
      (mem-cons_of_mem (codes "analysis_queue") mem-cons_self)

-- The tasks of a module end in their own names.
abbrev pub module_of : Text → Text
module_of name = codes "app.infrastructure.tasks." ++ (name ++ codes "_tasks.")

-- The tasks of the module for a kind of work go to the queue for it.
abbrev pub IsOwn : (List (Text × Text) → Text → Option Text) → CeleryApp → Text → Type 0
IsOwn route app kind =
    (task : Text)
    → IsSome task
    → route app.task_routes (module_of kind ++ task) ≡ some (kind ++ codes "_queue")

-- Every task of the package goes to a queue that a worker reads.
abbrev pub IsServed : (List (Text × Text) → Text → Option Text) → CeleryApp → Text → Type 0
IsServed route app name =
    (task : Text)
    → IsSome task
    → (queue : Text) × (route app.task_routes (name ++ (codes "." ++ task)) ≡ some queue)
      × Mem queue worker_queues

-- The routes of the application without their `*`.
abbrev route_rows : List (Text × Text)
route_rows =
    (module_of (codes "indexing"), codes "indexing_queue")
    ∷ (module_of (codes "analysis"), codes "analysis_queue")
    ∷ (module_of (codes "agent"), codes "agent_queue")
    ∷ (module_of (codes "github"), codes "indexing_queue")
    ∷ (module_of (codes "maintenance"), codes "analysis_queue")
    ∷ []

-- The first row whose text the name begins with, and that is not all of the name, has the queue.
abbrev Decided : Option Text → Text → Text → Type 0 → Type 0
Decided none other queue rest = rest
Decided (some t) other queue rest = IsSome t × (other ≡ queue)

abbrev Finds : List (Text × Text) → Text → Text → Type 0
Finds [] name queue = ⊥
Finds ((p, other) ∷ rows) name queue =
    (Lacks b'*' p × (is_new p rows ≡ true))
    × Decided (strip_prefix p name) other queue (Finds rows name queue)

-- The row of a task is the one of its module.
abbrev FindsQueue : Text → Text → Type 0
FindsQueue name queue =
    (task : Text) → IsSome task → Finds route_rows (module_of name ++ task) queue

indexing-FindsQueue : FindsQueue (codes "indexing") (codes "indexing_queue")
indexing-FindsQueue task h = ((omega arith, refl), (h, refl))

analysis-FindsQueue : FindsQueue (codes "analysis") (codes "analysis_queue")
analysis-FindsQueue task h = ((omega arith, refl), ((omega arith, refl), (h, refl)))

agent-FindsQueue : FindsQueue (codes "agent") (codes "agent_queue")
agent-FindsQueue task h =
    ((omega arith, refl), ((omega arith, refl), ((omega arith, refl), (h, refl))))

github-FindsQueue : FindsQueue (codes "github") (codes "indexing_queue")
github-FindsQueue task h = (
  (omega arith, refl),
  ((omega arith, refl), ((omega arith, refl), ((omega arith, refl), (h, refl)))),
)

maintenance-FindsQueue : FindsQueue (codes "maintenance") (codes "analysis_queue")
maintenance-FindsQueue task h = (
  (omega arith, refl),
  (
    (omega arith, refl),
    ((omega arith, refl), ((omega arith, refl), ((omega arith, refl), (h, refl)))),
  ),
)

module _ (route : List (Text × Text) → Text → Option Text) (r : IsRouter route) where
  route-Finds :
      (rows : List (Text × Text)) (name queue : Text)
      → Finds rows name queue
      → route (patterns rows) name ≡ some queue
  route-Finds [] name queue h = absurd h
  route-Finds ((p, other) ∷ rows) name queue ((plain, fresh), h) =
      elim (Option-cases (strip_prefix p name)) [
        | inl e ↦ r.passed p other rows name plain fresh e ∙ route-Finds rows name queue (rw e at h)
        | inr (rest, e) ↦
            let (rests, same) = rw e at h in
            r.taken p other rest rows name plain fresh rests e ∙ ap some same
      ]

  served :
      (rows : List (Text × Text)) (name queue : Text)
      → Finds rows name queue
      → Mem queue worker_queues
      → (q : Text) × (route (patterns rows) name ≡ some q) × Mem q worker_queues
  served rows name queue found read = (queue, route-Finds rows name queue found, read)

  -- Over a router that treats patterns as Celery does, for tasks whose names behind the package are not
  -- empty and do not begin with an end of a line: every task of every package that the application
  -- discovers goes to a queue that one of the three workers of docker/docker-compose.yml reads, and the
  -- tasks for indexing, for the analysis and for agents each go to the queue of their kind.
  pub celery_app-IsServed :
      (s : Settings)
      → All (IsServed route (celery_app s)) (celery_app s).packages
        × All (IsOwn route (celery_app s)) kinds
  unfolding celery_app routes task_packages
  celery_app-IsServed s = (
    (
      λ task h. served route_rows _ _ (indexing-FindsQueue task h) first_worker,
      (
        λ task h. served route_rows _ _ (analysis-FindsQueue task h) second_worker,
        (
          λ task h. served route_rows _ _ (agent-FindsQueue task h) third_worker,
          (
            λ task h. served route_rows _ _ (github-FindsQueue task h) first_worker,
            (λ task h. served route_rows _ _ (maintenance-FindsQueue task h) second_worker, tt),
          ),
        ),
      ),
    ),
    (
      λ task h. route-Finds route_rows _ _ (indexing-FindsQueue task h),
      (
        λ task h. route-Finds route_rows _ _ (analysis-FindsQueue task h),
        (λ task h. route-Finds route_rows _ _ (agent-FindsQueue task h), tt),
      ),
    ),
  )
