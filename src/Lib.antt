-- ===== src/Lib.antt =====
-- llm-k8s-redis is a Kubernetes operator that brings a Redis Cluster to a spec. A planner proposes a
-- plan, a list of steps; the validator checks the form of the plan and simulates it on the observed
-- nodes; the controller keeps an accepted plan in the status of the cluster and runs it one step a
-- reconcile, through an executor that acts on Kubernetes and Redis. The executor also observes the
-- cluster: it reads the pods and CLUSTER NODES and tells the controller which nodes there are.
--
-- The files, and the code that they model (paths from the root of the repository):
--   Plan: the plan, the spec and the observed nodes (internal/plan/types.go, `paramString`, `paramInt`).
--   Api: the RedisCluster and its status (api/v1alpha1/rediscluster_types.go) and `toClusterSpec`.
--   Cluster: Slots has the slot syntax, Entries the lines of CLUSTER NODES and CLUSTER INFO and who
--   owns a slot, Markers the marks of migrations, the healthy nodes and the addresses (internal/
--   rediscluster/cluster.go). Bounds, Ranges, Owners, Marked and Full are proofs about these.
--   Observor: the health of an observed node (internal/observor/observation.go).
--   Validator: Errors and Schema have `isPlanValid` and `validateStepSchema` (internal/validator/
--   validator.go); WellFormed says which plans pass, Params what a step that passes has.
--   Validator/Simulator: State, Checks and Steps have the simulator (internal/validator/simulator.go).
--   Moves sorts the accepted steps by their action, with the guards that they have passed; Consistent has
--   the invariant, Giving, Preserved and Indexed are about its preservation, Start about the first state;
--   Demands says what each action is to bring about, and Written and Achieved are about its doing so;
--   Ownership and Safety are about how owners change, Exclusive about what `checkInvariants` finds, Goal
--   about what `verifyCluster` finds. Validator/Accepted puts these together.
--   Planner: Steps, Slots, Topology, Builders, Scaling and Go have the Go planner (internal/planner/
--   go_planner.go): the builders of its seven kinds of plan, `buildGoPlan` and `Plan`. Goal and
--   Accepted are about the plans that it returns, Shares about slot ranges and pod names.
--   Action: the executor (internal/action). Pods has the fields of a pod that it reads; Observed,
--   Topology, Seeds, Views, Status and Observe have topology_observer.go and status.go: the observed
--   nodes, the topology, which pods are asked in which order, their answers, and what is written to the
--   status. Seen, Shown, Asked, Collected and Best are proofs about these. World has what the steps
--   share (actions.go), Preceding what a step asks of those before it; Forget, Delete and AddSlots have
--   forget_node.go, delete_node.go and add_slots.go; Forgets, Deletes, Adds, AddReads and SafeAdds say
--   which writes these steps make, Goes and Completes what a completed AddSlots has found.
--   Controller: Status has the stored plan (internal/controller/status_helpers.go), Execution one
--   reconcile of it (plan_execution.go), Ordinal and Reserved the taken pod ordinals (pod_ordinal.go),
--   Matching whether the nodes are the cluster of the spec (topology_status.go), Planning one reconcile
--   without a plan (planning.go). Progress, Touched, Completes, Handled, Restore, Taken, Masters, Found,
--   Counts, Matches and Stored are proofs about these. EndToEnd puts the observation, the planner and the
--   validator into a reconcile; Waiting has `Reconcile` itself and the time that it waits from.
--   Examples: clusters of one full master, small clusters, runs and instances of the theorems.
--   Prelude: lists, maps, results, sorting, Go's strings and strconv, and decimal texts.
--
-- How the code is rendered. A function of Go is a function by clauses, and a method that changes its
-- receiver takes the state and returns the new one. An error is a constructor of an error type that
-- keeps the values of its message, or its text where the code only passes it on; hints and log lines
-- are left out. A Go map is an association list with one entry a key, whose order stands for the order
-- that Go leaves open when it ranges over a map. Every loop is a recursion on the list or the number
-- that it walks, so there is no fuel and every function is total. Loops that append to a slice put the
-- steps of a round in front of those of the rounds that follow. A function with many early returns is a
-- do block over what the step ends with.
--
-- Numbers. A slot that has passed `ValidateSlotBounds` is an ℕ of at most 16383. The shards, the
-- replicas and the generation are ℕ, since the CRD has minimums of at least 0 and Kubernetes counts
-- generations from 1. Ints that are read from a plan are integers; strconv.Atoi keeps its 64-bit
-- range. The conversions to int32 of the next ordinal are written out modulo 2 ^ 32. Of a float64
-- parameter the program only asks whether it is an integer, so it is kept as that integer or none.
-- Times are seconds. strings.EqualFold is modelled where one side is an ASCII constant, as everywhere
-- in the program. Lists are sorted by insertion.
--
-- Parameters. The fallback planner of the Go planner; in the controller the driver, the planner, the
-- validator, the JSON of parameters, meta.SetStatusCondition, the clock, and whether an append moves
-- the slice of conditions. The driver returns the plan, whose parameters it may write, and the topology
-- and the conditions that it leaves in the status of the RedisCluster: of the status the steps of
-- internal/action write no more. EndToEnd takes the fallback of the Go planner, which cmd/manager sets
-- to the language model's planner or to the NoopPlanner. In the executor, what Kubernetes and Redis
-- answer: for an observation the list of pods and a connection for each seed, the n-th of which may
-- answer otherwise than those before it; for a step a world that answers each call by the writes of the
-- step so far, so its reads may change as it writes but not between two writes. `quote` is the %q of fmt.
--
-- `validate` returns the simulated state that `Validate` keeps to itself, a handler of the controller
-- returns the cluster and the result that the source hands to `finish`, and a step of the executor
-- returns how it ends and the writes that it has made.
--
-- Not modelled: the executors of the other steps (EnsureNode, WaitNodeReady, MeetNode, ReplicateNode,
-- MigrateSlots and VerifyCluster in internal/action), the Redis client (internal/redis), the planner
-- that asks a language model, its prompt and its retrieval (the rest of internal/planner, internal/rag),
-- the finalizer and the namespace (internal/controller/lifecycle.go), the grouping of nodes into shards
-- in internal/observor, which only tests call, and the wiring (cmd/manager). Apart from that grouping and
-- the steps, they are input and output, or texts.
pub mod Prelude
pub mod Plan
pub mod Api
pub mod Cluster
pub mod Observor
pub mod Validator
pub mod Planner
pub mod Action
pub mod Controller
pub mod Examples
