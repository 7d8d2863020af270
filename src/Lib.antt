-- ===== src/Lib.antt =====
-- kube-sre-mcp, a server that diagnoses a Kubernetes cluster for a language model and, where it is
-- allowed to, changes it. This library models the parts that decide: what is changed and after which
-- checks, which cause a set of signals is put down to, and which health objects are given. The code is
-- in internal/ of the repository.
--
-- How the parts interact. Signals are read off the objects of the cluster (health) or made by the
-- diagnoses; correlation groups them into hypotheses of a root cause, each with the advice of
-- recommendation, and assemble makes a response of both. The resolver finds the object that a name
-- means, and a graph gathers the objects around it. A tool that changes something is called twice: the first call checks and stores a
-- confirmation, the second gives its token back; the store takes the token only for the action that it
-- was issued for, and the handler then checks once more and makes one request that changes something.
--
--   Prelude          tests, lists, signed integers, maps of strings, texts, stable sorting
--   Message          the texts that are put together with Sprintf, kept symbolic
--   Config           internal/config/config.go: Load; Safe holds the theorem
--   Kube             internal/kube/discovery.go (kinds), and the fields read of the API's types
--   Model            internal/model/types.go
--   Signal           internal/signal
--   Recommendation   internal/recommendation/engine.go: For, RestartUseful
--   Action.Store     internal/action/confirmation.go: NewStore, Put, Take, bindMatch, gcLocked, newID.
--                    A method takes its readings of the clock and of the random source as arguments,
--                    since the mutex makes it one step. Bind: when a confirmation fits. Expiry: one
--                    call. Tokens: any sequence of calls.
--   Action.Cluster   the API server as a parameter, a reply being any function of all requests made
--                    before, and the computations that call it. Env is the clock, the random source
--                    and the selectors of k8s.io/apimachinery, parameters too.
--   Action.Guards    internal/action/engine.go: the tests of pods, nodes, autoscalers and budgets
--   Action.Engine    internal/action/engine.go, authorization.go, errors.go and risk.go: what the
--                    handlers share
--   Action.Requests  the order of the requests that a handler makes: which were made since others
--   Action.Rules     rules to compose: what only reads, what changes one thing, what a token guards,
--                    and what succeeds
--   Action.Restart, Action.Scale, Action.DeletePod, Action.Cordon
--                    internal/action/engine.go: RestartDeployment, Scale, DeletePod, Cordon, each
--                    with its theorems in Safety and Progress
--   Correlation      internal/correlation/engine.go: Correlate (Rank), dedupEvents (Dedup), classify
--                    (Classify), build (Build); Confidence, Ranking, Counts, Distinct and Coverage
--                    hold the theorems
--   Health           internal/health/health.go: Evaluate, Combine, FromCounts, FromPod, FromNode;
--                    Verdicts and Pods hold the theorems
--   Health.Report    internal/health/cluster.go: the inventory of Cluster (Cluster), partHealth,
--                    pushIssue, pushHealthy, jobHealth, DominantWaiting; Bounds, Complete and Verdict
--                    hold the theorems
--   Events           internal/events/analyzer.go (Analyzer) and service.go (Service); Aggregated holds
--                    the theorem
--   Kube.Errors      internal/kube/errors.go and visibility.go: Classify, IsForbidden, IsNotFound,
--                    Record, IsVisibilityFailure
--   Kube.Resolver    internal/kube/resolver.go: Get, List, prefixFilter, buildResult; Filter has the
--                    branches and loops of ResolveFilter; Sound and Result hold the theorem
--   Kube.Spec        the fields read of pod specifications, workloads, nodes and claims
--   Graph            internal/graph: graph.go (Core), owners.go (Owners), selectors.go (Selectors),
--                    dependencies.go (PodLinks, Dependencies, Builders). Built and BuiltLoops: the
--                    graphs that AddEdge and capReachedAt make; WellFormed: what is well formed;
--                    Results and Revisions hold the theorems
--   Diagnostic       internal/diagnostic: pod.go (Pod and Pod.Diagnose: DiagnosePod; Scheduler:
--                    scheduleSignals; Dependencies: depSignals; Pod.Critical, Admission, Eligible, Eligibility,
--                    Dependencies.Met and Dependencies.Result hold the theorems), bounded.go (Bounded,
--                    a step relation, with Runs and Ends), cache.go (Cache, a step relation, with Answers), assemble.go
--                    and demoteConfirmed of engine.go (Assemble, with Coherent)
--   Examples         concrete inputs, and the theorems at them
--
-- Integers of Go are unbounded here where the program only compares them or counts the elements of a
-- list; envInt32 keeps its clamp to 32 bits, the durations of Load and the counts of dedupEvents the
-- wrap-around of an int64, and the counts of Aggregate that of an int32. No definition needs fuel but the digits of a number, whose fuel is the
-- number plus one. A map of strings is an association list, whose order is the one in which a loop
-- meets the entries: Correlate sorts its categories, and SelectorString shows the order to the API
-- alone. Case mapping is that of ASCII.
--
-- A graph is built while the cluster does not change: a List call is a function of its arguments. The
-- goroutines of runBounded are workers of a step relation, in which the Go scheduler and the context
-- choose; the functions that it runs are taken to return. A call of the cache is two steps where it
-- finds nothing, since the mutex is free while it loads. A resource.Quantity is its value in the
-- smallest unit, and the revision of a ReplicaSet keeps the wrap-around of an int of 64 bits.
--
-- Not modelled: in internal/diagnostic the reads of engine.go and the analyzers of the kinds, but for
-- the parts named above; logs, metrics, the deep diagnoses that run concurrently at the end of
-- Cluster, the rendering and redaction of messages, the client of the API and the protocol's server.
pub mod Prelude
pub mod Message
pub mod Config
pub mod Kube
pub mod Model
pub mod Signal
pub mod Recommendation
pub mod Action
pub mod Correlation
pub mod Health
pub mod Events
pub mod Graph
pub mod Diagnostic
pub mod Examples
