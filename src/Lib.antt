-- ===== src/Lib.antt =====
-- Opvic tracks the versions that run in Kubernetes clusters and compares them with the versions that
-- remote sources offer. An agent in each cluster reads VersionTracker resources, extracts the running
-- versions from the resources that they select, and posts a payload for each tracker to the control
-- plane. The control plane keeps what agents report in a cache that expires, fetches the remote
-- versions of each subject from GitHub or a Helm repository, and works out what can be upgraded.
--
-- The parts, in the order in which the data flows:
-- - Tracker: agent/api/v1alpha1/versiontracker_types.go, the resource with SetDefaults and Validate.
-- - Extract: agent/extract_version.go and agent/utils.go. The loop over the resources is
--   structural; it keeps the lists of the source and the number of errors counted.
-- - Agent: Reconcile of agent/agent.go, one round for one tracker. The API server's answers are
--   parameters; the errors counted and the payload posted are parts of the result. Metrics is
--   agent/metrics.go, and Namespaces what the options of a list of resources do.
-- - Http: PrepareThePayload and Post of agent/shipper.go, AuthMiddleware of
--   controlplane/middlewares.go and AgentsPost of controlplane/handlers.go behind it.
-- - Api: controlplane/api/v1alpha1/api.go, the payload and the answers.
-- - Cache: the keys, reads and writes of controlplane/cache.go. The state is the cache, the time and
--   the gauge of the GitHub rate limit. A value of the cache has one of the types that the code
--   stores, and a read at another type panics, as the type assertions do.
-- - Registry: the updates and reconcilers of controlplane/cache.go and the handlers of
--   controlplane/handlers.go. Its child Machine has reports, reconcilers and time as steps of one
--   state, Fleet and Timeline the map that the list of agents stands for, Silence what becomes of
--   an agent that does not report, and Interleaving two updates of the list at a time.
-- - Remote and Provider: controlplane/providers. Provider has one function for the loops over
--   the constraint and the extraction, which are written three times in the source.
-- - Version: controlplane/version/version.go. A version pointer that may be nil is an Option, and
--   reading through none panics. Go's order of a map is a parameter, a permutation.
-- - Infos: controlplane/version.go, and the reconcilers that call it.
--   Overview is what the overviews hold, Filed under which keys the infos are, Shown how often a
--   running version is shown, Kept what the loop does with an answer, Tended, Tending, Refreshing and
--   Reconcile the states of CacheReconcile, Answers, Rounds and Fresh what one round of it does for
--   each version, and Reported and Upgrades what becomes of a report.
-- - Metrics: controlplane/metrics.go, the samples that Collect sends in their order.
-- - Server: controlplane/router.go and the middlewares and handlers behind its routes. A request
--   leaves the payload that AgentsPost accepts to a goroutine, which is a step of its own; Runs has
--   the requests, the goroutines, CacheReconcile and time as one relation, Logging what
--   LoggerMiddleware logs of a request, and Serving how the router relates to what Http has of it.
-- - Start: controlplane/controlplane.go, NewProvider of controlplane/providers/github/github.go, and
--   cmd/controlplane and cmd/agent: how flags become the programs' configurations and loggers, and
--   their exits. Options has the flags with their defaults, and Programs the two programs from their
--   command lines on.
-- - Pipeline: how these parts are composed, from the resources of a cluster to the answer about
--   their upgrades.
-- - Utils: utils/utils.go, and utils/version.go in Build.
-- - External: the libraries of which the code uses a part, as records of operations with records of
--   what their documentation says: go-version, regexp, go-cache and the Prometheus client. JsonPath
--   of Extract, Codec of Http, Sources of Provider, Web of Server, and Github, Manager and Kingpin of Start
--   are the other parameters. The theorems about code that uses a library
--   suppose the laws of its record.
-- - Prelude: lists over the native numbers, the order of texts, and the results: a Go function
--   returns, returns an error, panics or (a loop on fuel) does not end in time.
-- - Tests: the theorems applied at concrete inputs over simple instances of the parameters.
--
-- Only the loop over the pages of a listing runs on fuel, one unit for each page; a listing of a
-- number of pages needs that much. All other loops are structural recursions. Counts and numbers of
-- versions are natural numbers: counts start at 0 and only grow by one, and the numbers of a version
-- are those that go-version parses, which are not negative.
--
-- Not modelled: how kingpin parses flags and what loggers write, which are I/O around these parts;
-- the Prometheus registry, which gathers the samples, and the form in which promhttp writes them;
-- how gin redirects; label selectors, which Kubernetes evaluates; and generated code. Where
-- goroutines are steps, each runs as a whole; only Interleaving parts the update of the list of agents
-- into its read and its write.
pub mod Prelude
pub mod External
pub mod Utils
pub mod Version
pub mod Tracker
pub mod Api
pub mod Remote
pub mod Cache
pub mod Registry
pub mod Provider
pub mod Server
pub mod Start
pub mod Infos
pub mod Metrics
pub mod Extract
pub mod Http
pub mod Agent
pub mod Pipeline
pub mod Tests
