-- ===== src/Lib.antt =====
-- A model of the Porter agent, which watches the pods of a Kubernetes cluster, groups their failures
-- into incidents that it keeps in Redis, and tells the Porter server of incidents that begin and end.
--
-- The parts and how they interact. The pod controller asks the pod filter what is wrong with a pod,
-- stores the answer as an event of the active incident of the pod's release, and resolves pods and jobs;
-- all of this is kept by the Redis client. An incident that is new, or is resolved, is put into the work
-- queue, from which the event consumer takes one item for each pulse and posts the details of its
-- incident to the Porter server.
--
-- The files and the code:
--   Incident           pkg/utils/incident.go: NewIncident, NewIncidentFromString, ToString
--   Incident.Log       pkg/utils/log.go: NewLog, NewLogFromString
--   Models             pkg/models/event.go, pkg/models/incident.go
--   Result             pkg/errors/errors.go, and the errors and panics of Go as values
--   Redis              the Redis server and its client library, as an interface; Redis.Commands has the
--                      documented commands, and Redis.Laws what they come to case by case
--   Client.Queue       pkg/redis/client.go: AppendToNotifyWorkQueue, GetItemFromPendingQueue,
--                      RequeueItemWithScore, IsFirstRun, SetAgentCreationTimestamp,
--                      GetAgentCreationTimestamp
--   Client.Events      pkg/redis/client.go: IncidentExists, GetLatestEventForIncident,
--                      AddEventToIncident
--   Client.Resolve     pkg/redis/client.go: SetPodResolved, SetJobIncidentResolved,
--                      GetIncidentDetails, IsIncidentResolved
--   Client.Listing     pkg/redis/client.go: GetAllIncidents, GetAllActiveIncidents,
--                      GetPodsForIncident, GetIncidentsByReleaseNamespace, GetIncidentEventsByID
--   Client.Logs        pkg/redis/client.go: AddLogs, DuplicateLogs, GetLogs
--   Client.Active      pkg/redis/client.go: GetActiveIncident, ActiveIncidentExists,
--                      CreateActiveIncident
--   Client.Typing      what each key of the agent may hold
--   Client.Tracking    a specification of one incident, without keys and commands
--   HttpClient         pkg/httpclient/client.go: NewClient, Get, Post
--   Pulsar             pkg/pulsar/pulsar.go: NewPulsar, Pulsate, Stop
--   Consumer           pkg/consumer/events.go: Start, doHTTPPostNotifyNew, doHTTPPostNotifyResolved
--   Consumer.Startup   pkg/consumer/events.go: init, getStringOrDie, NewEventConsumer
--   Kube               the fields of the Kubernetes objects that are read, and the queries
--   Filter             pkg/utils/filter.go
--   Controller         controllers/pod_controller.go: Reconcile, deleteFinalizerIfExists,
--                      getLatestRunningStartedAt, hasLastTerminatedState, getOwnerDetails,
--                      fetchReplicaSetOwner, getOwnerChartName, getMaxUnavailable,
--                      canIgnoreMultipodDeployment
--   Controller.Deleted controllers/process_deleted_pods.go: ProcessDeletedPods
--   Handlers           pkg/server/handlers/incidents.go: GetAllIncidents,
--                      GetIncidentsByReleaseNamespace, GetIncidentEventsByID, GetLogs
--   Handlers.Routes    pkg/server/routes/routes.go
--   System             main.go: the goroutines; System.Startup: the loop that waits for Redis
--   Base, Text         shared lemmas; byte strings, searching, splitting and decimal numbers
-- Proofs stand in child modules that are named for what they prove, and runs on concrete data in modules
-- named Tests.
--
-- State and operations. A method of the Redis client is an Action: from a world, which is the server and
-- the connection to it, to a value, an error or a panic, and the next world. The commands of Redis are
-- fields of the record Redis. Each of them comes with a law that it is the documented command, a function
-- of the dataset: in a world that is up it replies so, and in any world it may also fail, having been
-- carried out or not. A world is up if the server answers and, for the duration of one method, nobody else
-- writes and no key expires; the methods are no transactions. Redis.Memory is a server in memory that
-- meets the laws.
-- Takes is the statement that a method ends in a world that is up, with which result, and in which
-- dataset. Ensures is the statement about any world: a method keeps an invariant of the dataset and does
-- not panic, and what it returns satisfies a condition; the modules named Safe have one rule of this kind
-- for each method. Ends is the statement that a method, against a world that is up, ends in the very world
-- that a given call has left: the last thing it does is that call, for example the request to the porter
-- server. Between two commands of a method nothing else is considered to happen.
-- In System a history is a list of calls of the controller, rounds of the consumer, requests and passes
-- over the deleted pods, each of which runs to its end, with what happens to the Redis server between them.
-- The pulsar is a state machine, whose events are the exchanges on its channels; one round of the consumer
-- belongs to each pulse that is received.
-- After Stop the channel of pulses is closed, and a receive from it gets the zero value at once.
--
-- Parameters. The commands of Redis, the JSON encoding of events and incidents, the exchange over HTTP,
-- and the queries of the Kubernetes API are arguments. Each reading of the clock is an argument of its
-- own, in Unix seconds. The order in which a map is visited is an argument, and the API server does not
-- change for the duration of one call of a controller.
--
-- Numbers, bounds and fuel. Text is a list of bytes. Integers of 64 bits are integers with the bound
-- IsInt64 where a number is read or printed. The digits of n are found in n + 1 rounds, of which each
-- divides by ten, so the rounds are enough. An incident takes at most 500 events. All loops of the code
-- run over lists, and so do those of the model.
--
-- Not modelled: the interleaving of the commands of two methods; the set-up of the manager and the flags in
-- the main program; the matching of paths by gin and its recovery from panics; the reading of the environment
-- by the handlers and the controllers; logging; the wrapping of errors, of which the text is kept; the
-- escaping of unusual characters in the texts of number errors.
mod Base
pub mod Text
pub mod Result
pub mod Incident
pub mod Redis
pub mod Models
pub mod Kube
pub mod Filter
pub mod Client
pub mod HttpClient
pub mod Pulsar
pub mod Consumer
pub mod Controller
pub mod System
pub mod Handlers
