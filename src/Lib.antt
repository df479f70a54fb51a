-- ===== src/Lib.antt =====
-- The controllers of this repository run the check scripts of an Incident in pods, move the
-- Incident through its lifecycle, and run its apply script on request (README.md).
--
-- The parts, and how they interact. An Incident's spec carries human decisions, its status the
-- analysis and the state. The Incident controller (internal/controllers/incident/incident.go)
-- reconciles it: Observe reads the spec and the check pods through the state machine (machine.go)
-- and leaves a plan; Update writes the status, resets spec.applied, deletes finished pods and
-- starts a due check in a sandboxed pod (checkpod.go). The IncidentApply controller (apply.go)
-- admits a request to run the apply script, runs it in a pod as the requester, records the run on
-- the Incident and deletes the request after a while. The check reader
-- (internal/controllers/checkreader/checkreader.go) keeps the role that the check pods read with.
-- The program (main.go) sets them up from its flags.
--
-- Which file models which code, by function:
--   Api/*: the resources of apis/incident/v1alpha1 and the Kubernetes objects the controllers
--     read or write, each with the fields that the code uses, and the init containers of a pod
--     template, which the code passes on.
--   Platform: apimachinery, k8s.io/utils and provider-runtime, as a record of functions with the
--     laws that they document. Apply/Access holds the record for crypto, PEM and clientcmd.
--   Server: the apiserver. A step takes the history of calls and gives an outcome and a longer
--     history; a server is any function from histories and calls to answers, so every theorem
--     about a step is about every answer, failures included. Calls: lemmas on histories.
--   Machine/Output, Checks, Cadence, Transitions, Verdicts: machine.go (outputOf; currentScript,
--     setLastCheck; checkFrom, nextCheckAt, checkDue; setState, applySpec; record, recordApply).
--   CheckPod/Names, Sandbox, ResultOf: checkpod.go (names and metadata; sandbox and the objects
--     of a run; resultOf).
--   Incident/LastRuns, Plan, Observe, Update, Setup: incident.go (lastRuns and pollIntervalHook;
--     plan; Observe and list; Update, startCheck and Delete; Setup, Connect and the hook as the
--     reconciler calls it, with a managed resource of any type).
--   Apply/Tail, Wait, Requests, Access, Admission: apply.go (tailBuffer; applyPollIntervalHook;
--     older and busy; kubeconfigOf and pemOf; admit, vouched and mayPatch).
--   Apply/Plan, Observe, Carry: apply.go (applyPlan, end and reject; Observe, getPod, started and
--     finishRun, from the answers of its reads; Create, Update, recordOnIncident, announce and
--     Delete). Apply/Once: the life of a request in the cluster, as a step relation.
--   Apply/Output, Setup, Connect: apply.go (podLogs; apiServerOf; SetupApply, Connect and the hook
--     as the reconciler calls it).
--   Program/Options, Run: main.go (main's options; run and the setups that it goes through, with
--     controllers.go, LoadPodTemplate and the options that Setup of incident.go keeps).
--   CheckReader/Rules, Sync, Refresher: checkreader.go (Rules, withKept and sorted; sync; the loop
--     of Setup).
--   Life/World: an Incident as both controllers, people and the writer of its analysis change
--     it. A step is one write of its status by an operation above, an edit of the spec, or a write
--     of the analysis, which keeps the state, the settle window and the resolution, or moves the
--     state along the edges that docs/overview.md gives that writer and leaves the latter two
--     unset, as docs/api.md says. A controller writes a status only over the one that it read,
--     since the apiserver refuses the update of an older version; what else it reads, and what the
--     server answers, is arbitrary.
--   Answered: calls that a server accepted. CheckReader/Allowed: what a role allows, as RBAC reads
--     it. The other files hold lemmas, and Tests concrete inputs.
--
-- Numbers. Strings are lists of bytes. A time is a natural number of nanoseconds since Go's zero
-- time, so that 0 is IsZero, and a duration is not negative; the saturation of time.Sub, centuries
-- away, is not modelled. Exit codes are integers. All loops are structural recursion; the only
-- fuel is that of `decimal`, which gives a number n as many rounds as n + 1, more than its digits.
-- A pointer is an Option; a map is a list of entries or a function; a struct that a function
-- changes is an argument and a result. sort.Slice is an insertion sort, and a lock makes each
-- operation on lastRuns one step. A write method that fails after it changed its receiver in memory
-- is modelled by its outcome and its calls, since the receiver is dropped; the Observe of apply.go
-- returns the request in memory also on an error.
--
-- Not modelled: what the manager, the caches and the queues do once they are set up, the parsing
-- of flags and the logs, which are third-party code; the generated deep copies, since values are
-- copied here; the files and the YAML that LoadPodTemplate reads, which are its argument, and the
-- log stream of a pod, which is the argument of podLogs. The ticker of the check reader only
-- paces the calls of sync, and is left out.
pub mod Prelude
pub mod Api
pub mod Platform
pub mod Server
pub mod Calls
pub mod Answered
pub mod Machine
pub mod CheckPod
pub mod Incident
pub mod CheckReader
pub mod Apply
pub mod Program
pub mod Life
mod Tests
