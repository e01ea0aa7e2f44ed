-- ===== src/Lib.antt =====
-- A verification library for metralectl: an agent on every machine of a fleet that starts, stops
-- and reports model servers, and the control plane's part in it.
--
-- The parts modelled, with the code that each file is about:
--
-- Protocol (crates/metralectl-protocol/src): the control vocabulary that one agent sends another.
--   Ids: node and recipe names, by the text that the program prints. Settings, Errors, Messages:
--   the settings of a launch, the errors, and the requests and answers. Hex: the fixed-width ids
--   and digests in hex (hexid.rs), and a node id's own parser (fleet.rs). Name: the parser of a
--   recipe's name (id.rs). The serialised forms are not modelled.
-- Settings (crates/metralectl-core/src/settings): what a client may set on a launch. Spec is the
--   shape of a row, Values, Table, Memory and Denied are the rows themselves, Check is
--   `Bound::check` (crates/metralectl-protocol/src/settings.rs), and Gate is `validate`,
--   `check_override` and the caution. An `f64` is the 64 bits of its representation, and the
--   operations on it are the parameter `Floats`; an `i64` is an integer, on which the code does no
--   arithmetic.
-- Shell (crates/metralectl-core/src/docker/quote.rs): the quoting of a command that is shown to be
--   pasted. Shell/Words has the words that a POSIX shell reads on a line.
-- Release (crates/metralectl-control/src/release.rs): Documents are the platform's documents
--   (platform/release.rs, recipe.rs, signature.rs, revocation.rs, scalars.rs), Gate is `verify`,
--   Signing the registry principals and their signatures (release/signing.rs), and Revocations the
--   acceptance of a revocation list (release/revocations.rs). The digest of a document and the
--   cryptography are parameters; a set is a list that is read by membership.
-- Retry (crates/metralectl-control/src/control/retry.rs): `ControlRun`, the pure machine that
--   retries one request toward another machine, as functions from a run to a run and a step;
--   `drive` over a world that the transport and the clock change, both arguments of it. The
--   counter of sends is a `u32` and wraps. Retry/Drive has the histories of sends that the
--   theorems are about. The driver's fuel is a count of rounds; one more than the budget's
--   attempts is enough.
-- Hardware (crates/metralectl-core/src/hardware.rs): the class of a machine from its
--   accelerator's name, and the gate that a required class puts before a launch. Text is its list
--   of code points.
-- Reconcile (crates/metralectl-control/src/reconcile.rs and reconcile/contract.rs): `decide`, the
--   pure step toward what the plane wants a deployment to run here. Reconcile/Action and
--   Reconcile/Answer are the contract with the plane (platform/action.rs) and what is answered;
--   Reconcile/Driver is `converge` and `answer_action` (reconcile/driver.rs), which observe,
--   decide and carry out until nothing is left to do. The control core beneath them
--   (control.rs) is the interface `Control`, a record of operations over a world that every call
--   may change; the theorems name what they ask of it (`Reads`, `IsLawful`), and LocalControl
--   fills it. The loop of
--   `converge` is recursion on the rounds left, `max_steps + 1` of them, as in the code.
-- LocalControl (crates/metralectl-control/src/control.rs): the one core of the control operations.
--   Recipes is the parsed recipe (crates/metralectl-core/src/recipe/mod.rs), Ports the launcher
--   (launcher.rs), the telemetry (launch_telemetry.rs) and the registry as records of operations,
--   the first two over a world that every call may change. A call of the blocking pool ends with
--   what it returned or is lost, as a panic is. Gates are the checks of a launch, Effects what a
--   request may change, and Core fills the reconciler's `Control`.
-- Bench (crates/metralectl-agent/src/bench): a benchmark job's life. Bench/Job has the job, its
--   events and its outcomes (job.rs; crates/metralectl-protocol/src/msg/bench.rs,
--   bench_event.rs); Bench/Ports the machine's side (ports.rs) as a record of operations over a
--   world that every call may change, and the journal (journal.rs); Bench/Machine the program
--   `run` (machine.rs), one file for each of its stages, and what a restart does (machine/resume.rs).
--   The program is a state monad over the world, the journal and the records saved, with an exit
--   for a job that returns its outcome and one for an I/O error. The events that a wait emits are
--   appended after it, in their order, since nothing reads the journal meanwhile. Bench/Journal is
--   the journal's file by its lines, each a text or bytes that are no UTF-8: opening it, writing a
--   line, and replaying from a number; the text of an event and its parse are arguments.
-- Docker (crates/metralectl-core/src/docker/command.rs): the `docker run` of a launch as structure,
--   its argument list, and the two ways that it is shown.
-- Translate (crates/metralectl-core/src/docker/translate.rs): from a recipe to that command.
--   Chain is the configuration of a launch (chain.rs), Flags the serve flags with their table
--   (flags/mod.rs, flags/table.rs), Environment the container's variables and the reading of a
--   host's (translate.rs, host.rs), and Translate itself the policies (docker/profile.rs,
--   docker/collective.rs) and `translate`. Maps has the maps by their entries in key order. A text
--   is read one character at a time, by where the reading stands. Which characters are letters or
--   digits, which texts are addresses and how a float is printed are parameters.
-- Cluster (crates/metralectl-agent/src/cluster.rs, clusterdriver.rs, clusterdriver, rendezvous.rs,
--   rank.rs and transport.rs; crates/metralectl/src/rankservice): one model server on several
--   machines. Cluster/Fleet is what planning reads of a machine
--   (crates/metralectl-protocol/src/fleet.rs, fleet/node.rs), Cluster/Rendezvous and Cluster/Plan
--   the address to meet at and the plan of the ranks. Cluster/Resolve goes from a selection of
--   machines to ranks that can be asked (clusterdriver/plan.rs), Cluster/Loops has the loops over
--   the ranks and Cluster/Driver the ceremonies (clusterdriver/ceremonies.rs): preview, prepare,
--   commit, abort, stop and supervise, as functions on the driver's state. Cluster/Ports is what
--   the driver is given: a machine's own rank and the ranks of the others, as records of
--   operations over a world that every call may change. A call is made and answered in turn, as
--   the code awaits it. The other side, this machine as a rank of somebody's cluster, is
--   Cluster/Host (what is rendered for an assignment) and Cluster/Rank (`LocalRankService`: prepare,
--   commit, abort, stop and alive over the reservation); Cluster/Rank/Requests has its requests and
--   their histories. Parameters: the registry, the hash of a recipe, the collective's variables
--   for an interface, the text of a translation's error, processes, the clock, the network, the
--   bytes of an epoch, and the reading of addresses from text. The panic of a local rank, which
--   the code raises again, and the counting of a prepare's answers that only tests use
--   (`PrepareTracker`) are not modelled.
--
-- Generations and counters that the program keeps in unsigned words are natural numbers where no
-- arithmetic but comparison is done on them; the counters that the program adds to wrap.
--
-- Not modelled: the daemon, sessions, transport and pairing, which are sockets and cryptography;
-- telemetry, which is floating point; the command line; the launcher and the registry behind the
-- control core; the parsing of documents and their
-- canonical form; the table of the fleet, its listing and the joining of a machine; the queue, the
-- processes and the files of the benchmark jobs.
pub mod Prelude
pub mod Protocol
pub mod Hardware
pub mod Settings
pub mod Shell
pub mod Docker
pub mod Translate
pub mod Release
pub mod Retry
pub mod Reconcile
pub mod LocalControl
pub mod Cluster
pub mod Bench
