-- ===== src/Lib.antt =====
-- Verification of the Proxmox infra provider for Omni.
--
-- The provider creates a Talos virtual machine on Proxmox VE for each machine request of Omni, in steps
-- that the provisioning framework runs again until they succeed, and removes it on deprovisioning.
--
-- Parts, from the repository's root:
--   Scheduler   internal/pkg/provider/scheduler.go and `pickNode`: a node for a machine, and the ledger of
--               placements in flight (`pick`, `release`); its laws in Selection (the strategies), Order (the
--               order of the ledger), Reservations (what a pick records), Load and Balance
--               (the spread of one pick), Wave (of many) and History (any sequence of calls, against a
--               specification).
--   Ha          internal/pkg/provider/ha/manager.go: Options (`Config`), Classify (errors by their text), Names
--               (rule names, sids, tags, member lists), Members (the scans over the nodes), Rules (affinity
--               rules) and Steps (registration, the two steps, `Deprovision`).
--   Provision   internal/pkg/provider/provision.go: Tasks, Pools, Options (of a new machine), Placement (step
--               pickNode), Create (step syncVM), Steps (uploadISO, startVM), Teardown (`Deprovision`), Run
--               (`ProvisionSteps`: attempts of all steps of a machine, with other machines and actors in
--               between) and Fleet (all machines of a provider at once, with their teardowns).
--   Startup     cmd/omni-infra-provider-proxmox/main.go, internal/pkg/config/config.go and `NewProvisioner`:
--               from flags and config file to a provider that runs; Version is internal/version/version.go.
--   Data        internal/pkg/provider/data.go and the machine state of api/specs/specs.proto.
--   Errors      the sentinel errors, wrapping and retry errors. A text that `%q` prints is put in quotes as
--               it is.
--   Api         the calls of github.com/luthermonson/go-proxmox, one request for each.
--   Exec        how a step runs: a state monad with a log of the requests, and rules for what a step sends
--               (Rules), how often (Bounds), how it ends (Triples), what it maintains
--               (Frames) and that it gets through (Passing).
--               Example is a small server, for examples.
--   Sorting     `slices.SortFunc`, by its contract, and insertion sort, which meets it.
--   Base        tests, lists, texts, decimal numbers and maps.
--
-- How the parts interact: the steps of Provision and of Ha read and write one machine state, and share one
-- client of Proxmox. The step pickNode asks the scheduler; the teardown releases the scheduler's
-- reservation, deregisters the machine from HA, finds it, stops and deletes it, and cleans up its pool.
--
-- Proxmox and its client are a parameter: a function that answers each request from a hidden state. It may
-- answer anything at any time, also what other actors changed in between, but where a theorem names what
-- it relies on (`IsRuleStore`, `IsQuietStore`, `IsSharedStore`, `IsReadable`, `IsSteady`). Other parameters
-- are `float64` with its division and its comparison, SortFunc, the clock, `HasTag` of go-proxmox, its
-- separator of tags, and the evaluation of a storage selector in CEL; at the start, what cobra makes of the
-- arguments, and the libraries that open and decode the config file and run a provider. The decoding of the
-- machine class and the resolution of the installation media are results in the step's context.
--
-- Loops are structural recursion. The loop over edits of a rule has its ten rounds; the loop that waits for
-- a task has a number of ticks that the context allows, which is any number. A number of bits is written out
-- where the source wraps: memory in bytes, the id of a machine, an instant's difference. A mutex makes the
-- part behind it one step.
--
-- A run of the provisioning steps attempts any step at any time and lets it end as it does. Attempts for
-- different machines follow one another: they share only what a mutex guards. A crash within a step is not
-- modelled, as nothing then says what of the machine state was kept, nor is a restart of the provider,
-- which forgets the ledger and the pending downloads.
--
-- Not modelled: log lines, constants, the metadata of the COSI resource of the machine, and the generated
-- code of api/specs but for the fields of the machine state.
mod Base
pub mod Errors
pub mod Api
pub mod Sorting
pub mod Scheduler
pub mod Ha
pub mod Data
pub mod Exec
pub mod Provision
pub mod Startup
