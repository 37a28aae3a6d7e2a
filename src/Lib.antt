-- ===== src/Lib.antt =====
-- gomutant breaks a Go function on purpose, runs the tests that vouch for it against each mutant,
-- and keeps a finding per function: how many mutants were killed, survived or were discarded, which
-- survivors somebody has attested as equivalent, and the evidence for reuse. This library models
-- the decisions of that program as pure functions and proves what they promise.
--
-- Parts. A run prepares work items, cuts them into windows (schedule.go, estimate.go), executes a
-- window's candidates and confirms its kills serially (schedule.go `confirmWindowKills`). The
-- outcomes become findings, fresh or joined to a recorded one (reconcile.go), and dispositions ride
-- along (reconcile.go, findings.go). A merge joins the findings to the document's (findings.go).
--
-- Files.
--   Prelude    Boolean tests, equality as an interface, lists, texts as byte lists and Go's `strings`
--              on them, Go maps as association lists, sets of names, integers, sorting.
--   Record     the structs that the parts share (findings.go, execute.go, prepare.go,
--              internal/engine/mutants.go).
--   WindowCost internal/windowcost/windowcost.go.
--   Schedule   schedule.go and estimate.go. Gate: `confirmationGate`. Walk: `confirmWindowKills`,
--              whose closures' shared variables are the record `State`. Pricing:
--              `executingIndexes` and the estimate, and in Reference what they are measured by.
--              Windows: `gatherWindow`, `nextReadyWindow`.
--   Findings   findings.go. Disposition: `Open`, `Attest`, `Reattest`, `WithdrawAttestation`.
--              Graft: `graftDispositionsAgainst`, and reconcile.go `carryAnchoredAttestations`.
--              Verdict: `AnnotateSelectionVerdicts`. Merge: `MergeFindings` and its variants.
--              Target: `AttestFindingWithOptions`, the record filter and the coverage bound.
--   Edits      ephemeral.go `ApplyEdits`. Matches: `overlappingMatchStarts`. Apply: the edits.
--   Lifecycle  lifecycle.go. Retarget: `retargetSymbol`.
--   Store      store.go. Layers: `mergeLayers`, the coverage bounds, driftabort.go
--              `completedFindings`. Bank: bank.go, the bank of baseline measurements; the length of
--              its JSON encoding is an argument.
--   Delta      delta.go `CutSurvivorsContext`, execute.go `splitSurvivorPosition`.
--   Gitref     internal/gitref/addedlines.go `parseUnifiedAdded`.
--   Reconcile  reconcile.go. Counts: `summarizeOperators`, `extendFindingCounts`. Identity:
--              `candidateIdentityIndex`, `flaggedCandidateIndexes`, `extendedPrefixStands`. Splice:
--              `spliceFindingCounts`, whose summaries are signed while it counts. Ceiling:
--              execute.go `mergeScoredFacts` and the budgets of a process.
--   Exemptions exemptions.go `coveredExemptions`, `stampExemptions`, `unstableForBuckets`.
--   Freshness  freshness.go. Pins: the comparison of a record's measurement pins.
--   Run        run.go. Fresh: the counts and rows of a fresh finding. Carried: the dispositions of
--              a target that is measured again, and prepare.go `contradictKilledDispositions`.
--   Examples   runs on small inputs, and the theorems at them.
--
-- Conventions. Counts, durations and sizes are unbounded naturals: they count candidates, tests and
-- milliseconds, far below the range of Go's `int`. Texts are byte lists, compared as Go compares
-- strings. A method on a pointer returns what it leaves. A Go map is an association list, and a
-- range over one visits it in the order of first insertion, where Go leaves the order open. Sorting
-- keeps the order of equal elements, which Go leaves open too. Three loops run on fuel. The
-- drain of the confirmation walk: each round confirms one kill and takes its followers out of the
-- waiting skips, so that one more than the number of the skips is enough. The count of match
-- starts: each round goes on one byte behind the start of a match, so that one more than the bytes of the text is enough.
-- The eviction of the bank: each round takes out an entry, so that the number of entries is enough.
--
-- Not modelled: processes, files, locks, JSON, the trees of go/ast and go/types, and the evidence of
-- the gofresh library (its clause of a reason is an argument, its fingerprint one opaque text). The
-- callbacks of the confirmation walk, the cancellation of a context, what the tree answers to a cut
-- and Go's printing and parsing of durations and numbers are arguments too.
pub mod Delta
pub mod Edits
pub mod Examples
pub mod Exemptions
pub mod Findings
pub mod Freshness
pub mod Gitref
pub mod Lifecycle
pub mod Prelude
pub mod Reconcile
pub mod Record
pub mod Run
pub mod Schedule
pub mod Store
pub mod WindowCost
