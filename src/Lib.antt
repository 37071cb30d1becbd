-- ===== src/Lib.antt =====
-- DevDiag is a command-line tool that gathers evidence about a development machine, turns it into
-- findings, and reports them. This library models its core, written in Go under internal/.
--
-- How the parts interact: collectors gather evidence; engines turn it into findings; the aggregator
-- merges and ranks those; a relevance policy, built from the report's configuration and a baseline
-- file, decides which of them a report shows.
--
-- Base holds what the modules share. Its Text and Number are the functions of Go's strings and
-- strconv that the program uses, and Base.Sort its sort. Letters and blanks are those of ASCII.
-- Schema (internal/schema) has the data types. A Go string type with named constants is a data type
-- with one more constructor for any other text. A confidence is the bit pattern of a float64 that is
-- finite and not negative, and is compared as such.
-- Domain (internal/domain/registry.go) is the table of domains and its lookups.
-- Findings (internal/findings/aggregator.go) is Aggregator.Add: `add` is the method, `add_all` its
-- loop, with the variables `deduped` and `seen` as the record Deduped.
-- Baseline (internal/baseline/baseline.go) has Add, Remove, Prune, ActiveEntries, validate,
-- CreateFromFindings and ParseExpiryDuration. A method that changes the receiver returns the new
-- baseline. Times are nanoseconds, with 0 for Go's zero time. SHA-256 is a parameter `digest`, of
-- which one theorem asks that its values pass the program's own test for fingerprints. Load and Save
-- are left out: they are file and YAML code. A nil receiver is left out.
-- Relevance (internal/relevance/relevance.go) has policies and the filter of reports.
--
-- Fix (internal/fix) plans and applies fixes. Fix.Paths, with a law of it in Fix.Cleaned, is Go's
-- path/filepath on Unix; Fix.Validate is validate.go, Fix.Blocklist the blocklist, Fix.Templates and
-- Fix.Registry the registry, Fix.Planner the evidence of a finding with its checks, and Fix.Proposals
-- has Resolve, ListAll and the ranking. Fix.Executor is Execute over a world (Fix.AuditLog) that has
-- the audit log's entries, the outcomes of the next writes to it, the commands that ran and what was
-- shown. The command runner, the user's line and the host (platform, home and working directory,
-- order of a Go map) are arguments. Times of day, the 30 second timeout, which the runner applies,
-- and the debug log are left out. The texts that a failed path or port is reported with may be
-- shorter than the source's.
--
-- Collectors (internal/collectors/runner.go) runs collectors. A goroutine's fate is a value, Course; the
-- channel hands the results out in any order, as the relation Collectors.Arrivals.Delivered has it.
-- Scan (internal/app/scan.go and events.go) is Scanner.Scan, in Scan.Scanner one function for each of its
-- stages. The engines, the snapshot builder, the rule pack evaluation, the redaction engine and the run
-- of the collectors are fields of ScannerDeps. Times and durations are left out.
-- Scan.Engines puts the engines of Rules into it, as defaultEngineFactory does.
--
-- Rules (internal/rules) has three engines. Of the first, m1engine.go, Rules.Versions has the version
-- numbers, Rules.Env, Project, Host, Machine, Containers and Repro the rules by what they look at,
-- and Rules.Engine its Evaluate and the filter of scopedengine.go. Floating-point numbers with
-- ParseFloat, and the order in which Go runs over a map, are the record GoRuntime. Rules.Parity is
-- the engine of m8engine.go, which compares CI with the project: a map of services or of keys is a
-- list, and a set of ports a list too. Rules.Hardware is the engine of m6engine.go. Rules.Known holds
-- each finding of the three against Domain and Fix.Registry.
--
-- Tui (internal/tui) has the state of the terminal view (model.go), what it derives of a finding
-- (commands.go), filters.go, and the messages and keys of update.go. Tui.Session is the loop in which
-- the runtime of Bubble Tea hands the message of `nextEvent` to Update. The lengths of lists and the
-- window's size are not negative. view.go, the spinner and the goroutine of the scan are left out.
--
-- Updater (internal/updater) has SwapBinary (swap.go) over four files and a list that tells of each
-- operation to come whether it fails, the search of the checksum file (Updater.Verify, verify.go) and
-- Apply (Updater.Apply, apply.go and release.go) over an environment: network, SHA-256, GitHub CLI,
-- temporary directory, extraction. acquireLock has its two attempts as a number that goes down.
--
-- Remote.Target (internal/remote/target/target.go) parses and writes remote targets; url.Parse is an
-- argument. A target of another kind than the three cannot be parsed and is left out.
--
-- Classifier (internal/repro/classifier/classifier.go) has the built-in rules and the classification of
-- a command's output. Texts are ASCII, where the cut of an excerpt is one of characters.
--
-- PathFilter (internal/pathfilter/pathfilter.go) classifies paths over the paths of Fix.Paths. What
-- isVirtualEnvDir finds on the disk is an argument; the glob patterns are left out.
--
-- Every loop is a recursion on the list that it runs over, so that none needs fuel but the
-- printing of a number, which has one round more than the number itself, and the loop of Tui.Session,
-- whose rounds are counted in its theorem.
pub mod Base
pub mod Schema
pub mod Baseline
pub mod Classifier
pub mod Collectors
pub mod Domain
pub mod Findings
pub mod Fix
pub mod PathFilter
pub mod Relevance
pub mod Remote
pub mod Rules
pub mod Scan
pub mod Tui
pub mod Updater
