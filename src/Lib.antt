-- ===== src/Lib.antt =====
-- A verification library of the o11y control plane's browser application (ui/src): the server sends
-- deployment records, agents and policy drafts as JSON, and the application derives from them what an
-- operator is told and may do. Modelled are the modules of pure functions that derive it.
--
-- The language. Js models the scalars of JavaScript (Value) with `||`, `??`, `===`, `String` and
-- `Number`; an object is a record of scalars, a field that is missing reads as `undefined`, and a loop
-- with a mutable object is a fold that returns the new record. Js.Text holds the operations on text,
-- Js.Decimal the decimal numerals, Js.Double the rounding of doubles, Js.Regex the regular expressions
-- (with their meaning in Js.Regex.Meaning), Js.Messages the lists of messages of the validators,
-- Js.Object dictionaries, Js.Sort a stable sort, and Js.Set the list that a `Set` of texts spreads into. Numbers are
-- `NaN` and the whole numbers that are not negative, which is what versions and counts are; a text
-- that is no plain decimal numeral converts to `NaN`; changes of case are those of ASCII, in which
-- every status of the server is written. Natural numbers stand for array lengths, indices
-- and version numbers, far below 2 ^ 53, so they do not round; the rank of a schema version does.
--
-- The parts and their files.
-- - Coverage (ui/src/deployment-coverage.js): deploymentCoverage, coverageStatusForDisplay and
--   deploymentConfirmation on one deployment record (DeploymentRecord). The summaries of Policy and of
--   Collector call it.
-- - Policy (ui/src/policy-management.js): Policy.Record is deploymentRecordStatus, with a case for a
--   Java extension and one for the other targets; Policy.Summary is summarizePolicyDestinations, whose
--   `result` is the record Summary, whose loop is tally_all and whose last part is settle. Its laws
--   stand in Counts (the loop as counts of records), Partition, Status and Order. Policy.Managed is
--   buildManagedPolicies and filterManagedPolicies: the groups of versions (Managed.Groups), their order
--   (Managed.Sorted, Managed.Last) and what is offered for each (Managed.Laws).
-- - Collector (ui/src/collector-management.js): Collector.Record is collectorRecordStatus,
--   Collector.Summary is summarizeCollectorRecords with its two loops; laws in Tally, Partition and
--   Verdict.
-- - Deployment (ui/src/deployment-status.js): deploymentStatusForVersion, which judges a stored
--   version by the agents themselves.
-- - Events (ui/src/telemetry-events.js and ui/src/messaging-events.js): the draft of a policy with its
--   events and the metrics that refer to them. Events.Names is nextHTTPEventName and
--   nextMessagingEventName, Events.Edit removes and renames events and looks up the fields of an
--   event, Events.Duplicates is duplicateHTTPEventNames and duplicateTelemetryEventNames,
--   Events.Output is eventNameOutput and withEventNameOutput, Events.Intent eventMetricIntent and
--   configureEventMetricIntent.
-- - Schema (ui/src/telemetry-events.js): policySchemaRank, ensurePolicySchema and
--   agentSupportsPolicySchema; the rank -1 is `none`. Ranks are computed in doubles (Js.Double).
-- - Network (ui/src/network-settings.js): normalizeNetworkSettings.
-- - Capture (ui/src/capture-security.js, first part): policyCaptureDenyViolations; policy_captures lists
--   the calls of `add` in their order, denied is the deny list by kind. Capture.Sources describes the
--   captures by tables of sources, which Capture.Calls compares with the calls and Capture.Denied with
--   the report.
-- - Contract (ui/src/capture-security.js, second part): policyWireContractErrors, httpEventHasOutput and
--   messagingEventHasOutput on a policy as parsed from JSON, whose arrays may be missing or be something
--   else. It reads duplicateTelemetryEventNames of Events.
-- - Account (ui/src/account-settings.js): the rights of an identity (with canViewNetwork of
--   ui/src/network-settings.js), profiles and users. Account.Forms holds the payloads and validators of
--   the profile, the password and the users, Account.Email and Account.Email.Checks those of the e-mail delivery.
-- - Provider (ui/src/auth-providers.js): normalizeProvider and what it calls; Provider.Gate is
--   createLatestRequestGate with its counter as the state, Provider.Mappings the role mappings,
--   Provider.Draft providerPayload and validateProviderDraft. encodeURIComponent is a parameter of
--   callback_url and normalize_provider.
-- - Target (ui/src/target-selection.js): the destinations that the editor shows, and the selector that
--   ui/src/main.jsx publishes and loads again. Deployment judges the published one.
-- - Version (ui/src/version-source.js): the stored versions as one list, its order and its search.
-- - Yaml (ui/src/collector-effective-config.js): the clean-up of a reported configuration, on its lines
--   (laws in Left, Bounds, Laws) and as a whole (Cleaned), and collectorConfigId. Blocks are found by structural
--   recursion on the lines.
-- - Collector.Mode (ui/src/collector-management.js): the base of a collector and collectorAgentMode.
-- - Fleet (ui/src/agent-filtering.js): the rows of the list of agents, made from Collector.Mode for
--   collectors, and their filters, which call matchesAnySelection of Selection.
-- - Wording: the texts made of counts, of ui/src/deployment-status.js, ui/src/collector-management.js,
--   ui/src/policy-management.js and ui/src/network-settings.js.
-- - Selection (ui/src/multi-select-filter.js): the selection of a multiple-choice filter.
-- - Prelude holds what the files share; Tests applies the theorems to concrete data.
--
-- Fuel. The search for a fresh event name (Events.Names.search_from) runs on fuel: one round more than
-- there are used names, which is enough because the candidates differ from one another. Printing a
-- number in decimal (Js.Decimal.decimal) has one round more than the number, and each divides by ten.
-- All other functions are structural recursions.
--
-- Not modelled: the Go server (cmd/server), which is another program behind the HTTP interface; the
-- React views (ui/src/main.jsx, ui/src/messaging-editor.jsx, ui/src/components), the translation of the
-- page (ui/src/i18n.js), styles, charts and build files, and the remaining modules of ui/src.
-- localeCompare, Date.parse and encodeURIComponent are parameters; passwordResetToken only hands its text
-- to URLSearchParams.
pub mod Account
pub mod Capture
pub mod Collector
pub mod Contract
pub mod Coverage
pub mod Deployment
pub mod Events
pub mod Fleet
pub mod Js
pub mod Network
pub mod Policy
pub mod Prelude
pub mod Provider
pub mod Schema
pub mod Selection
pub mod Target
pub mod Tests
pub mod Version
pub mod Wording
pub mod Yaml
