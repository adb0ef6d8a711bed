-- ===== src/Tests.antt =====
-- Tests of the definitions on concrete inputs, and the theorems at inputs that meet their hypotheses.
mod Events
mod Schemas
mod Flow
mod Taxonomy
mod Timetravel
mod Diffs
mod Replays
mod Requests
mod Services
mod Tokens
mod Settings
mod Rpcs
mod Audits
mod Consumers
mod Codes
