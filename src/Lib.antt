-- ===== src/Lib.antt =====
-- Verification of the Context Swarm Memory core: how durable memory is written, how items are chosen
-- within a limit, how a shard is cut into retrieval units, how a model's answers are checked and
-- grounded, and how settings are read.
--
-- The program keeps memory in shards. A shard has a manifest and a chain of immutable snapshots; the
-- directory lists the shards, and the chronicle records every change. `src/core/commit.ts` is the one
-- module that changes memory, through the storage of `src/storage/jsonlStorage.ts`; the query side
-- ranks, packs and cuts through `src/core/selection.ts` and `src/core/retrievalUnit.ts`.
--
-- Memory         src/core/types.ts: the records of durable memory
-- Ids            src/utils/ids.ts: numbered names (newEventId, newSnapshotId, nextSnapshotId), slugify,
--                newShardId
-- Truncate       src/utils/text.ts: truncate
-- Budget         src/core/tokenBudget.ts, src/core/split.ts: estimates, fullness, recommendation;
--                `round2` is from src/core/commit.ts
-- Store          src/storage/jsonlStorage.ts: the operations on files, over `Store.Disk`, where the
--                files and the environment are one `World`, and an action gives a result or an error
--                beside the world it leaves; `Store.Keeps` has the rules for what actions preserve
-- Commit         src/core/commit.ts: `append_event_and_snapshot` and `create_shard`
-- Commit.Decision  the same file: `dry_run_commit` and `apply_commit_decision`
-- Commit.Remembered  what a store remembers, as an abstract memory with its steps; `Commit.Refines`
--                relates the operations to it
-- Commit.Contracts  what appendEventAndSnapshot and createShard promise a caller, errors included;
--                `Commit.Effects` has the store behind them
-- Commit.Consistent  when manifest, snapshots and directory of a store agree; `Commit.Preserved`,
--                `Commit.Sound` and `Commit.Calm` carry this through operations, and
--                `Commit.Endures` and `Commit.History` what survives every crash
-- Selection      src/core/selection.ts: select, packToBudget, dedupeInOrder
-- RetrievalUnit  src/core/retrievalUnit.ts: partitionIntoUnits, bestUnitScore
-- Recall         src/core/recall.ts: what `recallShard` makes of the model's answer
-- ProviderJson   src/core/providerJson.ts: completeAndValidate; the provider, the JSON parser and the
--                schema are parameters
-- Packet         src/core/synthesize.ts: packetFromSingleRecall, emptyPacket
-- Probe          src/core/probe.ts: the verdicts of probeShardsBatched; src/core/ask.ts:
--                probeQualifiesForRecall, scoreProbe
-- Terms          src/core/router.ts: tokenize, prefixMatch, termMatchesAnyTag
-- Router         src/core/router.ts: scoreEntryLexical, selectCandidatesDetailed
-- Rank           src/eval/ambReturnRank.ts: rankVocab, greedyCoverageOrder, coverageRerankAndPack
-- Args           src/cli/args.ts: parseArgs, flagString, flagBool
-- Json           src/utils/json.ts: extractJson, with JSON.parse as a parameter
-- Digest         src/core/digestSelection.ts: selectEventDigest; `Digest.Salience` has
--                salientWithinBudget, `Digest.Index` compactEventIndex of src/core/probe.ts
-- Ask            src/core/ask.ts: the query path behind the router. `Ask.Gate` says which candidates
--                are probed, `Ask.Probing` runs the probes, `Ask.Targets` chooses the recalls,
--                `Ask.Eager` starts some of them early, `Ask.Run` puts the run together and
--                `Ask.Record` writes its record; routeConfidence is from src/core/routerEmbed.ts
-- Settings       the resolvers of settings in src/core/tokenBudget.ts, retrievalUnit.ts, ask.ts,
--                probe.ts, digestSelection.ts and coverage.ts
-- Env            src/utils/env.ts: envFlag, envInt, envIntOptional, envPositiveInt, envEnum
-- Prelude        shared types, tests on numbers, lists, orders, texts and the stable sort
--
-- Correspondence. A text is the list of its UTF-16 units; a field that may be absent is an `Option`. A
-- fraction is counted in fixed parts: importance and confidence in millionths, fullness in hundredths
-- of a percent, the score of a probe in units of 10^-8; JavaScript rounds such numbers. A file is its
-- parsed contents, and each write happens whole or not at all. The clock and the random ids are the
-- environment's: the world holds what they will answer, and which of them was asked last. `fuse` is
-- the number of writes that the process still makes before it dies. One process writes at a time.
-- In a query, every answer of the storage and of the model is a function of what is asked, so that a
-- run is determined by the order in which its probes complete, which is an argument; an error that is
-- thrown is `none`. The score of a directory entry is counted in milliseconds of ninety days, from
-- -7.0 on; regular expressions are read unit by unit.
--
-- Bounds and fuel. `decimal` prints a number on fuel one above it, which its digits never exceed;
-- `Ids.RoundTrip` reads every printed number back. `Rank.greedy_from` runs as often as there are
-- events, and `Rank.Cut` shows that its order has them all. Other loops are structural.
--
-- Not modelled: the prompts and the built-in mocks of `probe.ts`, `recall.ts` and `synthesize.ts`,
-- whose model is a service; the embedding router and the coverage code, but for their settings, which
-- rest on floating point and on scans of free text; the providers, the commands and the benchmarks,
-- which are input and output, but for the arguments of the commands and the order of returned
-- events; the clock times of a run; case mapping beyond ASCII, which `toLowerCase` does and `to_lower`
-- leaves alone; negative numbers where the program's callers pass none.
pub mod Prelude
pub mod Selection
pub mod Ids
pub mod Memory
pub mod Budget
pub mod Store
pub mod Commit
pub mod Truncate
pub mod RetrievalUnit
pub mod Env
pub mod Recall
pub mod ProviderJson
pub mod Packet
pub mod Probe
pub mod Settings
pub mod Terms
pub mod Digest
pub mod Router
pub mod Json
pub mod Args
pub mod Rank
pub mod Tests
pub mod Ask
