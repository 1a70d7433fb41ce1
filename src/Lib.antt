-- ===== src/Lib.antt =====
-- A model of the core logic of ForgeHub, a self-hosted forge whose repositories hold ordinary files
-- beside scenes and models. The API (apps/api) is a Fastify server over a database (Prisma) and bare
-- git repositories; the web client (apps/web) is React. The parts modelled here are those that decide
-- something: who may do what, what a diff and a merge consist of, when a merge may happen, and what
-- the text of a comment makes the server do. Routes, the database and git call these parts.
--
-- The files, and the code that each is about:
--
--   Base          lists, text, decimal numbers, dictionaries, sorting, and asynchronous code: a state
--                 and calls that may throw (Base/Async)
--   Access        apps/api/src/repo-access.ts
--   Scopes        apps/api/src/scopes.ts
--   MergePolicy   apps/api/src/merge-policy.ts; MergePolicy/Web is
--                 apps/web/src/pages/repo/pulls/mergeMethods.ts
--   Gates         Checks: apps/api/src/ci/summary.ts; Reviews: apps/api/src/review-summary.ts;
--                 Protection: evaluateMergeProtection of apps/api/src/branch-protection.ts
--   AutoMerge     apps/api/src/auto-merge.ts (Gate, Fire) and pull-merge.ts (PullMerge), with the
--                 closing of issues of references-service.ts and recordEvent of timeline-service.ts
--   Diff          apps/api/src/handlers/plain-text/compare.ts
--   Hunks         apps/api/src/merge/text-hunks.ts, the text branch of merge/resolve-pull.ts, and
--                 apps/web/src/lib/textMergeHunks.ts (Hunks/Web)
--   PullDiff      apps/web/src/pages/repo/pulls/diffLayout.ts: the split view (Rows) and the hidden
--                 lines between hunks (Gaps)
--   Duration      apps/api/src/duration.ts
--   QuickActions  apps/api/src/quick-actions.ts: the parser, the label tokens (Labels), the commands on
--                 an issue (Session, Issue, LabelCommands, Dispatch) and on a pull request (Pull)
--   Webhook       apps/api/src/webhook-service.ts: the address guard and the attempts of a delivery
--   Limits        apps/api/src/ci/log-sink.ts and fhr/byte-cache.ts
--   Regex         the regular expressions that Ci and Codeowners build
--   Ci            apps/api/src/ci/workflows.ts (Glob, Workflows), trigger.ts and retention.ts (Trigger)
--   Hooks         apps/api/src/git-hooks.ts and protected-tags.ts: rule files and the pre-receive hook
--   Scene         apps/api/src/merge/gltf-resolve.ts: the entities of a merged scene;
--                 handlers/gltf-scene/compare.ts (Compare)
--   Numbering     apps/api/src/numbering.ts, with its database calls as steps that interleave
--   Codeowners    apps/api/src/codeowners.ts and codeowners-service.ts (Requests)
--   Reactions     apps/web/src/lib/reactions.ts, without the glyphs
--   Suggestions   apps/api/src/suggestions.ts
--
-- A definition has the name of its function in antt's spelling (canWrite is can_write). How they meet:
-- AutoMerge evaluates the Gates, Access and MergePolicy on the rows of a pull request and its
-- repository and then merges; Hunks resolves conflicts on the rows of a Diff; the merge box of the web
-- client reads the MergePolicy that the API computes.
--
-- State and errors. AutoMerge's World and the Session of QuickActions hold the rows that the code writes, the set inFlight and the
-- effects in their order; tables that are only read, and git, are an Env or a Setting. A list of flags says which
-- of the awaited calls throw: a call that throws changes nothing and what was done before it stays,
-- as in the source, whose calls share no transaction. Theorems quantify over all such lists. Numbering
-- has a step relation instead, for creations that run at the same time.
--
-- Loops are structural recursion over the lines, rows or digits that the source's loops pass. Where
-- a round may pass several rows or digits, the loop runs on fuel, one round for each of them: the
-- grouping of hunks, the split view and the decimal digits (n + 1 rounds for n, which has fewer digits).
--
-- What is simplified: numbers are natural numbers with no upper bound (the counts, minutes and line
-- numbers of the source stay far below 2^53), integers where a value may be negative; dates are
-- milliseconds; text is a list of UTF-16 code units and toLowerCase changes the letters A to Z only;
-- an absent and a null field are both none. Git is a record of functions, since git-utils.ts runs the
-- git program. Loggers and the payloads of events and webhooks are left out. Of the
-- shell, its match of a pattern is a parameter with its documented behaviour as a hypothesis; the
-- regular expression of an owners' pattern with an escape in a bracket is a parameter, as are the yaml
-- package, the numbers of a scene and the order of a locale.
--
-- What is not modelled: the HTTP routes, the git and ssh transports, the CI runner's processes, the
-- parsers and writers of scenes and models, search, and the React components; the manifest lists them.
pub mod Base
pub mod Access
pub mod Diff
pub mod Hunks
pub mod Duration
pub mod PullDiff
pub mod QuickActions
pub mod MergePolicy
pub mod Scopes
pub mod Gates
pub mod AutoMerge
pub mod Webhook
pub mod Limits
pub mod Ci
pub mod Hooks
pub mod Numbering
pub mod Codeowners
pub mod Scene
pub mod Reactions
pub mod Regex
pub mod Suggestions
