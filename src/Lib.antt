-- ===== src/Lib.antt =====
-- VersiGo manages the insurance policies of households: an API (apps/api), a worker (apps/worker), a
-- web application (apps/web), and packages/foundation, which API and worker share. This library
-- models parts of the API, of the worker and of the foundation as functions, and proves what makes
-- them correct.
--
-- Prelude: the natural numbers, texts (lists of UTF-16 units), a stable sort, numbers as JavaScript
-- has them at an interface (Prelude/Numbers, Prelude/Doubles), and lemmas on lists.
--
-- Http: what a handler answers, a value or an HTTP exception. A transaction is a function from the
-- tables to new tables or an exception; an exception rolls back.
--
-- Ai/Budget: packages/foundation/src/ai/input-token-budget.ts. `applyInputTokenBudget` is
-- `apply_input_token_budget`, its loop is `spend`, `truncateToChars` is `truncate_to_chars` and
-- `cutAtWordBoundary` is `cut_at_word_boundary`. The loop recurs on the documents.
--
-- Config/SyncSchedule: packages/foundation/src/config/paperless-sync-schedule.ts, the functions that
-- the worker (is a policy due?) and the API (when is it due?) share, with the FNV-1a hash on 32 bits.
--
-- Identity: the rows of prisma/schema.prisma that the identity services keep (`Database`). The hash
-- of the one-to-one `Credential` row is a column of `User`.
--   Identity/UserAdmin: apps/api/src/features/identity/user-admin.service.ts. One function per
--   operation, with its guards in their order and its audit entry. `runSerializable` retries at most
--   three times: `run_attempts` counts the attempts that are left, and what each attempt meets (a
--   serialization conflict, or the tables it runs on alone) is an argument. `list` reads only and is
--   left out. The database fails only as the code foresees it, so an audit entry is always written.
--   Identity/Auth: apps/api/src/features/identity/auth.service.ts. bcrypt and `toLowerCase` are the
--   fields of `Hashing`, of which only is assumed that bcrypt accepts the password that a hash was
--   made from. The id of a new row, which the database draws, is an argument.
--   Identity/RateLimiter: apps/api/src/features/identity/login-rate-limiter.service.ts. The commands of
--   Redis are a parameter (`Redis`); what it does is assumed while the server answers and the window of
--   a counter is open.
--
-- Cost: apps/api/src/features/cost-tracking.
--   Cost/Calendar, cost-schedule.ts as the next four: `Date` as milliseconds since the epoch, in UTC and
--   not before 1970, and `addMonthsClamped`. `walk` finds the month of a day; its fuel is the number of
--   the day, and every month has a day.
--   Cost/Money: amounts. The doubles of the code are a parameter (`Doubles`), of which only is
--   assumed that whole numbers below 2^53 are their own rounding and that whole cents below 2^46,
--   divided by a hundred and multiplied again, round back to themselves. Amounts are not negative.
--   Cost/Entry: cost entries, the amount that one adds to a period, the entry that counts.
--   Cost/Billing: the billing plan, a period's row and the loop over the periods (`rounds`). It has
--   fuel, and `none` means that this ran out; `enough_rounds` is the fuel that is given, since
--   a period lasts at least four weeks. Texts made from dates are kept as the dates they show.
--   Cost/Schedule: `computePolicySchedule` and `summarizePolicyCosts`.
--   Cost/Tracking: apps/api/src/features/cost-tracking/cost-tracking.service.ts, the rows of cost
--   entries; Cost/Tracking/Service has `create`, `update` and `remove`. Its reads are left out, and the
--   diffs of its audit entries too.
--
-- Sharing: the rows of shares and policies.
--   Sharing/Access: the read access of auth.service.ts (`assertPolicyReadAccess`,
--   `getReadablePolicyIds`, `hasPolicyReadShare`). Their common query is `query`; it fails on a ref
--   that is no member of the enum of policy types, as Prisma does.
--   Sharing/Shares: apps/api/src/features/family-sharing/family-sharing.service.ts, one function per
--   operation. The listings of shares and members read only and are left out.
--
-- Paperless: the automatic assignment of Paperless-ngx documents by a tag, as the API and the worker
-- share it: the rows of configurations, jobs and documents (`Store`), and what BullMQ accepted.
--   Paperless/Client: apps/worker/src/paperless-tag.client.ts. What the server answers is a parameter
--   (`Server`). The loop over the pages has fifty rounds, as the code has. Client/Assignment is
--   `assignTagToDocument`.
--   Paperless/World: what one run of a handler meets: the connection, the clock, which is read once, the
--   ids of new rows, the errors of insertions, and the other transactions that come in between its
--   awaited calls (`others`, at each `Moment`). Other errors of the database are not modelled.
--   Paperless/Metadata, Paperless/Links, Paperless/Reconcile, Paperless/Jobs, Paperless/Worker,
--   Paperless/Tick: apps/worker/src/paperless-tag.processor.ts. Links and Jobs are the rows that
--   the merge and the handlers read and write. `reconcileAssignments` is `reconcile_assignments` with
--   the loops `merge_documents` and `remove_links`; the handlers are `handle_sync_policy`,
--   `handle_tag_document` and `handle_reconcile`. The partial unique index on the links is `conflicts`:
--   an insertion that meets it is answered by P2002. A handler either answers or lets an exception out
--   (`Handled`), which keeps what was written; `process` catches it.
--   Paperless/TagService: apps/api/src/features/paperless-ngx/paperless-tag.service.ts, with
--   `set_tag`, and in Paperless/TagService/Requests `remove_tag`, `request_sync` and `retry_tagging`.
--   Of its reads Paperless/SyncProgress is the progress of a job, and `next_sync_at` of TagService/Answers
--   the moment that is announced; the others are left out. Paperless/Configured is what the tick and the
--   service read from the settings. The times of creation of jobs are the order of
--   their rows.
--
-- Settings: packages/foundation/src/config, where both the API and the worker read their configuration.
--   Settings/Catalog: settings-catalog.ts, with the entries in Settings/Catalog/Assistant,
--   Integrations, Bootstrap, Sessions and Processes. What only the admin UI shows of an entry (group,
--   description, presets, hints, the test of a connection) is left out.
--   Settings/Validation: settings-validation.ts. `Number` of a numeral and
--   `String` of a number are those of doubles (Prelude/Doubles: rounding to 53 bits, infinities, the
--   shortest numeral, exponents from 10^21 on). They differ from integers from 2^53 on, which only
--   APP_PORT and WEB_PORT, without an upper bound, can reach.
--   Settings/Resolver: settings-resolver.service.ts. The constructors of `Reason` stand for the texts.
--   Whether a text can be decrypted is a parameter (`EncryptionPort`).
--   Resolver/Reads are the typed reads and Resolver/Many is `resolveMany`.
--   Settings/Preload: settings-preload.ts, for runs that end before the limit of 15 seconds.
--
-- Not modelled: the policy registry, documents, the Paperless-ngx adapter of the API, the AI services
-- with their worker processor, the admin API of the settings, guards, OIDC (but for
-- `normalizeIssuerUrl`), health and the web application.
mod Prelude
pub mod Http
pub mod Ai
pub mod Config
pub mod Identity
pub mod Cost
pub mod Settings
pub mod Sharing
pub mod Paperless
