-- ===== src/Lib.antt =====
-- Verification of whatsapp-inbox, a shared inbox for the WhatsApp Cloud API: a server that many
-- restaurants (tenants) use, a worker that processes Meta's webhooks, and a web client.
--
-- Parts, and the files that model them:
--   Schema, Meta, Json     the tables (prisma/schema.prisma), the payload of a webhook
--                          (src/webhook-worker/meta-webhook.types.ts), values of type `unknown`
--   Db                     a table as a list of rows, with `findFirst`, `updateMany`, `deleteMany`,
--                          `create` and `upsert` as test/support/fake-db.ts runs them: a `where` is a
--                          test on a row, a `data` a function on it
--   Tenancy                every query goes through two extensions of the client:
--                          src/prisma/soft-delete.ts, then src/prisma/tenant-guard.ts. `query` is the
--                          query that the engine is asked (Client), `Matching` what Prisma documents
--                          of a `where` (Confined)
--   Mapping, Numbers       src/webhook-worker/message-mapping.ts
--   Inbound                `processMessage` of src/webhook-worker/inbound-messages.service.ts:
--                          `accept` is the transaction, `receive` its steps 3 and 4, `effects` what
--                          follows the commit
--   Statuses               `apply` of src/webhook-worker/message-statuses.service.ts
--   Window                 src/messaging/window.ts, and web/src/lib/window-ui.ts for what the client
--                          shows of it
--   Send                   `send` of src/messaging/send-message.service.ts: `prepare`, then `begin` up
--                          to the call of Meta (Steps), `settle` after it, and both around what others
--                          write meanwhile (Settle); SendErrors is src/messaging/meta-send-errors.ts,
--                          Templates src/messaging/template.utils.ts
--   AutoReply              src/messaging/auto-reply.ts: opening hours and the configuration
--   Replies                src/messaging/auto-reply.service.ts: the claim of the cooldown, with the
--                          request that Send is then given
--   Users                  src/auth/users.service.ts, src/auth/roles.ts, src/auth/passwords.ts
--   Sessions               src/auth/sessions.service.ts
--   Order                  the orders of lists: by date with the rows without one last, then by id
--   Inbox                  src/inbox: `Pages` is the pagination by cursors, `Listing` the list of
--                          conversations and the thread of one, `Search` its search, `Edits` what
--                          conversations.service.ts writes, `Tags` tags.service.ts and tag-colors.ts
--   Web                    the state of the web client (web/src/lib): `Types` is types.ts, `Composer`
--                          composer.ts, `Thread` and `Rows` are merge.ts, `Orders` is order-ui.ts, and
--                          the store of store.ts is `State` (its initial state), `Outbox` (sends and
--                          retries), `Lists` (loads and selections), `Events` (the socket) and `Edits`
--   Shared, Fixtures       names and lemmas that all parts use; rows for the tests
--
-- How they interact: the worker looks up the account of a webhook's phone number, which names the
-- tenant, and hands each message to Inbound and each status to Statuses. Both work on the tables of
-- messages and conversations; Inbound writes `lastInboundAt`, from which Window computes whether an
-- answer is free of templates, and asks Replies afterwards. Send asks Window before it calls Meta
-- and rewinds the window where Meta finds it closed. All of them reach the tables through Tenancy.
-- Inbox reads and edits the same conversations, and Web holds a copy of what Inbox lists, to which the
-- replies of Send and the events of the socket are merged.
--
-- State is passed explicitly: an operation takes the tables and gives the tables after it, with the
-- events and jobs it sends as a list. An instant is the number of milliseconds since the epoch, and
-- the clock, new ids, the password hash, `JSON.stringify` and `Intl.DateTimeFormat` are arguments.
-- Texts are lists of UTF-16 code units, as the language has them. Loops over lists are recursions
-- on them, so no fuel is needed; the retries of a send in the client have fuel for three calls,
-- which is enough since a second call that throws is given up, and going from page to page of the
-- inbox has any fuel above the number of rows. An asynchronous action of the client is two
-- functions, up to its request and from the reply, so that other actions may come between them. In
-- a transaction whose `create` violates a unique constraint the two upserts before it stay, as in
-- test/support/fake-db.ts; of the values that `Number` reads, texts of decimal digits are modelled.
-- `send` reads the clock once before the call of Meta and once after it. Of a table the columns
-- that the services above use are modelled.
--
-- Not modelled: the limiter of logins, quick replies and media services, provisioning, orders
-- of Gourmetify on the server, the text of a cursor, the components and the transport of the web
-- client, and everything that is wiring of the framework, cryptography or storage.
pub mod Shared
pub mod Json
pub mod Meta
pub mod Schema
pub mod Db
pub mod Order
mod Fixtures
pub mod Window
pub mod Numbers
pub mod Mapping
pub mod Statuses
pub mod Inbound
pub mod Users
pub mod AutoReply
pub mod Templates
pub mod SendErrors
pub mod Send
pub mod Sessions
pub mod Replies
pub mod Inbox
pub mod Tenancy
pub mod Web
