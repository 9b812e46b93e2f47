-- ===== src/Lib.antt =====
-- The image client of gpt2api-image: the part of the web application (web/src) that keeps conversations
-- of image requests, hands them to the server as tasks and follows the tasks to their ends.
--
-- The parts and their files:
-- Conversation: the types of web/src/store/image-conversations.ts. Conversation/Raw is what the
--   storage may hold, of the old and the new format; Conversation/Normalize is how it is read
--   (normalizeConversation and its helpers); Conversation/Ordering is the sorting by date, with
--   Conversation/Lookup for the search by id; Conversation/Stats is getImageConversationStats.
-- Store: the operations of the same file on the stored list (saveImageConversation and the others),
--   with Store/Lookup and Store/Batch for what they do to an entry, Store/Queue for the queue of the
--   writes and Store/Replay for its abstract view, a map from ids that takes the same writes.
-- Task: ImageTask of web/src/lib/api.ts, and what the tasks make of images and turns
--   (taskDataToStoredImage, mapImageTasksByLookupId, deriveTurnStatus of web/src/app/image/page.tsx).
-- Recovery: recoverConversationHistory and syncConversationImageTasks, the two passes when the page
--   is opened, with Recovery/Synced for what the second leaves.
-- Page: the state of the page and the handlers of the history (updateConversation,
--   handleDeleteConversation, handleDeleteTurnPart and so on); Page/Composer adds handleSubmit,
--   handleRegenerateTurn and handleRetryImage; Page/Inputs adds loadQuota,
--   handleReplyToTurn and the other handlers that fill the composer; Page/Agreement is the list in memory
--   against the storage.
-- Turn: what a run makes of its turn. Queue: runConversationQueue, which submits and polls the tasks of
--   one turn, with Queue/Schedule for several runs and the handlers in any order, Queue/Agreement for
--   the storage, Queue/Tasks for the ids that a run polls, and Queue/Waiting for the conversations that wait for a run.
-- Auth: web/src/store/auth.ts, the session that the browser keeps. Session: the cached session and its
--   validation (web/src/lib/auth-session.ts), the logout of web/src/components/top-nav.tsx and the guard
--   of web/src/lib/use-auth-guard.ts.
-- Request: the interceptors of web/src/lib/request.ts. Login: handleLogin of
--   web/src/app/login/page.tsx and the redirect of that page.
-- Configuration: the system configuration of web/src/app/settings/store.ts, as it is read and sent.
--   Settings: the store around it. Register: the registration in the same file, with
--   web/src/lib/register-runtime.ts: its state, what is sent and the guards. Registration: the reading of
--   an answer, the setters and the ends of the operations.
-- Paging: the pages of a table and the pager below it, as web/src/app/accounts/page.tsx and the other
--   pages with tables compute them. Selection: the checkboxes of the tables, and how a request ends.
-- Accounts: web/src/app/accounts/page.tsx. Accounts itself is what is said of an account, Accounts/Table
--   the state of the page and what it shows, Accounts/Handlers the handlers, Accounts/Events all that can
--   happen to the page, in any order. Imports: the readers of
--   web/src/app/accounts/components/account-import-dialog.tsx, Imports/Dialog and Imports/Handlers the
--   dialog.
-- Logs: web/src/app/logs/page.tsx, with Logs/Events for all that can happen to the page. Images:
--   web/src/app/image-manager/page.tsx, with Images/Tagging for the tags. Keys:
--   web/src/app/keys/components/user-keys-card.tsx.
-- RegisterCard: the domain blacklist and the provider types of
--   web/src/app/register/components/register-card.tsx.
-- Lightbox: web/src/components/image-lightbox.tsx, with Lightbox/Gestures for its handlers and
--   Lightbox/Events for all that can happen to it, in any order. Its numbers are the record `Scalar`, the
--   finite numbers of JavaScript with the laws of their order.
-- Base: texts as lists of UTF-16 code units, numbers, maps, and the built-ins that depend on the host.
-- Tests: concrete values and runs.
--
-- How they interact: the page holds the list of conversations in memory, sorts it as the store does, and
-- hands every change to the store, whose operations are the `Write` values of Store/Queue. A run changes
-- the page only by `update_conversation`, and the images by the functions of Task. The recovery uses the
-- same functions on the list before the page shows it.
--
-- How the code is modelled: a handler is a function of the state of the page for the code up to its first
-- `await`, and for the run and the toast that follow when the write has succeeded. What it asks of the
-- storage, of the server and of the user interface is appended to `effects`, in the order of the calls. A run
-- is one function for each piece of code between two awaits, on the page as it then is, with the server's
-- answers as arguments. A React state that a handler's closure has seen
-- is an argument. One synchronous pass reads the clock once. Reference images and their files are one
-- list. An optional flag that is absent is `false`, as every reader takes it. Numbers are JavaScript
-- numbers (NaN, the infinities, and the finite ones by floor and fraction). Lists and maps are finite, so
-- the functions are structural; `show` has one round of fuel for each unit of its number, which is enough
-- since a round divides by ten. The record `Host` is what depends on the host: `toLowerCase`,
-- `localeCompare`, `Date`, `Number` and `String`, with the laws that the language gives for them.
--
-- Not modelled: the JSX and the styles, scrolling, files and their decoding (what comes of it is an
-- argument), the calls of web/src/lib/api.ts, the counters and the log of a registration, the dates
-- and formatted floating-point numbers of the tables, the other pages, the server (internal/app) and
-- the registration executor, which the client sees as answers. Queue/Schedule lets a run take its
-- pieces in any order, which allows more than the program does.
pub mod Base
pub mod Conversation
pub mod Task
pub mod Store
pub mod Recovery
pub mod Page
pub mod Turn
pub mod Queue
pub mod Auth
pub mod Session
pub mod Request
pub mod Login
pub mod Configuration
pub mod Settings
pub mod Register
pub mod Registration
pub mod Selection
pub mod Paging
pub mod Accounts
pub mod Imports
pub mod Logs
pub mod Images
pub mod Keys
pub mod RegisterCard
pub mod Lightbox
pub mod Tests
