-- ===== src/Lib.antt =====
-- The core of balvibot's API (tools/api): the approval-gated actions, the tables that they and the
-- indexers keep, the threading of mail, the mail indexer and the sync with Drive.
--
-- The program. An agent calls the tools of the MCP server. A tool that would change something only
-- queues an action in the table approval_actions. An operator lists the queue with balvi-approve,
-- signs the payload of one action with an SSH key and sends the signature to the approval server,
-- which checks it against the key that the table approval_users has for the operator, runs the
-- action's handler and records the outcome in the queue. The handlers create grantees, operators,
-- Drive sources and links from e-mail addresses to grantees. The mail indexer reads a mailbox over
-- IMAP, puts each message into a thread and resolves its grantee. The Drive sync compares each file
-- of a source with its stored document and exports it again where they differ.
--
-- What models what, with the path of the code:
--   Prelude         lists, byte strings, decimal numbers, and the tests on them
--   Errors          the errors that the code tells apart, by their chain of wrapping
--   Json            encoding/json: its scanner as a state machine, Compact and the HTML escapes
--   Store.Schema    tools/api/migrations and tools/api/internal/store/models.go: rows and tables
--   Store.Exec      calls of the database: a function from a World (the tables, the clock, which
--                   statements fail) to a result and a World; transactions
--   Store.Approvals tools/api/internal/store/approvals.go
--   Store.Users     the operators' table, and the directory that it refines (Directory, Refined)
--   Store.Grantees, Store.Sources, Store.Threads, Store.Messages, Store.Docs, Store.Text
--                   tools/api/internal/store/store.go; what AddGranteeEmail leaves (Linked) and
--                   what InsertMessage leaves (Inserted, Children, Complete),
--                   whatever fails and while the database answers (Answers, Delivered)
--   Store.Like      PostgreSQL's SUBSTR and ILIKE, which the queries use
--   Store.Notes     tools/api/internal/store/notes.go, and a client of ListNotes (Pages)
--   Store.Queries   tools/api/internal/store/queries.go, GetMessage (Detail), the lists of grantees
--                   (Summaries), and a client of ListMessagesByGrantee (Skipped)
--   Store.Keeps, Store.Gives, Store.Atomic, Store.Reads, Store.Paged
--                   rules on what calls keep, on what holds after a call that succeeds, on
--                   transactions, on calls that only read, and on the page of a query
--   Approval        tools/api/internal/approval: SigningPayload, Verify, Fingerprint, the Registry
--   Actions         tools/api/internal/actions: the handlers and their registration
--   ApprovalServer  tools/api/internal/approvalserver/handlers.go: listActions, getAction,
--                   getApprovalUser and approveAction (decide, then carry_out), and the queue as it is to
--                   be after an approval (Settled)
--   ApproveCli      tools/api/cmd/approve/main.go: the command approve, the choice of the key (Keys)
--                   and the requests over HTTP to the handlers of ApprovalServer (Http)
--   McpServer       tools/api/internal/mcpserver/server.go: the tools that queue an action
--                   (Queue), listApprovals (Approvals), those for notes (Notes) and those that read
--                   (Reads)
--   Threading       tools/api/internal/parse/threading.go: ExtractIDs and ThreadCandidates
--   Mailbox         tools/api/internal/mailbox/indexer.go, sync and handleMessage, Run and runOnce
--                   (Run), and tools/api/internal/grantee/resolver.go
--   Config          tools/api/internal/config/config.go: FromEnv and the checks of the commands
--   DriveSync       tools/api/internal/sync/sync.go: processDoc, walkFolder and syncGrantee (Walk),
--                   and Run (Run)
--   Examples        an example world, with the functions and the theorems applied to it
--
-- Names follow the code: EnqueueAction is enqueue_action, approveAction approve_action. An operation
-- of the store is one definition for the method and one for each statement, from tables to tables.
--
-- The World. Each statement fails, and changes nothing, where the list of outages says so (in the
-- Drive sync ctx.Err is such a call too); a theorem without a condition on it holds for all
-- outages, and `calm w` is `w` with none ahead. Time is that of the World's clock, in seconds,
-- which does not move during a call. Handlers run one after the other, but for the race of
-- ApprovalServer.Race, where the steps of two are put in another order. A constraint of the tables
-- is written into the statements that it can make fail. The ids of a table are counted up; a
-- transaction that is rolled back does not give its ids back. In PostgreSQL a statement that fails
-- may use up an id too, which is not modelled: the ids have fewer gaps here.
--
-- Strings are lists of bytes. Folding of case and trimming of space are those of ASCII. Numbers are
-- natural, but for the durations of Config; ids, UIDs and times are not negative. So the zero time,
-- which parseDriveTime gives for a file without a modifiedTime, is none of the times here: the sync
-- is modelled for files whose modifiedTime is there or is not a time at all. Loops are structural
-- recursion, so the code's functions have no fuel, but for walkFolder, whose pages and levels of
-- folders take one step each: a tree of ranks gives enough, and a walk that is out of fuel says so.
-- The client of ListNotes in Store.Notes.Pages, which follows the cursors, has one step for each
-- page, and more steps than there are notes are enough; that of ListMessagesByGrantee in
-- Store.Queries.Skipped makes any number of steps. The sessions of the mail indexer's Run are a
-- list, each with the passes of its loop that are seen.
--
-- Parameters, for code that is not here: golang.org/x/crypto/ssh and base64 (Ssh), encoding/json at
-- the argument structs (Codec) and at a map[string]any (unmarshal), PostgreSQL's form of JSONB
-- (World.jsonb), Drive's metadata (DriveLookup), time.Parse, in the indexer ParseRFC822 and
-- NormalizeSubject (Parser) and what a FETCH yields and a session meets, in the configuration
-- time.ParseDuration (Durations), and in the sync what Drive answers, the same throughout a cycle,
-- and parseDriveTime (Drive); in the command line ssh-agent, the files and the ssh package
-- (KeyRing), base64 and MarshalSignature (Encoding), and the status line of an HTTP reply.
--
-- Not modelled: the Drive client, the content store, the command line api, the commands list and
-- show of approve, ListApprovalUsers, and the parts that are I/O or glue: listeners, routing,
-- logging, migrations, MIME parsing, dialling IMAP and IDLE.
pub mod Prelude
pub mod Errors
pub mod Json
pub mod Store
pub mod Approval
pub mod Actions
pub mod ApprovalServer
pub mod McpServer
pub mod Threading
pub mod Mailbox
pub mod DriveSync
pub mod Examples
pub mod ApproveCli
pub mod Config
