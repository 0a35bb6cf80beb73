-- ===== src/Lib.antt =====
-- The services of the TeamOS backend: a NestJS application over a Prisma database. A service is a
-- class whose methods read and write tables, throw HTTP exceptions and send messages out. Each is
-- modelled as functions on a store: a record of the tables that the service uses (lists of rows),
-- and the messages sent so far. A method answers `ok` with a value and the new store, or `err`
-- with the exception's status and a name for its message; a refused request leaves the store.
--
-- The files, with the code that each models:
--   Prelude    tests on numbers, tables and the Prisma calls on them, refused requests
--   Rows       laws of tables with a primary key, of rows that belong to an organization, and of
--              tables compared row by row
--   Roles      the enum Role, and src/lib/common/constants/role-rank.ts
--   Directory  the tables Member, UserProfile and Department of prisma/schema.prisma
--   Guard      src/lib/common/guards/roles.guard.ts
--   Outbox     messages: src/lib/common/events/task.events.ts, src/lib/audit/audit.action.ts,
--              src/modules/notification/notification.constants.ts
--   Amounts    JavaScript's numbers and the laws of their order that some theorems ask for
--   Task       src/modules/task/task.service.ts. Create, Update, Progress (`updateStatus`),
--              Remove, SubTasks, Comments and Queries are its methods, Dependencies the loop that
--              looks for a circular dependency, and Service its writing requests as one type.
--              TaskWrites sums up what a request writes; Reaching, Trails, Chains, Acyclic and
--              Links are about chains of dependencies; Soundness and Invariant about all requests;
--              Completion, Visibility, Stats and Ordering about single ones.
--   Target     src/modules/target/target.service.ts. Alignment is `validateAlignment`, Changes
--              `create`, `update` and `remove`, Entries `addEntry`, `deleteEntry`, `rollupParent`
--              and `checkEntryAccess`, Queries the lists, and Service the writing requests as one
--              type. Hierarchy, Alignments, Rollup, Linking and Upkeep are about the links between
--              targets, Visibility about the lists.
--   Complaint  src/modules/complaint/complaint.service.ts. Filing is `create`, Handling
--              `updateStatus`, `delete` and `markLateComplaints`, Listing the methods that read,
--              and Service the writing ones as one type. Transitions, Closing, Lateness,
--              Isolation, Visibility and Listed are about them.
--   Scheduler  src/scheduler/performance.task.ts. Overdue is `handleOverdueDetection`, and
--              Detection is about it.
--   Performance  src/modules/performance/performance.service.ts and performance.processor.ts.
--              Scoring is `recalculateForUser`, Jobs the event handlers, `recalculateAll` and the
--              worker, Snapshots `captureSnapshot` and the daily job of
--              src/scheduler/performance.task.ts, Views the methods that read. Counting, Rated,
--              Fresh and Current are about recalculation, Following about what the task service's
--              `updateStatus` sets off, Repeats and Daily about snapshots, Visibility and Ranking
--              about what is shown.
--   Review     src/modules/review/review.service.ts. Templates, Cycles, Activation
--              (`activateCycle`), Submission (`submitReview`), Nominations, Calibration, Closing
--              (`completeCycle`), Deadlines and Feedback are its methods, and Service its writing
--              requests as one type. Writes and Frame say which tables a request writes; Lifecycle
--              is about cycles, Pairs, Assigned, Unique and Records about reviews, Peers about
--              nominations, Sessions and Scores about calibration.
--   Staff      src/modules/department/department.service.ts (Departments) and
--              src/modules/user/user.service.ts (Users and Listing), with their writing requests
--              as one type in Service. Names, Placed and Records are about all requests,
--              Reassigned about `reassignTeam`.
--   Recognition  src/modules/recognition/recognition.service.ts. Sorted, Pages and Rules are about
--              it.
-- The task service publishes events, the overdue detection and `recalculateAll` queue jobs, and
-- both end in the performance service's queue; the review service writes the score of a finished
-- calibration into the rows that the performance service keeps.
--
-- Each service has its runs and examples in a module Tests.
--
-- Identifiers are numbers, of which 0 is the empty string; times are numbers of milliseconds. What
-- the database makes up (a new row's identifier, the time) is an argument of the request. The
-- fractions of targets, reviews, performance and tasks are JavaScript's: their arithmetic is the parameter
-- `Amounts`. Messages, notifications, events, audit entries and deletions of files are recorded in
-- the order in which the code sends them; their wording is not. In which order the pages of
-- recognitions have rows of one time is an argument of each page; other sorted lists fix one.
--
-- Loops: the walk along dependencies takes as fuel one step for each task and one more, since it
-- meets no task twice. The loop over a target's ancestors and the update of the targets above an
-- entry take two, since a link leads to a higher kind and there are three kinds. Running out of
-- fuel is an outcome of its own.
--
-- Not modelled: the fields that an answer joins from other tables, the order of the lists of tasks,
-- targets and departments, `getStrategyMap`, foreign keys and unique constraints that no
-- definition names (among them the unique title of a target in a period), concurrent requests,
-- mails, the outcome of an upload (an argument), the texts of a language model (review drafts and
-- insights), lists of templates and of calibration sessions, the user's own account, and the
-- services of notifications, analytics, audit reports and authentication.
pub mod Prelude
pub mod Rows
pub mod Roles
pub mod Directory
pub mod Outbox
pub mod Amounts
pub mod Task
pub mod Target
pub mod Complaint
pub mod Performance
pub mod Review
pub mod Staff
pub mod Guard
pub mod Recognition
pub mod Scheduler
