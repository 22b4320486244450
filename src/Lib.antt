-- ===== src/Lib.antt =====
-- A model of the core of backk, a framework for microservices: what its decorators register, how
-- a call of a service function is authorized, and how operations on a SQL data store run inside
-- of transactions, call hooks and report errors, how values are encrypted at rest, and how jobs
-- are scheduled. Paths are from the root of the repository.
--
-- A request names a function of a service class; `tryExecuteServiceMethod`
-- (src/execution/tryExecuteServiceMethod.ts) takes it from the HTTP method to the answer, with
-- all that is below. Decorators have registered, under the names of
-- the class and of the function, who may call it (src/decorators/service/,
-- src/decorators/service/function/). `tryAuthorize` (src/authorization/tryAuthorize.ts) asks
-- these containers, and an authorization service, whether the call may go on. The function then
-- works on a data store: it takes a connection from the pool, may run several operations inside
-- of one global transaction (`executeInsideTransaction` of
-- src/datastore/AbstractSqlDataStore.ts), and each operation opens a local transaction of its
-- own unless one is open (src/datastore/sql/operations/transaction/). An operation looks an
-- entity up, runs the hooks of its caller (src/datastore/hooks/), sends its statements, and
-- commits or rolls back; a query answers with tokens that allow the client to ask for the next
-- page (src/datastore/utils/); what went wrong is turned into a `BackkError` (src/errors/). Before an entity is stored its values
-- are hashed and encrypted by the names and annotations of its properties, and they are
-- decrypted when it is read (src/crypt/). A service function may also be scheduled
-- (src/scheduling/): its job is stored, and at its time it is deleted inside of a transaction
-- and its function called, with retries.
--
-- Files:
-- Common and its children hold the shared names, dictionaries (an object with string keys is the
--   list of its entries), text as code units, `parseInt`, and code that may throw (Common/Exec).
-- Errors: src/errors/createBackkErrorFromError.ts and its neighbours; Errors/Messages:
--   BACKK_ERRORS.ts.
-- Annotations/Service, Annotations/ServiceFunction, Annotations/TypeProperty: the containers
--   serviceAnnotationContainer.ts, serviceFunctionAnnotationContainer.ts and
--   typePropertyAnnotationContainer.ts below src/decorators/, one function per method, named as
--   the method is. Annotations/Classes: the walk up the prototype chain that every getter makes;
--   Annotations/Keys: what that walk finds under the key of a registration.
-- Annotations/Entity: entityAnnotationContainer.ts below src/decorators/entity/; its children
--   Decorators, the decorators of entities and indexes, and SubEntities, setSubEntityInfo.ts below
--   src/datastore/sql/operations/ddl/utils/ with src/utils/getSingularName.ts.
-- Metadata: src/metadata/getTypePropertyAccessType.ts. Validation/Metadata: the question whether a
--   property has a custom validation, of setClassPropertyValidationDecorators.ts below
--   src/validation/, where the storage of class-validator is a parameter.
-- Authorization: tryAuthorize.ts; Authorization/Grants: the reasons for which a call may go on.
-- Transactions: the session of a call, that is the values of the two continuation-local
--   namespaces with the queries that were sent, and the methods of AbstractSqlDataStore.ts that
--   change them; Transactions/Local: src/datastore/sql/operations/transaction/.
-- Hooks: src/datastore/hooks/.
-- Deletion/Brackets: the `try`, `catch` and `finally` around the operations of
--   src/datastore/sql/operations/dml/; Deletion/Statements: the deletions that
--   deleteEntityById.ts sends, and `Promise.all` over them; Deletion/Committed: when work that
--   ends with such statements is committed; Deletion/ById: deleteEntityById.ts;
--   Deletion/AllEntities: deleteAllEntities.ts, over the tree of the entity classes that the
--   properties of a class have.
-- Execution: what a request and a microservice are. Its children model
--   src/execution/tryExecuteServiceMethod.ts in the order of its lines: Execution/Requests (the
--   requests that are answered at once, and those whose method is refused), Execution/Admission
--   (the checks before a service function is looked at), Execution/Accounts (on whose resources
--   it may act), Execution/Functions (its call in namespaces of its own, with a connection),
--   Execution/Responses (the cache, and what becomes of a response), Execution/Answers (heads,
--   bodies, errors and the audit log) and Execution/Method (the whole function);
--   Execution/Names: the names of service functions. The proofs are in Execution/Silence,
--   Execution/Quiet, Execution/Writing and Execution/OneAnswer, Execution/Admitted,
--   Execution/Connections, Execution/Checks, Execution/Dispatch and Execution/Tags.
--   Execution/Fetching: src/execution/fetchFromRemoteServices.ts, with fuel; Execution/Fetching/Fuel:
--   how much is enough.
-- TypeNames: src/utils/type/getTypeInfoForTypeName.ts; TypeNames/Texts and TypeNames/Parts: how
--   the text operations find the parts of a written type.
-- Pages: src/datastore/utils/createCurrentPageTokens.ts and
--   tryEnsurePreviousOrNextPageIsRequested.ts, the tokens with which a client asks for the page
--   next to the one that it got.
-- Crypt: what hashing and encryption know of a microservice; Crypt/Names: the properties that
--   src/crypt/shouldEncryptValue.ts, shouldHashValue.ts and
--   shouldUseRandomInitializationVector.ts choose; Crypt/Cipher: encrypt.ts, decrypt.ts and
--   hash.ts; Crypt/Encryption: hashAndEncryptEntity.ts; Crypt/Decryption: decryptEntities.ts.
--   The proofs are in Crypt/Chains, Crypt/Keys, Crypt/Fits (which entities come back),
--   Crypt/Properties, Crypt/Texts, Crypt/Nested, Crypt/Fitting, Crypt/RoundTrip and Crypt/Nulls.
-- Validation: src/validation/hasAtMostRepeatingOrConsecutiveCharacters.ts; Validation/Runs: the
--   parts of a text that it looks for.
-- Scheduling: src/scheduling/scheduleCronJob.ts and scheduleJobsForExecution.ts;
--   Scheduling/Submission: tryScheduleJobExecution.ts; Scheduling/Loop:
--   src/utils/findAsyncSequential.ts; Scheduling/Accepted and Scheduling/Intervals: which
--   requests are accepted, and how the retry intervals are stored.
-- Each component has its laws in a child Laws, and its examples in a child Tests.
--
-- Parameters. The database is a function from the queries that were sent and a query to a
-- refusal; the pool answers requests for a connection by their number. An authorization service
-- is its two questions, each of which may throw. Hooks are arbitrary functions on the session.
-- The keyed hash of page tokens is a function of a key and a text. The lookup of an entity is an
-- arbitrary function on the session that answers an entity or an error. The environment is a
-- function from names to values. What an execution calls outside of the modelled code is a
-- field of the microservice: the functions of services, which act on the session and on
-- everything outside, the generation of the documents of the metadata, which may throw, the
-- validation of arguments and responses, the fetches from other
-- services, Redis, the two caches of identifiers, the reading of JSON, and the audit log. The cipher of
-- `crypto`, its random bytes, `argon2`, the patterns of `re2`, the conversions of `Buffer`, and
-- the property types of a class are parameters of Crypt; what is relied on of them is the record
-- `IsWorking` of Crypt/Keys. The timers of `cron`, the seconds of a time stamp and the storing of
-- a job are parameters of Scheduling. The properties of an entity, which the code awaits
-- together, are taken in their order. Two functions take fuel: `toString` of a number, where one
-- above the number is more than its digits, and fetchFromRemoteServices, where the recursion
-- goes along the types and may not end.
--
-- Bounds. Page numbers are at least 1, as Pagination.ts validates them. Status codes and
-- identifiers are integers; those that are parsed are below 2^53, beyond which the source's
-- numbers are rounded. Text is a list of code units; `toLowerCase` is modelled on ASCII text,
-- which the names of tables and fields are. The keys that every object inherits, such as
-- `constructor`, are left out of dictionaries. Statements that are sent at once reach the
-- database in the order in which they are sent, since they share a connection.
--
-- Not modelled: logging, metrics and tracing; servers, drivers and clients of third parties; the
-- generation of documents and of source files; MongoDB; queries, filters and the other data
-- manipulations; the validation of arguments; the cron jobs of decorators;
-- executeMultipleServiceFunctions.ts. Of an execution, the times that are
-- measured and the counters of calls are left out.
pub mod Common
pub mod Crypt
pub mod Errors
pub mod Execution
pub mod Annotations
pub mod Authorization
pub mod Transactions
pub mod TypeNames
pub mod Validation
pub mod Scheduling
pub mod Hooks
pub mod Deletion
pub mod Metadata
pub mod Pages
