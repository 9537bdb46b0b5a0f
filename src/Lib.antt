-- ===== src/Lib.antt =====
-- PromptNet is a registry of prompt templates: publishers push versions over gRPC, a store keeps
-- them with a Git-like history of commits and branches, and agents fetch the served version.
--
-- A request passes the interceptor (server.go, `AuthInterceptor`), which gives it a scope and a
-- write capability, and reaches a handler. A handler authorizes the URI, validates what is
-- published or served, calls the store, and keeps the cache and the subscribers in step with the
-- trunk. `Analyze` tells how far an edit of a prompt changes the meaning around it.
--
-- Prelude: the names and lemmas that the rest shares. A Go string is a list of bytes (`Str`), an
-- int a native number, a map an association list.
--
-- Validate: internal/validate/validate.go. `prompt` is `Prompt`, and `placeholders` finds the
-- matches of its regular expression.
--
-- Store: internal/store/store.go and crypt.go. Store/Exec has the tables, the failing statements
-- and the transactions; Store/Crypt `seal` and `open` (here `unseal`); Store/Hash `Hash` and
-- `CommitHash`; Store/Table the reads and writes of the tables; Store/Commits `Put`, `Get`,
-- `Commit` (`commit_on`), `commit`, `Branch` (`create_branch`), `Merge`, `Resolve`, `SetBranch`,
-- `GetCommit` and `Log`; Store/Listing `List` and `Dump`; Store/Migrate `migrate`; Store/Open
-- `loadCipher`, `rebind` and `Open`. The other modules below Store hold proofs: Keeps the rules
-- for actions, Effects and Methods the effect of each method, History, Calls, Content and
-- Integrity what histories of calls keep, Served what is shown afterwards, Log the walk to the
-- root, Reads and Moves what is left as it was, Quiet the calls while the database answers.
--
-- Semdiff: internal/semdiff/. Semdiff/Changes is `changes`, Semdiff/Analyze `Analyze`,
-- `analyzeChange`, `expand`, `classify`, `deltaText`, `embedOne` and `cosine`, Semdiff/Verdict
-- `Worst` and `Kind`, Semdiff/Format the printing of a propagation, Semdiff/Embedders the
-- embedders. Semdiff/Bounds, Answers and the modules below Changes and Returns hold proofs.
--
-- Server: internal/server/. Server/Auth is the interceptor and the guards of server.go,
-- Server/Chain the interceptors of observability.go, Server/Cache `ttlCache` of cache.go,
-- Server/Contract the interface `Cache`, Server/Redis `redisCache` of redis_cache.go, Server/Serve
-- the state and the steps of a handler, Server/Handlers the handlers that change or serve prompts,
-- Server/Requests those that read, and the dispatch. Server/Guards, Publish, Republish, Valid,
-- Histories, Coherent and the modules below Chain and Redis hold proofs.
--
-- Pubsub: internal/pubsub/pubsub.go, the subjects, the publisher and the subscription.
--
-- Command: cmd/promptnet/main.go. Command/Tokens is `loadTokens`, Command/Setup `genToken`,
-- `initCmd`, `connURL`, `envHost` and `authCtx`, Command/Prompts `put`, `backup`, `restore` and
-- `seedDemo`, Command/Diff `fromProto` and `fromWindows`. Command/Guarded, which puts the tokens
-- file, the interceptors and the handlers together, and the modules below the others hold proofs.
--
-- Client: cmd/promptctl/main.go. Client is `deriveSlots`, `pathToURI`, `validateAll` and the tests
-- of `promote`, Client/Sync the loops of `diffCmd` and `publishToServer`, and what the commands ask
-- of git and of the environment. Client/Files and the modules below Client/Sync hold proofs.
--
-- State: an action of the store is a function on `Store.Exec.State`, which holds the tables, the
-- outcomes of the statements to come (each may fail), the number of reads of the random source and
-- the clock; a handler is a function on `Server.Serve.Node`, which adds the cache and the
-- notifications. A request runs at one time, and a history has a time for each of its requests.
-- Errors are values, and an error inside a transaction puts the tables back. A panic is a code of
-- its own: in Go it takes the process down, past every interceptor.
--
-- Fuel: the loop of `Log` gets one round for each commit and one more; since a parent is always an
-- older commit, that is enough. The loop of `expand` gets one round for each line of the two files
-- and above the change, and one more; a window reaches the edge of both files by then. The loop
-- of `restore` gets one round for each byte of the backup and one more, since a record takes a
-- byte. The digits of a number are printed with the number itself as fuel, which has no more
-- digits than that.
--
-- Parameters, with what is assumed of them stated where they are declared: SHA-256, the JSON and
-- base64 codecs, AES-GCM and the random source (Store/Env), LIKE and ORDER BY (Store/Listing), the
-- embedder, the HTTP client of an embedder, the printing of numbers, the parsing of a URL and of a
-- time, the token bucket of the rate limiter, the Redis server, the delivery of NATS, the
-- protobuf codec, and the floating-point numbers (Semdiff/Float), of which nothing is assumed.
--
-- Not modelled: the generated gRPC code, the parsing of flags, TLS, the opening and closing of
-- network, NATS and Redis connections, the work on a Git repository through go-git (`push`,
-- `commit` and `log` of a working tree), the shell that `watch` runs, and durations. Concurrent
-- requests are not modelled: a request runs whole. Nor is the restart after a panic: a history goes
-- on with the state that the panic left.
pub mod Prelude
pub mod Validate
pub mod Store
pub mod Semdiff
pub mod Server
pub mod Client
pub mod Command
pub mod Pubsub
