-- ===== src/Lib.antt =====
-- A model of ngpool, a mining pool with merged mining, in Go.
--
-- cmd/ngstratum serves miners. It makes a job from the block templates of a main chain and of the
-- merged-mined chains, sends it to each client, checks the hash of every submission against the
-- client's share target and the chains' targets, and records shares and solved blocks in a database.
-- cmd/ngcoinserver runs a currency's node and tells of its newest template; the stratum server finds
-- the coin servers in etcd. cmd/ngweb reads that database: it confirms the blocks, turns the matured
-- ones into credits of the users, and turns the credits into payout transactions, which an operator
-- signs with cmd/ngsign and sends back. It also keeps the users' accounts and answers their queries.
--
-- The files and the code that they model:
--   Prelude      numbers, lists, integers, maps and the ways in which a call ends (Run)
--   Bytes        pkg/common/common.go ReverseBytes, and the Go library's hex, split and byte orders
--   Config       pkg/service/algos.go, chain.go, currency.go: the records, SetupShareChains;
--                Config/Currencies: SetupCurrencies; Config/Algos: the algorithms
--   Merkle       cmd/ngstratum/bt.go merkleRoot, merkleBranch; Merkle/Aux: auxMerkleBranch
--   Template     cmd/ngstratum/bt.go: templates, targets and coinbases
--   Job          cmd/ngstratum/job.go: CheckSolves, blocks and headers; Job/Build:
--                NewJobFromTemplates and the jobs of the chains; Job/Slots: its slot table;
--                Job/Flush: SetFlush, and listenTemplates of cmd/ngstratum/stratum.go
--   Vardiff      cmd/ngstratum/vardiff.go
--   Window       pkg/common/window.go
--   Client       cmd/ngstratum/client.go: the client's state; Client/Messages: stratum_json.go;
--                Client/Write: writeLoop; Client/Read: readLoop
--   CoinBuddy    cmd/ngcoinserver/coinbuddy.go: UpdateBlock; CoinBuddy/Updates: its calls at the same
--                time; CoinBuddy/Handlers: the handlers that call it
--   Coinserver   cmd/ngcoinserver/coinserver.go
--   Server       cmd/ngstratum/stratum.go: HandleCoinserverWatcherUpdates; Server/Shares:
--                ListenShares; Server/Templates: RunTemplateBroadcaster; Server/Status:
--                UpdateStatus; Server/Miner: Miner; Server/Casts: RunBlockCastListener
--   Credits      cmd/ngweb/generatecredits.go: collectShares; Credits/Split: the subsidy's split of
--                processBlock; Credits/Pay: payoutPPLNS, processBlock, GenerateCredits
--   Payout       cmd/ngweb/handler_user.go getCreatePayout; Payout/Post: postPayout; Payout/Send:
--                cmd/ngweb/updatepayouts.go
--   Blocks       cmd/ngweb/confirmblocks.go
--   Accounts     cmd/ngweb/handler_auth.go, middleware.go, BindValid of utils.go, and of
--                handler_user.go the password and the payout address
--   Web          cmd/ngweb/api.go: WatchStratum, WatchCoinservers; handler_user.go getWorkers
--   Queries      cmd/ngweb/handler_public.go, and the queries of handler_user.go
--   Sign         cmd/ngsign/main.go
--   Service      pkg/service/service.go: loadServices, ServiceWatcher; Service/KeepAlive: KeepAlive
--   Broadcast    pkg/lbroadcast/last.go
--   Tests        concrete runs of these
--
-- A function of the source is a function of the same name on the state that it reads and writes. A
-- returned error, a run-time panic and a loop that has not ended are results of Run. A goroutine's
-- loop is a list of events in the order in which its select takes them. A Go map is an association
-- list, and the order of a map's iteration is that of the list. The database is a record of its
-- tables; a transaction that is not committed leaves it as it was.
--
-- Parameters: the hash functions, the transactions, scripts and addresses of btcd, JSON decoding, the
-- coin servers, passwords and tokens, the validator's tests of strings, etcd, and the arithmetic of
-- float64 and big.Float. Vardiff's difficulties are whole multiples of one unit.
--
-- Fuel: the Merkle loops have as many rounds as the list has hashes, since each round halves it; the
-- slot table has 33 sizes before its uint32 size wraps to 0; the tiers have as many rounds as the
-- maximum, since each doubles a positive number; the pages of shares have one round for each row and
-- one more. The theorems below show that this is enough.
--
-- Not modelled: the routes, the configuration and the start of the servers; the coin server's process,
-- which is another program; and the command lines with cmd/ngctl, which edit etcd. int64 amounts are
-- taken without overflow.
pub mod Prelude
pub mod Bytes
pub mod Merkle
pub mod Config
pub mod Template
pub mod Job
pub mod Vardiff
pub mod Window
pub mod Client
pub mod CoinBuddy
pub mod Coinserver
pub mod Credits
pub mod Payout
pub mod Blocks
pub mod Accounts
pub mod Web
pub mod Queries
pub mod Sign
pub mod Service
pub mod Server
pub mod Broadcast
pub mod Tests
