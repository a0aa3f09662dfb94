-- ===== src/Lib.antt =====
-- almanak-keeperhub: the execution backend that lets an Almanak strategy send its transactions
-- through KeeperHub's Direct Execution API instead of signing them itself.
--
-- The program's parts. The client (almanak_keeperhub/client.py) speaks HTTP with KeeperHub: it turns
-- a call into a request body, learns from the answers which bodies this KeeperHub takes, runs dry
-- runs, broadcasts and guarded executions, and polls an execution until it settles. The submitter
-- (almanak_keeperhub/submitter.py) sends a bundle of transactions one after another through the
-- client, writes each hash to the receipts log (almanak_keeperhub/receipts.py), tells the operator,
-- and answers with receipts, also after a restart. The guarded exit
-- (almanak_keeperhub/guarded_exit.py) redeems vault shares through the client's check-and-execute
-- and logs what came of it. The simulator (almanak_keeperhub/simulator.py) asks KeeperHub what a
-- bundle would do, before it is submitted. The keeper (almanak_keeperhub/keeper.py) and the exit
-- workflow (almanak_keeperhub/exit_workflow.py) hand KeeperHub workflows that it runs on its own, and
-- read what came of a run. The operator's bot (almanak_keeperhub/bot.py) and the MCP server
-- (almanak_keeperhub/mcp_server.py) start the program's commands for a chat and for an agent, and the
-- console (almanak_keeperhub/console/server.py) shows the receipts log. The strategy decides the
-- deposits and redemptions that Almanak compiles into those transactions. The errors are those of
-- almanak_keeperhub/errors.py.
--
-- The files.
--   Prelude         helpers: native numbers and integers, Boolean tests, lists
--   Python          what the code uses of Python: texts, `str` and `int`, JSON values, `json.dumps`
--   Errors          errors.py: the API errors by class, and `Result`
--   Effects         a method call as a state passing function: the host (the server, the chain's
--                   receipts, sha256, the clock's printing) is a parameter, the state is `World`;
--                   Frame, Triple, Asked and Leads are the ways to reason about a call
--   Client          client.py: Calls (`ContractCall`, `wei_to_ether_string`), Answers (payloads and
--                   `_raise_for_status`), Methods (the methods of `KeeperHubClient`, in Posts, Runs
--                   and Status), Polling (`wait_for_terminal`); the proofs are in Steps, Bodies, Sends,
--                   Ends, Kinds, Ether, Deadline and Latch
--   Receipts        receipts.py: `ReceiptLog`, and `merge_logs` in Merge; the proofs are in Lookup,
--                   Entries, Quiet and Union
--   Submitter       submitter.py: Types, Broadcast (`_broadcast`, `_resolve_hash`), Settle
--                   (`execution_for`, `_settle`, `get_receipt`), Submit (`submit`); the proofs are
--                   in Total, Ends, Bundle, Frames, Keys, Logged, Kept, Resume and Verdict
--   GuardedExit     guarded_exit.py: `run_guarded_exit`; the proofs are in Outcome
--   Calldata        calldata.py: Split (`_split_top_level`, `_matching_paren`), Inputs (`FunctionSig`,
--                   `_parse_signature`), Index (`SelectorIndex`), Values (`_named_input`,
--                   `_json_value`), Decode (`decode_calldata`); the proofs are in Balanced, Types,
--                   Parts, Canonical, Grouped, RoundTrip, Keyed, Order, Named and Faithful
--   Signer          signer.py: `idempotency_key_for`, and Calls (`call_for`, `sign`); the proofs are
--                   in Keys and Signed
--   Simulator       simulator.py: `KeeperHubSimulator`; the proofs are in DryRun, Complete and
--                   Backed
--   Strategy        demos/metamorpho_base_yield/strategy.py (demos/metamorpho_base_sepolia/strategy.py
--                   is the same but for its chains): the state machine that enters and leaves a vault
--                   by the yield, with Config (`__init__`) and Saved (the persisted state); the
--                   proofs are in Rules, Runs, Reach, Restart and Config
--   Keeper          keeper.py: Compounder (`build_compounder_workflow`), Remote (`deploy` and the other
--                   single requests), Run (`run_now`), Params (`keeper_params_from_config`); the
--                   proofs are in Gated, Window, Endings, Finished and Sourced
--   ExitWorkflow    exit_workflow.py: `build_exit_guard_workflow`, and `guard_outcome` in Outcome; the
--                   proofs are in Guarded and Reported
--   Bot             bot.py: Words, Handle (`handle` and the commands that act), Turns (how messages and
--                   the ends of jobs interleave); the proofs are in Single, Fair, Confirmed and Ordered
--   Console         console/server.py: `build_state`; the proofs are in Accounted
--   McpServer       mcp_server.py: the tools that an agent may call; the proofs are in Guards
--   Wallets         wallets.py: `resolve_wallet_address`; the proofs are in Agreed
--   Tests           a small server, and the properties at it
--
-- Calldata, Signer, Wallets, Console and McpServer are functions of what they read: the transaction,
-- the environment's variables, the answers that `httpx.get` gives, what the files hold, and `EthAbi`,
-- which stands for eth_abi and eth_utils. Bot keeps a state of its own: what its owner armed, and
-- whether a job holds it.
--
-- How state and effects correspond. `World` holds the requests sent, the clock, the receipts file as
-- what `json.loads` makes of it, the alerts, `KeeperHubClient.capabilities` and `_wallet_address`,
-- and `KeeperHubSubmitter._executions`. A Python exception is an `err`, and what was written before
-- it stays written. The handlers of a `try` are functions of the outcome. The server may answer each
-- request in any way that depends on the requests before it. Locking makes a read of the log, and a
-- read and write of it, one step.
--
-- Bounds and fuel. `_type_to_abi_input` has the length of the parameters in fuel, and each of its
-- calls is on a shorter text. Times are in ticks of a microsecond. `_post_call` calls itself at
-- most once, since the flag of raw calldata is then known to be False. `_broadcast` makes its
-- first attempt and at most `max_retries` more. `wait_for_terminal` makes a round per tick at
-- most: on a server each of whose answers takes a tick, the deadline comes before the fuel ends,
-- and so it is with the loop of `run_now`. JSON numbers are integers.
--
-- A strategy's amounts are whole numbers of 10 ^ -20, so a balance of at most 18 decimals times a
-- percentage is exact, as it is in Python where the product has at most the 28 digits of its
-- decimal context; a longer one, which Python rounds, is outside of the model. What it persists is
-- a dict of texts and numbers; the printing and reading of a `Decimal` and of a `datetime` are
-- parameters.
--
-- Not modelled: logging, the writing of a temporary file before the rename, the text of the exception
-- of a receipts file that is not JSON, which names its path and the parser's problem, and the
-- addresses that a receipt of the chain carries beside its status, gas and logs. A text of a JSON list
-- or dict, which the program never prints on purpose, is the host's. An optional text in an answer that
-- is not a text is taken as missing. Of the front ends the texts of the commands and tools that only
-- read, the summaries of a command's output and the transport of Telegram, MCP and HTTP are left out,
-- and cli.py, verify.py, gateway.py, backend.py, notify.py and testnet.py have no file here: they
-- parse arguments, decode event logs to print them, or install the components in other programs. The
-- wallet registry, which hands the address of `resolve_wallet_address` on by chain, is left out too.
mod Prelude
pub mod Python
pub mod Errors
pub mod Effects
pub mod Calldata
pub mod Client
pub mod Receipts
pub mod Submitter
pub mod GuardedExit
pub mod Signer
pub mod Simulator
pub mod Strategy
pub mod Keeper
pub mod Bot
pub mod Console
pub mod McpServer
pub mod ExitWorkflow
pub mod Tests
pub mod Wallets
