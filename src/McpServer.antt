-- ===== src/McpServer.antt =====
-- mcp_server.py: the tools that an agent may call, and what each starts. The tools that only read
-- answer with what they read, which is left open but for the two lists.
pub mod Guards
pub mod Tests
use almanak_keeperhub.Prelude.{
  ℕ, zero, suc, ◌-◌, String, Bool, true, false, not, ◌||◌, Option, none, some, List, [], ◌∷◌, ◌++◌,
  map, str_eq, any, if◌then◌else◌,
}
use almanak_keeperhub.Prelude.Int.{ℤ, pos, negsuc, leb_ℤ}
use almanak_keeperhub.Python.Json.{Dict, get, entry, empty}
use almanak_keeperhub.Bot.{demos, looked_up}
use almanak_keeperhub.Console.{State, first_rows}

-- The fields of `StrategyTools`.
pub record StrategyTools : Type 0 where
  pub strategy_dir : String
  pub chain : String
  pub allow_broadcast : Bool

-- What a call does: it reads, it is refused with an error, it names a demo that there is not, it
-- runs the package's command line with arguments, or it runs the script of a demo.
pub data Outcome : Type 0 where
  reads : Outcome
  refused : String → Outcome
  unknown_demo : String → Outcome
  runs : List String → Outcome
  script : String → Outcome

-- A call of a tool with its arguments.
pub data ToolCall : Type 0 where
  status benchmark failure_modes keeper simulate_tick guard_stale guard_status : ToolCall
  list_executions list_dry_runs : ℤ → ToolCall
  verify run_failure_demo : String → ToolCall
  exit_position guard_exit : Bool → ToolCall
  run_tick : Bool → Bool → ToolCall

unfoldable pub name_of : ToolCall → String
name_of status = "status"
name_of benchmark = "benchmark"
name_of failure_modes = "failure_modes"
name_of keeper = "keeper"
name_of simulate_tick = "simulate_tick"
name_of guard_stale = "guard_stale"
name_of guard_status = "guard_status"
name_of (list_executions limit) = "list_executions"
name_of (list_dry_runs limit) = "list_dry_runs"
name_of (verify reference) = "verify"
name_of (run_failure_demo name) = "run_failure_demo"
name_of (exit_position confirm) = "exit_position"
name_of (guard_exit confirm) = "guard_exit"
name_of (run_tick confirm fresh) = "run_tick"

-- The tools that `build_server` registers.
unfoldable pub build_server : StrategyTools → List String
build_server tools =
    "status"
    ∷ "list_executions"
    ∷ "list_dry_runs"
    ∷ "verify"
    ∷ "benchmark"
    ∷ "failure_modes"
    ∷ "keeper"
    ∷ "simulate_tick"
    ∷ "run_failure_demo"
    ∷ "guard_stale"
    ∷ "guard_status"
    ∷ (if tools.allow_broadcast then "exit_position" ∷ "guard_exit" ∷ "run_tick" ∷ [] else [])

-- The two tests that a tool that broadcasts begins with.
unfoldable pub guarded : StrategyTools → Bool → String → String → List String → Outcome
guarded tools confirm disabled unconfirmed argv =
    if not tools.allow_broadcast
    then refused disabled
    else if not confirm
    then refused unconfirmed
    else runs argv

unfoldable pub run_tick_argv : StrategyTools → Bool → List String
run_tick_argv tools fresh =
    let argv : List String = "run" ∷ "-d" ∷ tools.strategy_dir ∷ "--once" ∷ [] in
    if fresh then argv ++ "--fresh" ∷ [] else argv

-- `run_failure_demo`, by the script of the name.
unfoldable pub demo_outcome : String → Option String → Outcome
demo_outcome name none = unknown_demo name
demo_outcome name (some found) = script found

-- The methods of `StrategyTools`.
unfoldable pub perform : StrategyTools → ToolCall → Outcome
unfolding demo_outcome
perform tools simulate_tick =
    runs ("run" ∷ "-d" ∷ tools.strategy_dir ∷ "--once" ∷ "--fresh" ∷ "--simulate-only" ∷ [])
perform tools (run_tick confirm fresh) =
    guarded tools confirm
      "broadcast is disabled on this server; start it with --write to allow real ticks"
      "a real tick signs and broadcasts through KeeperHub; call again with confirm=true"
      (run_tick_argv tools fresh)
perform tools (exit_position confirm) =
    guarded tools confirm
      "broadcast is disabled on this server; start it with --write to allow exits"
      "a real exit signs and broadcasts through KeeperHub; call again with confirm=true"
      ("exit" ∷ "-d" ∷ tools.strategy_dir ∷ "--chain" ∷ tools.chain ∷ [])
perform tools (guard_exit confirm) =
    guarded tools confirm
      "broadcast is disabled on this server; start it with --write to allow exits"
      "a live decision redeems through KeeperHub's engine; call again with confirm=true"
      ("exit-guard" ∷ "run" ∷ "-d" ∷ tools.strategy_dir ∷ "--chain" ∷ tools.chain ∷ [])
perform tools guard_stale =
    runs
      ("exit-guard" ∷ "run" ∷ "-d" ∷ tools.strategy_dir ∷ "--chain" ∷ tools.chain ∷ "--stale" ∷ [])
perform tools (run_failure_demo name) = demo_outcome name (looked_up name demos)
perform tools call = reads

-- What the server does with a call; it has no tool of another name.
unfoldable pub serve_call : StrategyTools → ToolCall → Option Outcome
serve_call tools call =
    if any (str_eq (name_of call)) (build_server tools) then some (perform tools call) else none

-- `max(1, min(int(limit), 50))`
unfoldable pub row_limit : ℤ → ℕ
row_limit (pos n) = if leb_ℤ (pos n) (pos 0) then 1 else if leb_ℤ (pos 50) (pos n) then 50 else n
row_limit (negsuc n) = 1

-- `{k: e.get(k) for k in keys}`
unfoldable pub picked : List String → Dict → Dict
picked [] e = empty
picked (k ∷ ks) e = entry k (get k e) (picked ks e)

abbrev pub execution_keys : List String
execution_keys =
    "function" ∷ "to" ∷ "status" ∷ "verified" ∷ "sponsored" ∷ "idempotent_replay" ∷ "execution_id"
    ∷ "tx_hash" ∷ "explorer" ∷ "recorded_at" ∷ []

-- `list_executions` and `list_dry_runs`
unfoldable pub listed_executions : State → ℤ → List Dict
listed_executions state limit =
    map (picked execution_keys) (first_rows (row_limit limit) state.executions)

unfoldable pub listed_dry_runs : State → ℤ → List Dict
listed_dry_runs state limit = first_rows (row_limit limit) state.simulations
