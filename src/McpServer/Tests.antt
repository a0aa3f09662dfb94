-- ===== src/McpServer/Tests.antt =====
-- Calls of a server that only reads.
use almanak_keeperhub.Prelude.{◌≡◌, ◌≤◌, true, false, length, ℕ, suc}
use almanak_keeperhub.Prelude.Int.{pos}
use almanak_keeperhub.McpServer.{
  StrategyTools, run_tick, serve_call, listed_executions, listed_dry_runs,
}
use almanak_keeperhub.McpServer.Guards.{IsServed, serve_call-IsServed, listed-IsBounded}
use almanak_keeperhub.Console.Tests.{page}

abbrev read_only : StrategyTools
read_only = record { strategy_dir = "strategy"; chain = "base"; allow_broadcast = false }

serve_call-IsServed_example :
    IsServed read_only (run_tick true true) (serve_call read_only (run_tick true true))
serve_call-IsServed_example = serve_call-IsServed read_only (run_tick true true)

listed-IsBounded_example :
    (length (listed_executions page (pos 3)) ≤ 50)
    × (length (listed_dry_runs page (pos 3)) ≤ 50)
    × ((n : ℕ)
        → pos 3 ≡ pos (suc n)
        → (length (listed_executions page (pos 3)) ≤ suc n)
          × (length (listed_dry_runs page (pos 3)) ≤ suc n))
listed-IsBounded_example = listed-IsBounded page (pos 3)
