-- ===== src/McpServer/Guards.antt =====
-- mcp_server.py: which calls start what, and how many rows they list.
use almanak_keeperhub.Prelude.{
  ℕ, zero, suc, ◌≤◌, String, ◌≡◌, refl, sym, ◌⊎◌, inl, inr, Bool, true, false, ◌||◌, Option, none,
  some, List, [], ◌∷◌, any, arith, str_eq, length, length-map, if◌then◌else◌, Bool-cases,
}
use almanak_keeperhub.Prelude.Int.{ℤ, pos, negsuc}
use almanak_keeperhub.Python.Json.{Dict}
use almanak_keeperhub.Bot.Fair.{last}
use almanak_keeperhub.Console.{State, first_rows}
use almanak_keeperhub.McpServer.{
  StrategyTools, Outcome, ToolCall, runs, status, benchmark, failure_modes, keeper, simulate_tick,
  guard_stale, guard_status, list_executions, list_dry_runs, verify, run_failure_demo,
  exit_position, guard_exit, run_tick, name_of, build_server, guarded, demo_outcome, perform,
  serve_call, row_limit, picked, execution_keys, listed_executions, listed_dry_runs,
}

-- The call says that it is to be carried out.
abbrev pub is_confirmed : ToolCall → Bool
is_confirmed (exit_position confirm) = confirm
is_confirmed (guard_exit confirm) = confirm
is_confirmed (run_tick confirm fresh) = confirm
is_confirmed call = false

-- A command line that leaves the chain alone: a dry run, or a decision that is stale on purpose.
abbrev pub is_harmless : List String → Bool
is_harmless argv = str_eq (last argv) "--simulate-only" || str_eq (last argv) "--stale"

abbrev pub IsAllowed : StrategyTools → ToolCall → Outcome → Type 0
IsAllowed tools call (runs argv) =
    (is_harmless argv ≡ true) ⊎ ((tools.allow_broadcast ≡ true) × (is_confirmed call ≡ true))
IsAllowed tools call outcome = Unit

abbrev pub IsServed : StrategyTools → ToolCall → Option Outcome → Type 0
IsServed tools call none =
    (tools.allow_broadcast ≡ false)
    × (any (str_eq (name_of call)) ("exit_position" ∷ "guard_exit" ∷ "run_tick" ∷ []) ≡ true)
IsServed tools call (some outcome) = IsAllowed tools call outcome

guarded-IsAllowed :
    (tools : StrategyTools) (call : ToolCall) (confirm : Bool) (a b : String) (argv : List String)
    → is_confirmed call ≡ confirm
    → IsAllowed tools call (guarded tools confirm a b argv)
unfolding guarded
guarded-IsAllowed tools call confirm a b argv e = ground (arith, e)

perform-IsAllowed :
    (tools : StrategyTools) (call : ToolCall) → IsAllowed tools call (perform tools call)
unfolding perform demo_outcome
perform-IsAllowed tools (run_tick confirm fresh) =
    guarded-IsAllowed tools (run_tick confirm fresh) confirm _ _ _ refl
perform-IsAllowed tools (exit_position confirm) =
    guarded-IsAllowed tools (exit_position confirm) confirm _ _ _ refl
perform-IsAllowed tools (guard_exit confirm) =
    guarded-IsAllowed tools (guard_exit confirm) confirm _ _ _ refl
perform-IsAllowed tools simulate_tick = inl refl
perform-IsAllowed tools guard_stale = inl refl
perform-IsAllowed tools (run_failure_demo name) = ground arith
perform-IsAllowed tools call = tt

served :
    (tools : StrategyTools) (call : ToolCall) (known : Bool)
    → known ≡ true
    → IsServed tools call (if known then some (perform tools call) else none)
served tools call true e = perform-IsAllowed tools call
served tools call false e = absurd (ground arith)

-- A tool that broadcasts is there exactly on a server that was started for it.
gated :
    (tools : StrategyTools) (call : ToolCall) (known : Bool)
    → known ≡ tools.allow_broadcast
    → any (str_eq (name_of call)) ("exit_position" ∷ "guard_exit" ∷ "run_tick" ∷ []) ≡ true
    → IsServed tools call (if known then some (perform tools call) else none)
gated tools call true e named = perform-IsAllowed tools call
gated tools call false e named = (sym e, named)

registered :
    (tools : StrategyTools) (name : String)
    → any (str_eq name) ("exit_position" ∷ "guard_exit" ∷ "run_tick" ∷ []) ≡ true
    → any
        (str_eq name)
        (if tools.allow_broadcast then "exit_position" ∷ "guard_exit" ∷ "run_tick" ∷ [] else [])
      ≡ tools.allow_broadcast
registered tools name named = elim (Bool-cases tools.allow_broadcast) [
  | inl on ↦ rw on named
  | inr off ↦ rw off refl
]

-- A call starts a command line that may broadcast only on a server that was started for it, and
-- only if the call confirms it; what a server does not answer is a tool that broadcasts, on one
-- that was not. Demos are outside of this: they run their own scripts.
pub serve_call-IsServed :
    (tools : StrategyTools) (call : ToolCall) → IsServed tools call (serve_call tools call)
unfolding serve_call build_server name_of
serve_call-IsServed tools (run_tick confirm fresh) =
    gated tools (run_tick confirm fresh) _ (registered tools "run_tick" refl) refl
serve_call-IsServed tools (exit_position confirm) =
    gated tools (exit_position confirm) _ (registered tools "exit_position" refl) refl
serve_call-IsServed tools (guard_exit confirm) =
    gated tools (guard_exit confirm) _ (registered tools "guard_exit" refl) refl
serve_call-IsServed tools status = served tools status true refl
serve_call-IsServed tools benchmark = served tools benchmark true refl
serve_call-IsServed tools failure_modes = served tools failure_modes true refl
serve_call-IsServed tools keeper = served tools keeper true refl
serve_call-IsServed tools simulate_tick = served tools simulate_tick true refl
serve_call-IsServed tools guard_stale = served tools guard_stale true refl
serve_call-IsServed tools guard_status = served tools guard_status true refl
serve_call-IsServed tools (list_executions limit) = served tools (list_executions limit) true refl
serve_call-IsServed tools (list_dry_runs limit) = served tools (list_dry_runs limit) true refl
serve_call-IsServed tools (verify reference) = served tools (verify reference) true refl
serve_call-IsServed tools (run_failure_demo name) = served tools (run_failure_demo name) true refl

length-first_rows : (n : ℕ) (rows : List Dict) → length (first_rows n rows) ≤ n
unfolding first_rows
length-first_rows zero rows = omega arith
length-first_rows (suc n) [] = omega arith
length-first_rows (suc n) (e ∷ es) = omega (arith, length-first_rows n es)

row_limit-bounds : (limit : ℤ) → (1 ≤ row_limit limit) × (row_limit limit ≤ 50)
unfolding row_limit
row_limit-bounds (pos n) = (ground arith, ground arith)
row_limit-bounds (negsuc n) = (omega arith, omega arith)

row_limit-within : (n : ℕ) → row_limit (pos (suc n)) ≤ suc n
unfolding row_limit
row_limit-within n = ground arith

-- Whatever limit an agent asks for, the lists have at most 50 rows, and at most that many if it is
-- above zero.
pub listed-IsBounded :
    (state : State) (limit : ℤ)
    → (length (listed_executions state limit) ≤ 50)
      × (length (listed_dry_runs state limit) ≤ 50)
      × ((n : ℕ)
          → limit ≡ pos (suc n)
          → (length (listed_executions state limit) ≤ suc n)
            × (length (listed_dry_runs state limit) ≤ suc n))
unfolding listed_executions listed_dry_runs
listed-IsBounded state limit =
    let bounds = row_limit-bounds limit in
    let rows = length-first_rows (row_limit limit) state.executions in
    let dry_rows = length-first_rows (row_limit limit) state.simulations in
    let mapped =
      length-map (picked execution_keys) (first_rows (row_limit limit) state.executions) in
    (
      omega (arith, bounds, rows, mapped),
      omega (arith, bounds, dry_rows),
      λ n e.
          let small : row_limit limit ≤ suc n = rw e (row_limit-within n) in
          (omega (arith, small, rows, mapped), omega (arith, small, dry_rows)),
    )
