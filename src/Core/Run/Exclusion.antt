-- ===== src/Core/Run/Exclusion.antt =====
-- internal/core/agent.go, Run: the flag `running`.
use marx_agent.Prelude.{◌≡◌, ◌≤◌, ◌==◌, List, [], ◌∷◌, arith}
use marx_agent.Core.Emit.{Agent}
use marx_agent.Core.Run.{
  nil_ctx, live_ctx, ended_ctx, start, RunStep, calls, ends, Runs, run_step, run_steps,
}

-- At most one run, and the flag tells which.
pub record IsExclusive (r : Runs) : Type 0 where
  pub one : r.active ≤ 1
  pub told : r.running ≡ r.active == 1

module _ {W : Type 0} (a : Agent W) where
  run_step-IsExclusive : (x : RunStep) (r : Runs) → IsExclusive r → IsExclusive (run_step a x r)
  unfolding run_step start
  run_step-IsExclusive (calls nil_ctx i) r h = h
  run_step-IsExclusive (calls (ended_ctx e) i) r h = h
  run_step-IsExclusive (calls live_ctx i) r h = record {
    one = ground (arith, h.one, h.told);
    told = ground (arith, h.one, h.told);
  }
  run_step-IsExclusive ends r h = record {
    one = ground (arith, h.one, h.told);
    told = ground (arith, h.one, h.told);
  }

  -- One run at a time: from a state where at most one run is active and the flag tells whether
  -- one is, every sequence of calls of Run and ends of runs leads to such a state.
  pub run_steps-IsExclusive :
      (xs : List RunStep) (r : Runs) → IsExclusive r → IsExclusive (run_steps a xs r)
  unfolding run_steps
  run_steps-IsExclusive [] r h = h
  run_steps-IsExclusive (x ∷ xs) r h =
      run_steps-IsExclusive xs (run_step a x r) (run_step-IsExclusive x r h)
