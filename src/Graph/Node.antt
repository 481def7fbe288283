-- ===== src/Graph/Node.antt =====
-- engine/graph/runtime.go: what a node returns. A node's calls of models, people and other services
-- are functions of the number of the dispatch, so that the same call may answer differently later.
use alice_core.Prelude.{
  ℕ, Bool, false, ◌&&◌, not, Str, is_empty, add_int, slt, if◌then◌else◌, List, [], ◌∷◌, ◌++◌,
}
use alice_core.Hermes.Usage.{Cost, Counters}
use alice_core.Hermes.Snapshot.{StateUpdate, RuntimeStep}

pub record NodeOutput : Type 0 where
  pub updates : List StateUpdate
  pub next_step : RuntimeStep
  pub reason : Str
  pub halt : Bool

-- The errors that the nodes return; `external` is the text of an error that a service returned.
pub data NodeError : Type 0 where
  missing_service empty_plan : NodeError
  index_out_of_range : ℕ → ℕ → NodeError
  too_many_sub_tasks : ℕ → ℕ → NodeError
  external : Str → NodeError

-- The result of `safeHandle`: an output, an error, or the text of a recovered panic.
pub data Handled : Type 0 where
  outputs : NodeOutput → Handled
  fails : NodeError → Handled
  panics : Str → Handled

-- An output that does not halt the walker.
abbrev pub route : List StateUpdate → RuntimeStep → Str → Handled
route updates next reason =
    outputs (record { updates = updates; next_step = next; reason = reason; halt = false })

-- The number of a dispatch and the time of its `time.Now()`.
pub record Moment : Type 0 where
  pub call : ℕ
  pub now : ℕ

-- The counters of one call as the nodes report them: `CallCount` is left 0.
abbrev pub reported : ℕ → ℕ → ℕ → ℕ → ℕ → Cost → Counters
reported input uncached cache_read cache_creation output cost = record {
  input_tokens = input;
  uncached_input_tokens = uncached;
  cache_read_input_tokens = cache_read;
  cache_creation_input_tokens = cache_creation;
  output_tokens = output;
  cost_usd = cost;
  call_count = 0;
}

-- `if model != "" && tokens > 0 { … }`: the usage of one call added to an update that has none.
unfoldable pub with_usage : Str → Str → ℕ → Counters → StateUpdate → StateUpdate
with_usage phase model tokens counters u =
    if not (is_empty model) && slt 0 tokens
    then record u {
      model_usages = u.model_usages ++ record { model = model; counters = counters } ∷ [];
      phase_usages =
          u.phase_usages ++ record { phase = phase; model = model; counters = counters } ∷ [];
      token_usage_delta = add_int u.token_usage_delta tokens;
    }
    else u
