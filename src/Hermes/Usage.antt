-- ===== src/Hermes/Usage.antt =====
-- hermes/state.go: token and cost usage by model and by phase.
use alice_core.Prelude.{ℕ, ◌&&◌, Str, str_eq, add_int, if◌then◌else◌, List, [], ◌∷◌}

-- A float64 cost is the tree of the additions that the code makes over IEEE bit patterns: the
-- program only ever adds costs, so each float64 addition evaluates the tree to the Go value.
pub data Cost : Type 0 where
  bits : ℕ → Cost
  plus : Cost → Cost → Cost

pub record TokenUsageBreakdown : Type 0 where
  pub uncached_input_tokens : ℕ
  pub cache_read_input_tokens : ℕ
  pub cache_creation_input_tokens : ℕ
  pub output_tokens : ℕ
  pub cost_usd : Cost

-- The fields that `ModelUsage` and `PhaseUsage` share.
pub record Counters : Type 0 where
  pub input_tokens : ℕ
  pub uncached_input_tokens : ℕ
  pub cache_read_input_tokens : ℕ
  pub cache_creation_input_tokens : ℕ
  pub output_tokens : ℕ
  pub cost_usd : Cost
  pub call_count : ℕ

pub record ModelUsage : Type 0 where
  pub model : Str
  pub counters : Counters

pub record PhaseUsage : Type 0 where
  pub phase : Str
  pub model : Str
  pub counters : Counters

unfoldable pub input_volume : TokenUsageBreakdown → ℕ
input_volume u =
    add_int (add_int u.uncached_input_tokens u.cache_read_input_tokens)
      u.cache_creation_input_tokens

-- The counters after one more call: the `+=` lines and `CallCount++`.
unfoldable pub add_breakdown : TokenUsageBreakdown → Counters → Counters
unfolding input_volume
add_breakdown usage c = record {
  input_tokens = add_int c.input_tokens (input_volume usage);
  uncached_input_tokens = add_int c.uncached_input_tokens usage.uncached_input_tokens;
  cache_read_input_tokens = add_int c.cache_read_input_tokens usage.cache_read_input_tokens;
  cache_creation_input_tokens =
      add_int c.cache_creation_input_tokens usage.cache_creation_input_tokens;
  output_tokens = add_int c.output_tokens usage.output_tokens;
  cost_usd = plus c.cost_usd usage.cost_usd;
  call_count = add_int c.call_count 1;
}

-- The counters of a new entry.
unfoldable pub first_call : TokenUsageBreakdown → Counters
unfolding input_volume
first_call usage = record {
  input_tokens = input_volume usage;
  uncached_input_tokens = usage.uncached_input_tokens;
  cache_read_input_tokens = usage.cache_read_input_tokens;
  cache_creation_input_tokens = usage.cache_creation_input_tokens;
  output_tokens = usage.output_tokens;
  cost_usd = usage.cost_usd;
  call_count = 1;
}

-- `TaskState.AddUsageBreakdown` on the list of model usages.
unfoldable pub add_usage_breakdown : Str → TokenUsageBreakdown → List ModelUsage → List ModelUsage
unfolding first_call add_breakdown
add_usage_breakdown model usage [] = record { model = model; counters = first_call usage } ∷ []
add_usage_breakdown model usage (m ∷ ms) =
    if str_eq m.model model
    then record m { counters = add_breakdown usage m.counters } ∷ ms
    else m ∷ add_usage_breakdown model usage ms

-- `TaskState.AddPhaseUsageBreakdown` on the list of phase usages.
unfoldable pub add_phase_usage_breakdown :
    Str → Str → TokenUsageBreakdown → List PhaseUsage → List PhaseUsage
unfolding first_call add_breakdown
add_phase_usage_breakdown phase model usage [] =
    record { phase = phase; model = model; counters = first_call usage } ∷ []
add_phase_usage_breakdown phase model usage (p ∷ ps) =
    if str_eq p.phase phase && str_eq p.model model
    then record p { counters = add_breakdown usage p.counters } ∷ ps
    else p ∷ add_phase_usage_breakdown phase model usage ps

-- The breakdown that `AddUsage` and `AddPhaseUsage` build from the plain counts.
unfoldable pub plain_breakdown : ℕ → ℕ → Cost → TokenUsageBreakdown
plain_breakdown input output cost = record {
  uncached_input_tokens = input;
  cache_read_input_tokens = 0;
  cache_creation_input_tokens = 0;
  output_tokens = output;
  cost_usd = cost;
}

unfoldable pub total_tokens : Counters → ℕ
total_tokens c = add_int c.input_tokens c.output_tokens
