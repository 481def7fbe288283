-- ===== src/Hermes/Reducer/Merge.antt =====
-- hermes/reducer.go: how the reducer merges accumulated text, usages and sub-task results.
use alice_core.Prelude.{
  ℕ, Bool, false, not, ◌||◌, Str, codes, str_eq, str_lt, slt, sle, decimal, add_int, last_or, ◌==◌,
  is_empty, if◌then◌else◌, List, [], ◌∷◌, ◌++◌,
}
use alice_core.Hermes.Usage.{Counters, ModelUsage, PhaseUsage, plus}
use alice_core.Hermes.Snapshot.{SubTaskResult}

abbrev pub newline : ℕ
newline = 10

-- `appendAccumulatedDelta`: a newline between the texts, unless one is there.
unfoldable pub append_accumulated_delta : Str → Str → Str
append_accumulated_delta [] delta = delta
append_accumulated_delta (c ∷ cs) [] = c ∷ cs
append_accumulated_delta (c ∷ cs) (d ∷ ds) =
    if last_or c cs == newline then (c ∷ cs) ++ d ∷ ds else (c ∷ cs) ++ newline ∷ d ∷ ds

-- A map from keys to the last index that holds them, read by the list itself: `merge_one` changes
-- the last entry that has the key of `delta`, or appends `entry delta`.
module _ {U : Type 0} (same : U → U → Bool) where
  unfoldable pub has_key : U → List U → Bool
  has_key delta [] = false
  has_key delta (u ∷ us) = same u delta || has_key delta us

  module _ (combine : U → U → U) (entry : U → U) where
    unfoldable pub merge_one : U → List U → List U
    unfolding has_key
    merge_one delta [] = entry delta ∷ []
    merge_one delta (u ∷ us) =
        let rest = merge_one delta us in
        if has_key delta us || not (same u delta) then u ∷ rest else combine u delta ∷ us

    unfoldable pub merge_all : List U → List U → List U
    unfolding merge_one
    merge_all current [] = current
    merge_all current (delta ∷ incoming) = merge_all (merge_one delta current) incoming

-- `callCount := delta.CallCount; if callCount <= 0 { callCount = 1 }`
abbrev pub at_least_one : ℕ → ℕ
at_least_one n = if sle n 0 then 1 else n

unfoldable pub add_counters : Counters → Counters → Counters
add_counters c delta = record {
  input_tokens = add_int c.input_tokens delta.input_tokens;
  uncached_input_tokens = add_int c.uncached_input_tokens delta.uncached_input_tokens;
  cache_read_input_tokens = add_int c.cache_read_input_tokens delta.cache_read_input_tokens;
  cache_creation_input_tokens =
      add_int c.cache_creation_input_tokens delta.cache_creation_input_tokens;
  output_tokens = add_int c.output_tokens delta.output_tokens;
  cost_usd = plus c.cost_usd delta.cost_usd;
  call_count = add_int c.call_count (at_least_one delta.call_count);
}

unfoldable pub counted : Counters → Counters
counted delta = record delta { call_count = at_least_one delta.call_count }

abbrev pub same_model : ModelUsage → ModelUsage → Bool
same_model a b = str_eq a.model b.model

unfoldable pub merge_model_usages : List ModelUsage → List ModelUsage → List ModelUsage
unfolding merge_all add_counters counted
merge_model_usages =
    merge_all same_model (λ u d. record u { counters = add_counters u.counters d.counters })
      (λ d. record d { counters = counted d.counters })

-- `p.Phase + "\x00" + p.Model`
abbrev pub phase_key : PhaseUsage → Str
phase_key p = p.phase ++ 0 ∷ p.model

abbrev pub same_phase : PhaseUsage → PhaseUsage → Bool
same_phase a b = str_eq (phase_key a) (phase_key b)

unfoldable pub merge_phase_usages : List PhaseUsage → List PhaseUsage → List PhaseUsage
unfolding merge_all add_counters counted
merge_phase_usages =
    merge_all same_phase (λ u d. record u { counters = add_counters u.counters d.counters })
      (λ d. record d { counters = counted d.counters })

unfoldable pub sub_task_result_key : SubTaskResult → Str
sub_task_result_key r =
    if is_empty r.sub_task_id then codes "idx:" ++ decimal r.index else codes "id:" ++ r.sub_task_id

unfoldable pub overwrite_sub_task_result : SubTaskResult → SubTaskResult → SubTaskResult
overwrite_sub_task_result existing update = record existing {
  status = update.status;
  result = update.result;
  tokens_used = update.tokens_used;
  attempts = update.attempts;
  ended_at = update.ended_at;
  index = if update.index == 0 then existing.index else update.index;
  sub_task_id = if is_empty update.sub_task_id then existing.sub_task_id else update.sub_task_id;
}

abbrev pub same_result : SubTaskResult → SubTaskResult → Bool
same_result a b = str_eq (sub_task_result_key a) (sub_task_result_key b)

-- `collapsed` and `order`: one entry for each key, the last one, where the key first stood.
unfoldable pub collapse_results : List SubTaskResult → List SubTaskResult → List SubTaskResult
unfolding merge_all
collapse_results = merge_all same_result (λ old new. new) (λ new. new)

-- The loop over `order`: overwrite what has a position, and set the others aside. The positions
-- are those of the entries before the loop, `current`; an overwrite may change an entry's key.
unfoldable pub overwrite_at :
    List SubTaskResult → List SubTaskResult → SubTaskResult → List SubTaskResult
unfolding has_key overwrite_sub_task_result
overwrite_at [] out update = out
overwrite_at (c ∷ cs) [] update = []
overwrite_at (c ∷ cs) (o ∷ out) update =
    let rest = overwrite_at cs out update in
    if has_key same_result update cs || not (same_result c update)
    then o ∷ rest
    else overwrite_sub_task_result o update ∷ out

unfoldable pub overwrite_known :
    List SubTaskResult → List SubTaskResult → List SubTaskResult → List SubTaskResult
unfolding overwrite_at
overwrite_known current out [] = out
overwrite_known current out (r ∷ rs) = overwrite_known current (overwrite_at current out r) rs

unfoldable pub additions : List SubTaskResult → List SubTaskResult → List SubTaskResult
unfolding has_key
additions current [] = []
additions current (r ∷ rs) =
    let rest = additions current rs in if has_key same_result r current then rest else r ∷ rest

-- The order of `sort.SliceStable`, and a stable sort by it.
unfoldable pub result_less : SubTaskResult → SubTaskResult → Bool
unfolding sub_task_result_key
result_less a b =
    if a.index == b.index
    then str_lt (sub_task_result_key a) (sub_task_result_key b)
    else slt a.index b.index

unfoldable pub insert_result : SubTaskResult → List SubTaskResult → List SubTaskResult
unfolding result_less
insert_result r [] = r ∷ []
insert_result r (x ∷ xs) = if result_less x r then x ∷ insert_result r xs else r ∷ x ∷ xs

unfoldable pub sort_results : List SubTaskResult → List SubTaskResult
unfolding insert_result
sort_results [] = []
sort_results (r ∷ rs) = insert_result r (sort_results rs)

unfoldable pub merge_sub_task_results : List SubTaskResult → List SubTaskResult → List SubTaskResult
unfolding collapse_results overwrite_known additions sort_results
merge_sub_task_results current incoming =
    let collapsed = collapse_results [] incoming in
    overwrite_known current current collapsed ++ sort_results (additions current collapsed)
