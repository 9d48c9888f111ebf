-- ===== src/Engine/Group.antt =====
-- `group_by_cell_budget`: the runs of inputs that share one llama context.
pub mod Laws
use julie_semantic_sidecar.Prelude.{
  ℕ, ◌+◌, ◌*◌, max, Bool, not, ◌&&◌, ◌||◌, leb, ltb, if◌then◌else◌, List, [], ◌∷◌, ◌++◌, is_empty,
  length,
}

-- The loop's variables. An input is the list of its tokens.
pub record Grouping : Type 0 where
  pub groups : List (List (List ℕ))
  pub current : List (List ℕ)
  pub current_max : ℕ

-- The test before an input joins the current group, and the new group that it starts.
unfoldable pub close_if_full : ℕ → ℕ → List ℕ → Grouping → Grouping
close_if_full budget max_sequences tokens g =
    let next_max = max g.current_max (length tokens) in
    if not (is_empty g.current)
      && (leb max_sequences (length g.current) || ltb budget (next_max * (length g.current + 1)))
    then record { groups = g.groups ++ g.current ∷ []; current = []; current_max = 0 }
    else g

unfoldable pub add_input : ℕ → ℕ → List ℕ → Grouping → Grouping
unfolding close_if_full
add_input budget max_sequences tokens g =
    let g' = close_if_full budget max_sequences tokens g in
    record g' {
      current = g'.current ++ tokens ∷ [];
      current_max = max g'.current_max (length tokens);
    }

unfoldable pub add_all : ℕ → ℕ → List (List ℕ) → Grouping → Grouping
add_all budget max_sequences [] g = g
add_all budget max_sequences (tokens ∷ inputs) g =
    add_all budget max_sequences inputs (add_input budget max_sequences tokens g)

-- The last group, if any input is left in it.
unfoldable pub finish : Grouping → List (List (List ℕ))
finish g = if not (is_empty g.current) then g.groups ++ g.current ∷ [] else g.groups

unfoldable pub group_by_cell_budget : List (List ℕ) → ℕ → ℕ → List (List (List ℕ))
unfolding add_all add_input finish
group_by_cell_budget inputs budget max_sequences = finish (
    add_all budget (max max_sequences 1) inputs
      (record { groups = []; current = []; current_max = 0 }))
