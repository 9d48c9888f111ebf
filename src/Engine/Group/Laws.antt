-- ===== src/Engine/Group/Laws.antt =====
-- What the groups are.
use mathlib.Core.List.{append_assoc, append-nil}
use julie_semantic_sidecar.Prelude.{
  ℕ, ◌+◌, ◌*◌, ◌≤◌, max, ◌≡◌, refl, sym, ap, ◌∙◌, ◌⊎◌, inl, inr, Bool, true, false, Bool-cases, not,
  ◌&&◌, ◌||◌, leb, ltb, List, [], ◌∷◌, ◌++◌, is_empty, length, length-append, All, All-append,
  flatten, flatten-append, flatten_single, arith,
}
use julie_semantic_sidecar.Engine.Group.{
  Grouping, close_if_full, add_input, add_all, finish, group_by_cell_budget,
}

-- The inputs that a state of the loop holds, in order.
held : Grouping → List (List ℕ)
held g = flatten g.groups ++ g.current

held-close_if_full : (b m : ℕ) (t : List ℕ) (g : Grouping) → held (close_if_full b m t g) ≡ held g
unfolding held close_if_full
held-close_if_full b m t g =
    elim (Bool-cases (
      not (is_empty g.current)
      && (leb m (length g.current)
          || ltb b (max g.current_max (length t) * (length g.current + 1))))) [
            | inl e ↦ rw (e, close_if_full) (simp (flatten-append, flatten_single, append-nil))
            | inr e ↦ rw (e, close_if_full)
          ]

held-add_input : (b m : ℕ) (t : List ℕ) (g : Grouping) → held (add_input b m t g) ≡ held g ++ t ∷ []
unfolding add_input held
held-add_input b m t g =
    let g' = close_if_full b m t g in
    sym (append_assoc (flatten g'.groups) g'.current (t ∷ []))
    ∙ ap (λ l. l ++ t ∷ []) (unfold held in held-close_if_full b m t g)

held-add_all :
    (b m : ℕ) (inputs : List (List ℕ)) (g : Grouping)
    → held (add_all b m inputs g) ≡ held g ++ inputs
unfolding add_all
held-add_all b m [] g = sym (append-nil (held g))
held-add_all b m (t ∷ inputs) g =
    held-add_all b m inputs (add_input b m t g)
    ∙ ap (λ l. l ++ inputs) (held-add_input b m t g)
    ∙ append_assoc (held g) (t ∷ []) inputs

flatten-finish : (g : Grouping) → flatten (finish g) ≡ held g
unfolding finish held
flatten-finish g = elim (Bool-cases (not (is_empty g.current))) [
  | inl e ↦ rw (e, finish) (simp (flatten-append, flatten_single))
  | inr e ↦ rw (e, finish) (rw (is_empty-eq g.current e) (sym (append-nil (flatten g.groups))))
]
  where
    is_empty-eq : (l : List (List ℕ)) → not (is_empty l) ≡ false → l ≡ []
    is_empty-eq [] h = refl
    is_empty-eq (x ∷ l) h = cc

-- The groups, one after the other, are the inputs: none is dropped, split, repeated or moved.
pub flatten-group_by_cell_budget :
    (inputs : List (List ℕ)) (budget max_sequences : ℕ)
    → flatten (group_by_cell_budget inputs budget max_sequences) ≡ inputs
unfolding group_by_cell_budget held
flatten-group_by_cell_budget inputs budget max_sequences =
    let start : Grouping = record { groups = []; current = []; current_max = 0 } in
    flatten-finish (add_all budget (max max_sequences 1) inputs start)
    ∙ held-add_all budget (max max_sequences 1) inputs start

-- The longest member of a group.
abbrev pub longest : List (List ℕ) → ℕ
longest [] = 0
longest (t ∷ ts) = max (length t) (longest ts)

longest-append : (xs ys : List (List ℕ)) → longest (xs ++ ys) ≡ max (longest xs) (longest ys)
longest-append [] ys = omega arith
longest-append (x ∷ xs) ys = omega (arith, longest-append xs ys)

-- A group within the limits: one input alone, or few enough with their cells within the budget.
pub record IsWithin (budget max_sequences : ℕ) (group : List (List ℕ)) : Type 0 where
  pub some_input : 1 ≤ length group
  pub sequences : length group ≤ max_sequences
  pub cells : (length group ≡ 1) ⊎ (longest group * length group ≤ budget)

record Inv (b m : ℕ) (g : Grouping) : Type 0 where
  closed : All (IsWithin b m) g.groups
  same_max : g.current_max ≡ longest g.current
  open_group : (length g.current ≡ 0) ⊎ IsWithin b m g.current

module _ (b m : ℕ) (pos : 1 ≤ m) where
  -- What `close_if_full` leaves has room for the input.
  record HasRoom (t : List ℕ) (g : Grouping) : Type 0 where
    inv : Inv b m g
    room : length g.current + 1 ≤ m
    cells : (length g.current ≡ 0) ⊎ (max g.current_max (length t) * (length g.current + 1) ≤ b)

  closing :
      (g : Grouping) (c : Bool)
      → Inv b m g
      → (not (is_empty g.current) && c) ≡ true
      → IsWithin b m g.current
  closing g c v full = elim v.open_group [
    | inl e ↦ absurd (is_empty-length g.current e (ground arith))
    | inr w ↦ w
  ]
    where
      is_empty-length : (l : List (List ℕ)) → length l ≡ 0 → is_empty l ≡ false → ⊥
      is_empty-length [] e h = cc
      is_empty-length (x ∷ l) e h = omega arith

  room :
      (l : List (List ℕ)) (t : List ℕ) (k : ℕ)
      → (not (is_empty l) && (leb m (length l) || ltb b k)) ≡ false
      → length l + 1 ≤ m
  room [] t k h = omega arith
  room (x ∷ l) t k h = ground arith

  cells_left :
      (l : List (List ℕ)) (k : ℕ) (t : List ℕ)
      → (not (is_empty l) && (leb m (length l) || ltb b (max k (length t) * (length l + 1))))
        ≡ false
      → (length l ≡ 0) ⊎ (max k (length t) * (length l + 1) ≤ b)
  cells_left [] k t h = inl refl
  cells_left (x ∷ l) k t h = inr (ground arith)

  close_if_full-HasRoom :
      (t : List ℕ) (g : Grouping) → Inv b m g → HasRoom t (close_if_full b m t g)
  unfolding close_if_full
  close_if_full-HasRoom t g v =
      elim (Bool-cases (
        not (is_empty g.current)
        && (leb m (length g.current)
            || ltb b (max g.current_max (length t) * (length g.current + 1))))) [
              | inl full ↦
                  rw (full, close_if_full)
                    (record {
                      inv = record {
                        closed =
                            All-append (IsWithin b m) g.groups (g.current ∷ []) v.closed
                              (closing g _ v full, tt);
                        same_max = refl;
                        open_group = inl refl;
                      };
                      room = omega arith;
                      cells = inl refl;
                    })
              | inr other ↦
                  rw (other, close_if_full)
                    (record {
                      inv = v;
                      room = room g.current t _ other;
                      cells = cells_left g.current g.current_max t other;
                    })
            ]

  add_input-Inv : (t : List ℕ) (g : Grouping) → Inv b m g → Inv b m (add_input b m t g)
  unfolding add_input
  add_input-Inv t g v =
      let g' = close_if_full b m t g in
      let r = close_if_full-HasRoom t g v in
      let grown = length-append g'.current (t ∷ []) in
      let wider = longest-append g'.current (t ∷ []) in
      let i = r.inv in
      let same : max g'.current_max (length t) ≡ longest (g'.current ++ t ∷ []) =
        omega (arith, wider, i.same_max) in
      record {
        closed = i.closed;
        same_max = same;
        open_group = inr (record {
          some_input = omega (arith, grown);
          sequences = omega (arith, grown, r.room);
          cells = elim r.cells [
            | inl e ↦ inl (omega (arith, grown, e))
            | inr h ↦ inr (rw (grown, ← same) h)
          ];
        });
      }

  add_all-Inv : (inputs : List (List ℕ)) (g : Grouping) → Inv b m g → Inv b m (add_all b m inputs g)
  unfolding add_all
  add_all-Inv [] g v = v
  add_all-Inv (t ∷ inputs) g v = add_all-Inv inputs (add_input b m t g) (add_input-Inv t g v)

  finish-IsWithin : (g : Grouping) → Inv b m g → All (IsWithin b m) (finish g)
  unfolding finish
  finish-IsWithin g v = elim (Bool-cases (not (is_empty g.current))) [
    | inl e ↦
        rw (e, finish)
          (All-append (IsWithin b m) g.groups (g.current ∷ []) v.closed
            (closing g true v (rw e), tt))
    | inr e ↦ rw (e, finish) v.closed
  ]

-- Every group has an input, has no more of them than `max_sequences` (one at the least), and has its
-- context cells, longest member times member count, within the budget, unless it is one input alone.
pub group_by_cell_budget-IsWithin :
    (inputs : List (List ℕ)) (budget max_sequences : ℕ)
    → All (IsWithin budget (max max_sequences 1)) (group_by_cell_budget inputs budget max_sequences)
unfolding group_by_cell_budget
group_by_cell_budget-IsWithin inputs budget max_sequences =
    let m = max max_sequences 1 in
    let pos : 1 ≤ m = omega arith in
    finish-IsWithin budget m pos _ (
      add_all-Inv budget m pos inputs _
        (record { closed = tt; same_max = refl; open_group = inl refl }))
