-- ===== src/LogPanel/Shown.antt =====
-- What the panel shows, and what its command line submits.
use raft_visualizer.Prelude.{
  ◌⊎◌, ℕ, ◌≡◌, ◌≢◌, refl, inl, inr, Bool, true, false, Option, none, some, List, [], ◌∷◌, ◌==◌,
  nat_eq, arith, find, Occurs, Bool-cases,
}
use raft_visualizer.Cluster.{Node}
use raft_visualizer.Fault.{Text, trim}
use raft_visualizer.Fault.Trim.{trim_idem}
use raft_visualizer.Groups.{is_empty}
use raft_visualizer.Store.{Store, select_node}
use raft_visualizer.LogPanel.{has_id, shown_node, submit_command}

find-has_id :
    (id : ℕ) (n : Node) (ns : List Node)
    → Occurs n ns
    → n.id ≡ id
    → (m : Node) × (find (has_id id) ns ≡ some m) × (m.id ≡ id)
find-has_id id n [] o e = elim o [ ]
find-has_id id n (x ∷ ns) (inl same) e = (x, ground (arith, same, e), ground (arith, same, e))
find-has_id id n (x ∷ ns) (inr at) e = elim (Bool-cases (x.id == id)) [
  | inl here ↦ (x, ground (arith, here), ground (arith, here))
  | inr other ↦
      let (m, found, eq) = find-has_id id n ns at e in (m, ground (arith, other, found), eq)
]

-- With no node selected the panel shows a node all the same, whenever the cluster has a node 0:
-- one whose id is 0.
pub shown_node-select_node :
    (s : Store) (n : Node)
    → Occurs n s.nodes
    → n.id ≡ 0
    → (m : Node) × (shown_node (select_node none s) ≡ some m) × (m.id ≡ 0)
unfolding shown_node select_node
shown_node-select_node s n o e = find-has_id 0 n s.nodes o e

not_empty : (xs : Text) → is_empty xs ≡ false → xs ≢ []
not_empty [] h e = cc
not_empty (x ∷ xs) h e = cc

empty : (xs : Text) → is_empty xs ≡ true → xs ≡ []
empty [] h = refl
empty (x ∷ xs) h = cc

-- What the command line makes of a typed text.
abbrev pub IsHandled : Bool → Text → Text × Option Text → Type 0
IsHandled has_command_input typed r =
    ((has_command_input ≡ true) × (trim typed ≢ []) × (r ≡ ([], some (trim typed))))
    ⊎ (((has_command_input ≡ false) ⊎ (trim typed ≡ [])) × (r ≡ (typed, none)))

-- The command line submits the trimmed text and clears itself, exactly if a command can be given
-- and the text is not blank; otherwise it keeps the text and submits nothing. A submitted text is
-- trimmed: submitting it again submits the same one.
pub submit_command-IsHandled :
    (has_command_input : Bool) (typed : Text)
    → IsHandled has_command_input typed (submit_command has_command_input typed)
      × ((submit_command has_command_input (trim typed)).1
          ≡ (submit_command has_command_input typed).1)
unfolding submit_command
submit_command-IsHandled false typed = (inr (inl refl, refl), refl)
submit_command-IsHandled true typed = (by_text (Bool-cases (is_empty (trim typed))), again)
  where
    by_text :
        (is_empty (trim typed) ≡ true) ⊎ (is_empty (trim typed) ≡ false)
        → IsHandled true typed (submit_command true typed)
    by_text (inl e) = inr (inr (empty _ e), ground (arith, e))
    by_text (inr e) = inl (refl, not_empty _ e, ground (arith, e))

    again : (submit_command true (trim typed)).1 ≡ (submit_command true typed).1
    again = ground (arith, trim_idem typed)
