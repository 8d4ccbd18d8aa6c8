-- ===== src/Fault.antt =====
-- What the page asks of the backend: the arguments of `sendFault` and of `sendClientCommand`
-- (frontend/src/hooks/useRaftWS.js), and the texts in them.
pub mod Trim
use raft_visualizer.Prelude.{
  ℕ, ◌≡◌, refl, ◌∙◌, inl, inr, Bool, true, false, ◌&&◌, ◌||◌, List, [], ◌∷◌, ◌++◌, arith, leb, ◌==◌,
  nat_eq, if◌then◌else◌,
}
use mathlib.Core.List.{reverse, reverse-reverse}

-- A text by its UTF-16 code units.
abbrev pub Text : Type 0
Text = List ℕ

-- White space and line ends, as `trim` reads them.
unfoldable pub is_space : ℕ → Bool
is_space c =
    (leb 9 c && leb c 13)
    || ((c == 32)
        || ((c == 160)
            || ((c == 0x1680)
                || ((leb 0x2000 c && leb c 0x200a)
                    || ((c == 0x2028)
                        || ((c == 0x2029)
                            || ((c == 0x202f)
                                || ((c == 0x205f) || ((c == 0x3000) || (c == 0xfeff))))))))))

unfoldable pub trim_start : Text → Text
trim_start [] = []
trim_start (c ∷ s) = let rest = trim_start s in if is_space c then rest else c ∷ s

-- `s.trim()`
unfoldable pub trim : Text → Text
unfolding trim_start
trim s = reverse (trim_start (reverse (trim_start s)))

pub data FaultAction : Type 0 where
  kill restart partition heal submit : FaultAction

pub record Fault : Type 0 where
  pub action : FaultAction
  pub targets : List ℕ
  pub partition_groups : List (List ℕ)
  pub command : Text

abbrev pub fault : FaultAction → List ℕ → List (List ℕ) → Text → Fault
fault action targets groups command = record {
  action = action;
  targets = targets;
  partition_groups = groups;
  command = command;
}
