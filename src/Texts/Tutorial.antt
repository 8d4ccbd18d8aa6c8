-- ===== src/Texts/Tutorial.antt =====
-- The tutorial that the control bar and the mobile drawer both show (the markup of
-- frontend/src/components/ControlPanel.jsx and MobileDrawer.jsx, without its styles).
use raft_visualizer.Prelude.{ℕ, suc, List, [], ◌∷◌, String}
use raft_visualizer.Texts.Control.{ControlCopy, CmdExample}

-- A list with its heading.
pub record Part (A : Type 0) : Type 0 where
  pub title : String
  pub items : List A

-- `items.map((item, idx) => …)` with the number `idx + 1`.
abbrev pub numbered : ℕ → List String → List (ℕ × String)
numbered n [] = []
numbered n (line ∷ lines) = (suc n, line) ∷ numbered (suc n) lines

pub record Tutorial : Type 0 where
  pub title : String
  pub intro : String
  pub commands : Part CmdExample
  pub how : Part (ℕ × String)
  pub raft : Part String

unfoldable pub tutorial : ControlCopy → Tutorial
tutorial text = record {
  title = text.tutorial_title;
  intro = text.tutorial_intro;
  commands = record { title = text.tutorial_cmds; items = text.tutorial_cmd_examples };
  how = record { title = text.tutorial_how; items = numbered 0 text.tutorial_how_items };
  raft = record { title = text.tutorial_raft; items = text.tutorial_raft_items };
}
