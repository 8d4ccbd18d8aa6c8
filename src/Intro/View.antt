-- ===== src/Intro/View.antt =====
-- What the landing page shows (the markup of frontend/src/components/IntroLanding.jsx, without its
-- styles and the letters' animation).
use raft_visualizer.Prelude.{
  Bool, true, false, not, Option, none, some, List, [], map, String, ◌==◌, string_eq, if◌then◌else◌,
  includes,
}
use raft_visualizer.Texts.{by_lang}
use raft_visualizer.Store.{Lang}
use raft_visualizer.Intro.{Landing, SectionState, state_of}
use raft_visualizer.Intro.Chapters.{Chapter, Inline, chapters}

unfoldable pub header_title : Bool → Lang → String
header_title true lang = "Raft Visualizer"
header_title false lang = by_lang lang "Raft 可视化实验场" "Raft Consensus Visualizer"

pub record NavItem : Type 0 where
  pub id : String
  pub is_active : Bool
  pub label : String
  pub summary : String

unfoldable pub nav_item : Lang → String → Chapter → NavItem
nav_item lang active_id ch = record {
  id = ch.id;
  is_active = ch.id == active_id;
  label = by_lang lang ch.nav_zh ch.nav_en;
  summary = by_lang lang ch.summary_zh ch.summary_en;
}

-- `state` is the class of a section on a mobile screen.
pub record Section : Type 0 where
  pub id : String
  pub is_shown : Bool
  pub state : Option SectionState
  pub title : String
  pub subtitle : String
  pub body : List Inline

unfoldable pub section : Lang → Landing → Chapter → Section
section lang l ch = record {
  id = ch.id;
  is_shown = if l.is_mobile then true else includes l.animated ch.id;
  state = if l.is_mobile then some (state_of l.sections ch.id) else none;
  title = by_lang lang ch.title_zh ch.title_en;
  subtitle = by_lang lang ch.subtitle_zh ch.subtitle_en;
  body = by_lang lang ch.body_zh ch.body_en;
}

pub record View : Type 0 where
  pub title : String
  pub lang_button : String
  pub nav : List NavItem
  pub sections : List Section
  pub hint : String
  pub start_button : String

-- The sidebar is on wide screens only.
unfoldable pub view : Lang → String → Landing → View
view lang active_id l = record {
  title = header_title l.is_mobile lang;
  lang_button = by_lang lang "EN" "ZH";
  nav = if not l.is_mobile then map (nav_item lang active_id) chapters else [];
  sections = map (section lang l) chapters;
  hint =
      by_lang lang "以上所有行为均可在演示中实时触发"
        "All behaviors above can be triggered in real time in the demo";
  start_button = by_lang lang "开始演示 START DEMO" "START DEMO";
}
