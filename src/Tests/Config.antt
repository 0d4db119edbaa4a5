-- ===== src/Tests/Config.antt =====
-- A configuration read from a document: nodes, entries and documents are numbers, in tables.
use Prim.Native.String.{String}
use steam_controller_daemon.Platform.Assoc
use steam_controller_daemon.Protocol.Buttons.{button_a, button_eq, steam}
use steam_controller_daemon.Config.{Config, absent, key, mode_set, keyboard_toggle, string_eq}
use steam_controller_daemon.Kdl.{Kdl}
use steam_controller_daemon.Config.Parse.Key.{KeyText}
use steam_controller_daemon.Config.Parse.Document.{parse}
use steam_controller_daemon.Config.Parse.Document.Valid.{Checked, parse-Checked}
use steam_controller_daemon.Prelude.Int.{pos}
use steam_controller_daemon.Prelude.Outcome.{ok, Yields}
use steam_controller_daemon.Prelude.{
  ℕ, ◌≡◌, refl, Bool, true, false, Option, none, some, List, [], ◌∷◌, get_or, nat_beq,
  if◌then◌else◌,
}
use steam_controller_daemon.Tests.Sample.{sample, sample_maps, sample_held, buttons_with}

instance abbrev pub sample_text : KeyText
sample_text = record {
  trim = λ s. s;
  first_four = λ s. none;
  eq_ignore_ascii_case = λ s t. false;
  to_uppercase = λ c. "";
  constant = λ name. 28;
  from_str = λ name. none;
}

-- version 1; default-mode "desk"; mode "desk" { bind "a" { key "enter" } };
-- global { bind "steam" { keyboard-toggle } }; mode "game" { bind "a" { mode-set "desk" } }
abbrev node_names : List String
node_names =
    "version" ∷ "default-mode" ∷ "mode" ∷ "global" ∷ "bind" ∷ "key" ∷ "bind" ∷ "keyboard-toggle"
    ∷ "mode" ∷ "bind" ∷ "mode-set" ∷ []

abbrev node_children : List (List ℕ)
node_children =
    [] ∷ [] ∷ (4 ∷ []) ∷ (6 ∷ []) ∷ (5 ∷ []) ∷ [] ∷ (7 ∷ []) ∷ [] ∷ (9 ∷ []) ∷ (10 ∷ []) ∷ [] ∷ []

-- The one argument of a node, as a string.
abbrev node_strings : List (Option String)
node_strings =
    none
    ∷ some "desk"
    ∷ some "desk"
    ∷ none
    ∷ some "a"
    ∷ some "enter"
    ∷ some "steam"
    ∷ none
    ∷ some "game"
    ∷ some "a"
    ∷ some "desk"
    ∷ []

abbrev has_argument : ℕ → Bool
has_argument node = if nat_beq node 3 then false else if nat_beq node 7 then false else true

-- The document of a node is its children; number 11 is the whole.
abbrev sample_nodes : ℕ → List ℕ
sample_nodes document =
    if nat_beq document 11 then 0 ∷ 1 ∷ 2 ∷ 8 ∷ 3 ∷ [] else get_or node_children document []

instance abbrev pub sample_kdl : Kdl
sample_kdl = record {
  KdlDocument = ℕ;
  KdlNode = ℕ;
  KdlEntry = ℕ;
  parse_document = λ source. some 11;
  nodes_of = sample_nodes;
  name_of = λ node. get_or node_names node "";
  children_of = λ node. some node;
  entries_of = λ node. if has_argument node then node ∷ [] else [];
  argument_at = λ node index.
      if has_argument node then (if nat_beq index 0 then some node else none) else none;
  property_of = λ node name. none;
  entry_name = λ entry. none;
  as_string = λ entry. get_or node_strings entry none;
  as_bool = λ entry. none;
  as_integer = λ entry. if nat_beq entry 0 then some (pos 1) else none;
  as_float = λ entry. none;
}

abbrev pub desk_config : Config
desk_config = record {
  default_mode = 0;
  mode_switch_haptic = none;
  click_pressure = 25;
  osk_bindings = [];
  global_bindings =
      record { inputs = buttons_with (steam ∷ []); trigger = steam; bound = keyboard_toggle } ∷ [];
  mode_names = ("desk", 0) ∷ ("game", 1) ∷ [];
  modes =
      record {
        gamepad_kind = absent;
        gamepad_touchpad = none;
        bindings =
            record { inputs = buttons_with (button_a ∷ []); trigger = button_a; bound = key 28 }
            ∷ [];
        axes = [];
        layers = [];
      }
      ∷ record {
        gamepad_kind = absent;
        gamepad_touchpad = none;
        bindings =
            record { inputs = buttons_with (button_a ∷ []); trigger = button_a; bound = mode_set 0 }
            ∷ [];
        axes = [];
        layers = [];
      }
      ∷ [];
}

pub parse_run : parse "desk.kdl" ≡ ok desk_config
unfolding parse Assoc.insert Assoc.get string_eq
parse_run = refl

parse-Checked_example : Yields Checked (parse "desk.kdl")
parse-Checked_example = parse-Checked "desk.kdl"
