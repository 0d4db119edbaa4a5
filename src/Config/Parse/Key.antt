-- ===== src/Config/Parse/Key.antt =====
-- The names of keys: core/src/config.rs, `parse_key` and `is_keyboard_key`. `KeyText` is what they
-- take from the standard library's strings and from evdev's table of key names.
use Prim.Native.Char.{Char}
use Prim.Native.Char as Chars
use Prim.Native.String.{String, ◌++◌ as ◌<>◌}
use steam_controller_daemon.Platform.{Platform}
use steam_controller_daemon.Config.{string_eq}
use steam_controller_daemon.Kdl.{Kdl, Place, Parsed, fails, ok_or, find_name}
use steam_controller_daemon.Prelude.Outcome.{ok, ◌>>=◌}
use steam_controller_daemon.Prelude.{
  Bool, true, false, not, ◌&&◌, ◌||◌, Option, none, some, List, [], ◌∷◌, leb, nat_beq,
  if◌then◌else◌,
}

module _ ⦃p : Platform⦄ where
  open p use {KeyCode, code, new_key}

  pub record KeyText : Type 0 where
    -- `str::trim`, `str::get(..4)`, `eq_ignore_ascii_case` and `char::to_uppercase`.
    pub trim : String → String
    pub first_four : String → Option String
    pub eq_ignore_ascii_case : String → String → Bool
    pub to_uppercase : Char → String
    -- evdev's constants, by name, and its `FromStr`, which looks a name up among them.
    pub constant : String → KeyCode
    pub from_str : String → Option KeyCode

  unfoldable pub is_keyboard_key : KeyCode → Bool
  is_keyboard_key key =
      not (nat_beq (code key) 0)
      && leb (code key) 0x2ff
      && not (leb 0x100 (code key) && leb (code key) 0x15f)
      && not (leb 0x220 (code key) && leb (code key) 0x22f)
      && not (leb 0x2c0 (code key) && leb (code key) 0x2ff)

module _ ⦃p : Platform⦄ ⦃text : KeyText⦄ where
  open p use {KeyCode}
  open text use {trim, first_four, eq_ignore_ascii_case, to_uppercase, constant, from_str}

  -- The names that `parse_key` has of its own.
  unfoldable pub key_names : List (String × KeyCode)
  key_names =
      ("enter", constant "KEY_ENTER")
      ∷ ("return", constant "KEY_ENTER")
      ∷ ("escape", constant "KEY_ESC")
      ∷ ("esc", constant "KEY_ESC")
      ∷ ("space", constant "KEY_SPACE")
      ∷ ("tab", constant "KEY_TAB")
      ∷ ("super", constant "KEY_LEFTMETA")
      ∷ ("command", constant "KEY_LEFTMETA")
      ∷ ("cmd", constant "KEY_LEFTMETA")
      ∷ ("meta", constant "KEY_LEFTMETA")
      ∷ ("control", constant "KEY_LEFTCTRL")
      ∷ ("ctrl", constant "KEY_LEFTCTRL")
      ∷ ("shift", constant "KEY_LEFTSHIFT")
      ∷ ("alt", constant "KEY_LEFTALT")
      ∷ ("up", constant "KEY_UP")
      ∷ ("down", constant "KEY_DOWN")
      ∷ ("left", constant "KEY_LEFT")
      ∷ ("right", constant "KEY_RIGHT")
      ∷ []

  unfoldable pub is_prefixed : String → Bool
  is_prefixed name = elim (first_four name) [
    | none ↦ false
    | some prefix ↦ eq_ignore_ascii_case prefix "key_" || eq_ignore_ascii_case prefix "btn_"
  ]

  -- The loop over the characters: `-` and `_` are dropped, but not after a prefix.
  unfoldable pub upper : Bool → String → String
  upper prefixed String.[] = ""
  upper prefixed (String.◌∷◌ c rest) =
      let others = upper prefixed rest in
      if prefixed || not (nat_beq (Chars.code c) b'-' || nat_beq (Chars.code c) b'_')
      then to_uppercase c <> others
      else others

  unfoldable pub evdev_name : String → String
  unfolding is_prefixed upper
  evdev_name name = if is_prefixed name then upper true name else "KEY_" <> upper false name

  unfoldable pub find_key : String → Option KeyCode
  unfolding find_name key_names evdev_name
  find_key name = elim (find_name name key_names) [
    | some key ↦ some key
    | none ↦ from_str (evdev_name name)
  ]

  -- `parse_key`; its error is made an issue of `place` by every caller.
  module _ ⦃k : Kdl⦄ where
    unfoldable pub parse_key : Place → String → Parsed KeyCode
    unfolding find_key is_keyboard_key
    parse_key place source = do
      key ← ok_or (find_key (trim source)) place "unknown key"
      if is_keyboard_key key then ok key else fails place "is not a keyboard key"
