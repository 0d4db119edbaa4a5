-- ===== src/Config/Parse/Haptics.antt =====
-- The haptic of a mode switch: core/src/config.rs, `parse_haptic`.
pub mod Safe
use Prim.Native.String.{String}
use steam_controller_daemon.Platform.{Platform}
use steam_controller_daemon.Protocol.Haptic.{
  Haptic, rumble, trackpad_click, pulse, tone, log_sweep, script,
}
use steam_controller_daemon.Config.{string_eq}
use steam_controller_daemon.Kdl.{
  Kdl, at_node, Parsed, fails, one_of, read_str, read_unsigned, read_i8, argument, property,
  properties, children,
}
use steam_controller_daemon.Config.Parse.Names.{parse_trackpad}
use steam_controller_daemon.Prelude.Outcome.{ok, ◌>>=◌, ◌>>◌}
use steam_controller_daemon.Prelude.{List, [], ◌∷◌}

pub data HapticName : Type 0 where
  rumble_name click_name pulse_name tone_name sweep_name script_name : HapticName

unfoldable pub haptic_names : List (String × HapticName)
haptic_names =
    ("rumble", rumble_name)
    ∷ ("trackpad-click", click_name)
    ∷ ("pulse", pulse_name)
    ∷ ("tone", tone_name)
    ∷ ("sweep", sweep_name)
    ∷ ("script", script_name)
    ∷ []

module _ ⦃p : Platform⦄ ⦃k : Kdl⦄ where
  open k use {KdlNode, name_of}

  unfoldable pub read_haptic : KdlNode → HapticName → Parsed Haptic
  unfolding properties property argument read_unsigned read_i8 read_str parse_trackpad
  read_haptic node rumble_name = do
    properties node ("low-frequency" ∷ "high-frequency" ∷ [])
    low ← property (read_unsigned 16) node "low-frequency"
    high ← property (read_unsigned 16) node "high-frequency"
    ok (rumble low high)
  read_haptic node click_name = do
    properties node ("gain" ∷ [])
    gain ← property read_i8 node "gain"
    name ← argument read_str node 0
    pad ← parse_trackpad name node
    ok (trackpad_click pad gain)
  read_haptic node pulse_name = do
    properties node ("on-us" ∷ "off-us" ∷ "repeat" ∷ [])
    on_us ← property (read_unsigned 16) node "on-us"
    off_us ← property (read_unsigned 16) node "off-us"
    repeat ← property (read_unsigned 16) node "repeat"
    ok (pulse on_us off_us repeat)
  read_haptic node tone_name = do
    properties node ("gain" ∷ "frequency" ∷ "duration-ms" ∷ [])
    gain ← property read_i8 node "gain"
    frequency ← property (read_unsigned 16) node "frequency"
    duration_ms ← property (read_unsigned 16) node "duration-ms"
    ok (tone gain frequency duration_ms)
  read_haptic node sweep_name = do
    properties node ("gain" ∷ "duration-ms" ∷ "start-frequency" ∷ "end-frequency" ∷ [])
    gain ← property read_i8 node "gain"
    duration_ms ← property (read_unsigned 16) node "duration-ms"
    start_frequency ← property (read_unsigned 16) node "start-frequency"
    end_frequency ← property (read_unsigned 16) node "end-frequency"
    ok (log_sweep gain duration_ms start_frequency end_frequency)
  read_haptic node script_name = do
    properties node ("gain" ∷ [])
    gain ← property read_i8 node "gain"
    script_id ← argument (read_unsigned 8) node 0
    ok (script script_id gain)

  unfoldable pub haptic_child : KdlNode → List KdlNode → Parsed Haptic
  unfolding one_of haptic_names read_haptic
  haptic_child node (child ∷ []) = do
    kind ← one_of (at_node child) (name_of child) haptic_names
    read_haptic child kind
  haptic_child node _ = fails (at_node node) "mode-switch-haptic must contain exactly one haptic"

  unfoldable pub parse_haptic : KdlNode → Parsed Haptic
  unfolding properties children haptic_child
  parse_haptic node = do properties node []; haptic_child node (children node)
