-- ===== src/Mapper/Osk.antt =====
-- Keyboard keys on buttons while the on-screen keyboard is visible: daemon/src/mapper.rs.
use steam_controller_daemon.Platform.{Platform, IndexMap}
use steam_controller_daemon.Protocol.Buttons.{Button, Buttons, button_eq, contains, insert, remove}
use steam_controller_daemon.Protocol.State.{format_eq}
use steam_controller_daemon.Config.{ConfigMaps}
use steam_controller_daemon.Mapper.Types.{axis_eq, Output, HeldOutput, held_eq, key_held, Mapper}
use steam_controller_daemon.Mapper.Held.{set_held}
use steam_controller_daemon.Prelude.{
  xor, ℕ, Bool, not, ◌&&◌, ◌||◌, List, [], ◌∷◌, any, nat_beq, if◌then◌else◌,
}

module _ ⦃p : Platform⦄ ⦃maps : ConfigMaps⦄ ⦃held_map : IndexMap HeldOutput ℕ⦄ where
  open p use {KeyCode, code, key_leftshift, key_rightshift}
  open maps use {osk_map}

  unfoldable pub set_osk_active : Buttons → Button → Bool → Buttons
  set_osk_active s input active = if active then insert s input else remove s input

  unfoldable pub osk_step :
      Buttons → Buttons → Button × KeyCode → Mapper → List Output → Mapper × List Output
  unfolding set_osk_active
  osk_step buttons reserved (input, k) m outputs =
      let was_active = contains m.osk_active input in
      let active = contains buttons input && not (contains reserved input) in
      if xor active was_active
      then (let (held, outputs') = set_held m.held (key_held k) active outputs in
          (
            record m { osk_active = set_osk_active m.osk_active input active; held = held },
            outputs',
          ))
      else (m, outputs)

  -- `for (&input, &key) in &self.config.osk_bindings`.
  unfoldable pub osk_loop :
      Buttons → Buttons → List (Button × KeyCode) → Mapper → List Output → Mapper × List Output
  osk_loop buttons reserved [] m outputs = (m, outputs)
  osk_loop buttons reserved (b ∷ bs) m outputs =
      let (m', outputs') = osk_step buttons reserved b m outputs in
      osk_loop buttons reserved bs m' outputs'

  -- `Mapper::keyboard_shifted`.
  unfoldable pub keyboard_shifted : Mapper → Bool
  keyboard_shifted m =
      any
        (λ (b : Button × KeyCode).
          contains m.osk_active b.0
          && (nat_beq (code b.1) (code key_leftshift) || nat_beq (code b.1) (code key_rightshift)))
        (osk_map.entries m.config.osk_bindings)

  -- `Mapper::active_osk_bindings`.
  unfoldable pub active_of : Buttons → List (Button × KeyCode) → List Button
  active_of s [] = []
  active_of s ((input, k) ∷ bs) =
      let rest = active_of s bs in if contains s input then input ∷ rest else rest

  unfoldable pub active_osk_bindings : Mapper → List Button
  unfolding active_of
  active_osk_bindings m = active_of m.osk_active (osk_map.entries m.config.osk_bindings)
