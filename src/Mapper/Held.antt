-- ===== src/Mapper/Held.antt =====
-- Outputs that are held down: daemon/src/mapper.rs, `set_held`, `set_gamepad_axis` and
-- `release_outputs`. `outputs` is the vector that the program pushes to.
pub mod Observer
pub mod Sync
pub mod Count
pub mod Appends
use mathlib.Core.List.{reverse}
use steam_controller_daemon.Platform.{Platform, IndexMap}
use steam_controller_daemon.Protocol.Buttons.{no_buttons}
use steam_controller_daemon.Config.{ConfigMaps}
use steam_controller_daemon.Mapper.Types.{
  GamepadAxis, gamepad_axes_all, axis_eq, Output, gamepad_axis, HeldOutput, held_eq, output, Mapper,
}
use steam_controller_daemon.Prelude.Int.{pos}
use steam_controller_daemon.Prelude.{
  ℕ, ◌+◌, ◌-◌, ◌%◌, ◌^◌, Bool, true, false, none, some, List, [], ◌∷◌, ◌++◌, map, fill, ◌==◌,
  nat_beq, if◌then◌else◌,
}

-- `usize` in a release build: 64 bits that wrap.
abbrev pub usize_mod : ℕ
usize_mod = 2 ^ 64

module _ ⦃p : Platform⦄ ⦃held_map : IndexMap HeldOutput ℕ⦄ where
  open held_map use {Map, get, insert, shift_remove}

  -- The source's two steps on an absent key, an entry of 0 and `+= 1`, are one insertion of 1.
  unfoldable pub press : Map → HeldOutput → List Output → Map × List Output
  press held h outputs = elim (get held h) [
    | none ↦ (insert held h 1, outputs ++ output h true ∷ [])
    | some count ↦ (insert held h ((count + 1) % usize_mod), outputs)
  ]

  unfoldable pub unpress : Map → HeldOutput → List Output → Map × List Output
  unpress held h outputs = elim (get held h) [
    | none ↦ (held, outputs)
    | some count ↦
        let left = (count + usize_mod - 1) % usize_mod in
        if nat_beq left 0
        then (shift_remove held h, outputs ++ output h false ∷ [])
        else (insert held h left, outputs)
  ]

  unfoldable pub set_held : Map → HeldOutput → Bool → List Output → Map × List Output
  unfolding press unpress
  set_held held h true outputs = press held h outputs
  set_held held h false outputs = unpress held h outputs

  -- `self.held.drain(..).rev()`: the releases that it pushes.
  unfoldable pub releases : Map → List Output
  releases held = map (λ (e : HeldOutput × ℕ). output e.0 false) (reverse (held_map.entries held))

module _ ⦃p : Platform⦄ ⦃maps : ConfigMaps⦄ ⦃held_map : IndexMap HeldOutput ℕ⦄ where
  open p use {F32, from_int, float_eq}

  unfoldable pub set_gamepad_axis : Mapper → GamepadAxis → F32 → List Output → Mapper × List Output
  unfolding axis_eq
  set_gamepad_axis m axis value outputs =
      if float_eq (m.gamepad_axes axis) value then (m, outputs) else (
        record m { gamepad_axes = λ a. if a == axis then value else m.gamepad_axes a },
        outputs ++ gamepad_axis axis value ∷ [],
      )

  -- The loop of `release_outputs` over `GAMEPAD_AXES`.
  unfoldable pub reset_axes : List GamepadAxis → Mapper → List Output → Mapper × List Output
  reset_axes [] m outputs = (m, outputs)
  reset_axes (axis ∷ axes) m outputs =
      let (m', outputs') = set_gamepad_axis m axis (from_int (pos 0)) outputs in
      reset_axes axes m' outputs'

  unfoldable pub release_outputs : Mapper → List Output → Mapper × List Output
  release_outputs m outputs =
      let cleared = record m {
        routes = [];
        quarantined = no_buttons;
        osk_active = no_buttons;
        axis_active = fill m.axis_active false;
        held = held_map.new;
      } in
      reset_axes gamepad_axes_all cleared (outputs ++ releases m.held)
