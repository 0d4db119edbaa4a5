-- ===== src/Mapper/Held/Appends.antt =====
-- `release_outputs` pushes to its outputs: daemon/src/mapper.rs.
use mathlib.Core.List.{append-nil, append_assoc}
use steam_controller_daemon.Platform.{Platform, IndexMap}
use steam_controller_daemon.Protocol.Buttons.{button_eq}
use steam_controller_daemon.Config.{ConfigMaps, string_eq}
use steam_controller_daemon.Mapper.Types.{
  GamepadAxis, gamepad_axis, gamepad_axes_all, Output, HeldOutput, held_eq, Mapper,
}
use steam_controller_daemon.Mapper.Held.{set_gamepad_axis, reset_axes, release_outputs, releases}
use steam_controller_daemon.Prelude.Int.{pos}
use steam_controller_daemon.Prelude.{
  ℕ, ◌≡◌, refl, sym, ap, ◌∙◌, List, [], ◌∷◌, ◌++◌, Bool-cases, inl, inr,
}

module _ ⦃p : Platform⦄ ⦃maps : ConfigMaps⦄ ⦃held_map : IndexMap HeldOutput ℕ⦄ where
  open p use {F32, from_int, float_eq}

  -- The outputs after a call are those before it and some more.
  abbrev pub Appends : List Output → List Output → Type 0
  Appends before after = (more : List Output) × (after ≡ before ++ more)

  Appends-trans : (a b c : List Output) → Appends a b → Appends b c → Appends a c
  Appends-trans a b c (xs, e) (ys, f) = (xs ++ ys, f ∙ ap (λ os. os ++ ys) e ∙ append_assoc a xs ys)

  set_gamepad_axis-Appends :
      (m : Mapper) (axis : GamepadAxis) (value : F32) (outputs : List Output)
      → Appends outputs (set_gamepad_axis m axis value outputs).1
  unfolding set_gamepad_axis
  set_gamepad_axis-Appends m axis value outputs =
      elim (Bool-cases (float_eq (m.gamepad_axes axis) value)) [
        | inl e ↦ rw e ([], sym (append-nil outputs))
        | inr e ↦ rw e (gamepad_axis axis value ∷ [], refl)
      ]

  reset_axes-Appends :
      (axes : List GamepadAxis) (m : Mapper) (outputs : List Output)
      → Appends outputs (reset_axes axes m outputs).1
  unfolding reset_axes
  reset_axes-Appends [] m outputs = ([], sym (append-nil outputs))
  reset_axes-Appends (axis ∷ axes) m outputs =
      let (m', outputs') = set_gamepad_axis m axis (from_int (pos 0)) outputs in
      Appends-trans outputs outputs' _ (set_gamepad_axis-Appends m axis (from_int (pos 0)) outputs)
        (reset_axes-Appends axes m' outputs')

  pub release_outputs-Appends :
      (m : Mapper) (outputs : List Output) → Appends outputs (release_outputs m outputs).1
  unfolding release_outputs
  release_outputs-Appends m outputs =
      Appends-trans outputs (outputs ++ releases m.held) _ (releases m.held, refl)
        (reset_axes-Appends gamepad_axes_all _ _)
