-- ===== src/Mapper/Axes.antt =====
-- Axes: daemon/src/mapper.rs, the loop over the mode's axis mappings in `process`.
use steam_controller_daemon.Platform.{Platform, IndexMap}
use steam_controller_daemon.Protocol.Buttons.{button_eq, contains_all}
use steam_controller_daemon.Protocol.State.{Trackpad, format_eq, TouchpadState, ControllerState}
use steam_controller_daemon.Config.{
  ConfigMaps, AxisMapping, AxisOptions, VectorOptions, AxisActivation, Trigger, Stick, VectorTarget,
  AxisComponent, gamepad_left_stick, gamepad_right_stick, mouse_motion, scroll, x_component,
  y_component, z_component,
}
use steam_controller_daemon.Mapper.Types.{
  GamepadAxis, axis_eq, left_x, left_y, right_x, right_y, left_trigger, right_trigger, Output,
  HeldOutput, held_eq, Mapper,
}
use steam_controller_daemon.Mapper.Held.{set_gamepad_axis}
use steam_controller_daemon.Mapper.Haptics.{timestamp_delta_us}
use steam_controller_daemon.Prelude.Int.{pos}
use steam_controller_daemon.Prelude.Panic.{◌>>=◌, unwrap_or}
use steam_controller_daemon.Prelude.{
  ℕ, suc, Bool, true, false, not, ◌&&◌, ◌||◌, Option, none, some, List, [], ◌∷◌, ◌++◌, get_elem?,
  set, leb, if◌then◌else◌, ◌==◌,
}

module _ ⦃p : Platform⦄ where
  open p use {
    F32, from_int, add, sub, mul, div, neg, hypot, atan2, powf, powi, exp, clamp, float_lt,
    float_le, float_eq,
  }

  abbrev pub zero_f : F32
  zero_f = from_int (pos 0)

  abbrev pub one_f : F32
  one_f = from_int (pos 1)

  -- `TRACKPAD_SCROLL_MIN_RADIUS`.
  abbrev pub scroll_min_radius : F32
  scroll_min_radius = div (from_int (pos 1)) (from_int (pos 3))

  unfoldable pub trigger_value : Trigger → ControllerState → F32
  trigger_value Trigger.left state = state.triggers.0
  trigger_value Trigger.right state = state.triggers.1

  unfoldable pub touchpad : Trackpad → ControllerState → TouchpadState
  touchpad Trackpad.left state = state.left_pad
  touchpad Trackpad.right state = state.right_pad

  unfoldable pub scale_axis : F32 → AxisOptions → F32
  scale_axis value options =
      if float_le value options.deadzone
      then zero_f
      else mul
          (powf (div (sub value options.deadzone) (sub one_f options.deadzone)) options.exponent)
          options.sensitivity

  -- The two timestamps that `frame_seconds` compares.
  unfoldable pub frame_timestamps : ControllerState → ControllerState → Bool → ℕ × ℕ
  frame_timestamps current previous prefer_trackpad =
      let imu : ℕ × ℕ = (current.imu_timestamp_us, previous.imu_timestamp_us) in
      if prefer_trackpad
      then (elim current.trackpad_timestamp_us [
        | none ↦ imu
        | some c ↦ (elim previous.trackpad_timestamp_us [ none ↦ imu | some q ↦ (c, q) ])
      ])
      else imu

  unfoldable pub frame_seconds : ControllerState → Option ControllerState → Bool → Option F32
  unfolding frame_timestamps format_eq
  frame_seconds current none prefer_trackpad = none
  frame_seconds current (some previous) prefer_trackpad =
      let (now, before) = frame_timestamps current previous prefer_trackpad in
      let delta_us = timestamp_delta_us current.format now before in
      if previous.format == current.format && (leb 1 delta_us && leb delta_us 100000)
      then some (div (from_int (pos delta_us)) (from_int (pos 1000000)))
      else none

  unfoldable pub options_of : AxisMapping → AxisOptions
  options_of (AxisMapping.trigger _ _ options) = options
  options_of (AxisMapping.stick _ _ options) = options.axis
  options_of (AxisMapping.pad_position _ _ options) = options.axis
  options_of (AxisMapping.pad_motion _ options _) = options.axis
  options_of (AxisMapping.circular_scroll _ options) = options.axis
  options_of (AxisMapping.gyro _ _ options) = options.axis

  -- A trigger engages at one threshold and releases at a lower one.
  unfoldable pub activated : Option AxisActivation → Bool → ControllerState → Bool
  activated none was_active state = true
  activated (some (AxisActivation.trigger source engage release)) was_active state =
      let value = trigger_value source state in
      if was_active then float_lt release value else float_le engage value
  activated (some (AxisActivation.buttons needed)) was_active state =
      contains_all state.buttons needed

  -- A vector before its transformation.
  pub record Source : Type 0 where
    pub value : F32 × F32
    pub source_scale : F32
    pub acceleration : F32
    pub target : VectorTarget
    pub vector_options : VectorOptions

  abbrev pub origin : F32 × F32
  origin = (zero_f, zero_f)

  unfoldable pub pad_delta : Trackpad → ControllerState → Option ControllerState → F32 × F32
  unfolding touchpad
  pad_delta pad state none = origin
  pad_delta pad state (some previous) =
      let now = touchpad pad state in
      let before = touchpad pad previous in
      if now.touched && before.touched
      then (sub now.position.0 before.position.0, sub now.position.1 before.position.1)
      else origin

  unfoldable pub pad_angle : Trackpad → ControllerState → Option ControllerState → F32 × F32
  unfolding touchpad
  pad_angle pad state none = origin
  pad_angle pad state (some previous) =
      let now = touchpad pad state in
      let before = touchpad pad previous in
      let (nx, ny) = now.position in
      let (bx, by) = before.position in
      if now.touched
        && (before.touched
            && (float_le scroll_min_radius (hypot nx ny)
                && float_le scroll_min_radius (hypot bx by)))
      then (zero_f, atan2 (sub (mul bx ny) (mul by nx)) (add (mul bx nx) (mul by ny)))
      else origin

  unfoldable pub gyro_component : AxisComponent → ControllerState → F32
  gyro_component x_component state = state.gyro.0
  gyro_component y_component state = state.gyro.1
  gyro_component z_component state = state.gyro.2

  unfoldable pub gyro_scale : VectorTarget → ControllerState → Option ControllerState → F32
  gyro_scale mouse_motion state previous = unwrap_or (frame_seconds state previous false) zero_f
  gyro_scale scroll state previous = unwrap_or (frame_seconds state previous false) zero_f
  gyro_scale _ state previous = one_f

  unfoldable pub stick_target : Stick → VectorTarget
  stick_target Stick.left = gamepad_left_stick
  stick_target Stick.right = gamepad_right_stick

  unfoldable pub stick_value : Stick → ControllerState → F32 × F32
  stick_value Stick.left state = state.left_stick
  stick_value Stick.right state = state.right_stick

  -- `none` for a trigger mapping, which writes its axis and continues.
  unfoldable pub source_of : AxisMapping → ControllerState → Option ControllerState → Option Source
  unfolding stick_value stick_target touchpad pad_delta pad_angle gyro_component gyro_scale
  source_of (AxisMapping.trigger _ _ _) state previous = none
  source_of (AxisMapping.stick source target options) state previous = some (record {
    value = stick_value source state;
    source_scale = one_f;
    acceleration = zero_f;
    target = target;
    vector_options = options;
  })
  source_of (AxisMapping.pad_position pad target options) state previous = some (record {
    value = if (touchpad pad state).touched then (touchpad pad state).position else origin;
    source_scale = one_f;
    acceleration = zero_f;
    target = stick_target target;
    vector_options = options;
  })
  source_of (AxisMapping.pad_motion pad options acceleration) state previous = some (record {
    value = pad_delta pad state previous;
    source_scale = one_f;
    acceleration = acceleration;
    target = mouse_motion;
    vector_options = options;
  })
  source_of (AxisMapping.circular_scroll pad options) state previous = some (record {
    value = pad_angle pad state previous;
    source_scale = one_f;
    acceleration = zero_f;
    target = scroll;
    vector_options = options;
  })
  source_of (AxisMapping.gyro components target options) state previous = some (record {
    value = (gyro_component components.0 state, gyro_component components.1 state);
    source_scale = gyro_scale target state previous;
    acceleration = zero_f;
    target = target;
    vector_options = options;
  })

  unfoldable pub orient : VectorOptions → F32 × F32 → F32 × F32
  orient options (x, y) =
      let (sx, sy) = if options.swap_xy then (y, x) else (x, y) in
      (if options.invert_x then neg sx else sx, if options.invert_y then neg sy else sy)

  unfoldable pub acceleration_gain : F32 → F32 → ControllerState → Option ControllerState → F32
  acceleration_gain acceleration magnitude state previous =
      if float_lt zero_f acceleration
      then (elim (frame_seconds state previous true) [
        | none ↦ one_f
        | some seconds ↦
            let speed = div magnitude seconds in
            let decay = exp (neg (powi (div speed (from_int (pos 4))) (pos 2))) in
            add one_f (mul acceleration (sub one_f decay))
      ])
      else one_f

  unfoldable pub transform : Source → ControllerState → Option ControllerState → F32 × F32
  unfolding orient acceleration_gain scale_axis
  transform source state previous =
      let (x, y) = orient source.vector_options source.value in
      let options = source.vector_options.axis in
      let magnitude = hypot x y in
      let gain = acceleration_gain source.acceleration magnitude state previous in
      let scaled = mul (mul (scale_axis magnitude options) gain) source.source_scale in
      if float_le magnitude options.deadzone
      then origin
      else (mul (div x magnitude) scaled, mul (div y magnitude) scaled)

  -- The local array `gamepad: [f32; 6]`.
  abbrev pub Axes : Type 0
  Axes = GamepadAxis → F32

  unfoldable pub write_axis : Axes → GamepadAxis → F32 → Axes
  unfolding axis_eq
  write_axis axes axis value a = if a == axis then value else axes a

  unfoldable pub trigger_axis : Trigger → GamepadAxis
  trigger_axis Trigger.left = left_trigger
  trigger_axis Trigger.right = right_trigger

  -- `VectorTarget`: onto the sticks, or out.
  unfoldable pub send_vector : VectorTarget → F32 × F32 → Axes → List Output → Axes × List Output
  unfolding write_axis
  send_vector gamepad_left_stick (x, y) axes outputs = (
    write_axis (write_axis axes left_x (add (axes left_x) x)) left_y (add (axes left_y) y),
    outputs,
  )
  send_vector gamepad_right_stick (x, y) axes outputs = (
    write_axis (write_axis axes right_x (add (axes right_x) x)) right_y (add (axes right_y) y),
    outputs,
  )
  send_vector mouse_motion (x, y) axes outputs = (
    axes,
    if not (float_eq x zero_f) || not (float_eq y zero_f)
        then outputs ++ Output.mouse_motion x y ∷ []
        else outputs,
  )
  send_vector scroll (x, y) axes outputs = (
    axes,
    if not (float_eq x zero_f) || not (float_eq y zero_f)
        then outputs ++ Output.scroll x y ∷ []
        else outputs,
  )

  -- An active mapping, from its source to its target.
  unfoldable pub map_axis :
      AxisMapping
      → ControllerState
      → Option ControllerState
      → Axes
      → List Output
      → Axes × List Output
  unfolding trigger_axis write_axis scale_axis
  map_axis (AxisMapping.trigger source target options) state previous axes outputs = (
    write_axis axes (trigger_axis target) (scale_axis (trigger_value source state) options),
    outputs,
  )
  map_axis mapping state previous axes outputs = elim (source_of mapping state previous) [
    | none ↦ (axes, outputs)
    | some source ↦ send_vector source.target (transform source state previous) axes outputs
  ]

  unfoldable pub clamp_axis : GamepadAxis → F32 → F32
  clamp_axis left_trigger value = clamp value zero_f one_f
  clamp_axis right_trigger value = clamp value zero_f one_f
  clamp_axis _ value = clamp value (neg one_f) one_f

module _ ⦃p : Platform⦄ ⦃maps : ConfigMaps⦄ ⦃held_map : IndexMap HeldOutput ℕ⦄ where
  open p use {F32}

  -- `for index in 0..mapping_count`, the mappings from `index` on as a list.
  unfoldable pub axis_loop :
      ℕ
      → List AxisMapping
      → ControllerState
      → Option ControllerState
      → Mapper
      → Axes
      → List Output
      → Option (Mapper × Axes × List Output)
  axis_loop index [] state previous m axes outputs = some (m, axes, outputs)
  axis_loop index (mapping ∷ rest) state previous m axes outputs = do
    was_active ← get_elem? m.axis_active index
    let active = activated (options_of mapping).activation was_active state
    let stored = record m { axis_active = set m.axis_active index active }
    let (axes', outputs') = map_axis mapping state previous axes outputs
    axis_loop (suc index) rest state previous stored (if active then axes' else axes)
        (if active then outputs' else outputs)

  -- `for axis in GAMEPAD_AXES`.
  unfoldable pub send_axes : List GamepadAxis → Axes → Mapper → List Output → Mapper × List Output
  unfolding clamp_axis
  send_axes [] axes m outputs = (m, outputs)
  send_axes (axis ∷ rest) axes m outputs =
      let (m', outputs') = set_gamepad_axis m axis (clamp_axis axis (axes axis)) outputs in
      send_axes rest axes m' outputs'
