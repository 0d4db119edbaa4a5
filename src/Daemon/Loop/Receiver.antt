-- ===== src/Daemon/Loop/Receiver.antt =====
-- What the devices receive over a run: daemon/src/output.rs, `Outputs::emit` and `Outputs::key`. A key
-- that the daemon types is pressed and released on the keyboard that the mapper's outputs go to, so
-- if it was down it is up after that. The receiver keeps the buttons of a gamepad apart from whether
-- there is a gamepad.
use steam_controller_daemon.Platform.{Platform}
use steam_controller_daemon.Mapper.Types.{
  Output, key_output, mouse_button, gamepad_button, HeldOutput, held_eq, key_held, mouse_held,
  gamepad_held,
}
use steam_controller_daemon.Mapper.Held.Observer.{observe, down, down-append}
use steam_controller_daemon.Daemon.{emits, sets_gamepad, plays}
use steam_controller_daemon.Daemon.Loop.{Act, effect, types}
use steam_controller_daemon.Daemon.Loop.Acts.{emitted_acts}
use steam_controller_daemon.Prelude.{
  ◌≡◌, refl, ap, ◌∙◌, Bool, true, false, not, ◌&&◌, ◌||◌, List, [], ◌∷◌, ◌++◌, ◌==◌, nat_beq,
  if◌then◌else◌, arith,
}

module _ ⦃p : Platform⦄ where
  open p use {KeyCode, code, key_leftshift, key_rightshift}

  -- `Outputs::left_shift_held` and `Outputs::right_shift_held`.
  pub record Shifts : Type 0 where
    pub left_shift_held : Bool
    pub right_shift_held : Bool

  abbrev pub no_shifts : Shifts
  no_shifts = record { left_shift_held = false; right_shift_held = false }

  -- What `Outputs::emit` keeps of a key.
  unfoldable pub shifts_after : Output → Shifts → Shifts
  shifts_after (key_output k pressed) s =
      if nat_beq (code k) (code key_leftshift)
      then record s { left_shift_held = pressed }
      else if nat_beq (code k) (code key_rightshift)
      then record s { right_shift_held = pressed }
      else s
  shifts_after _ s = s

  -- The test of `Outputs::key`: does it type a shift around the key?
  unfoldable pub types_shift : Shifts → Bool → Bool
  types_shift s shift = shift && not s.left_shift_held && not s.right_shift_held

  -- `Outputs::key`: the keyboard's events, each as the output that has the same.
  unfoldable pub typed_events : Shifts → KeyCode → Bool → List Output
  unfolding types_shift
  typed_events s k shift =
      if types_shift s shift
      then key_output key_leftshift true
        ∷ key_output k true
        ∷ key_output k false
        ∷ key_output key_leftshift false
        ∷ []
      else key_output k true ∷ key_output k false ∷ []

  -- The presses and releases that the devices receive, in their order.
  unfoldable pub sent_acts : Shifts → List Act → List Output
  unfolding shifts_after typed_events
  sent_acts s [] = []
  sent_acts s (effect (emits o) ∷ acts) = o ∷ sent_acts (shifts_after o s) acts
  sent_acts s (types k shift ∷ acts) = typed_events s k shift ++ sent_acts s acts
  sent_acts s (_ ∷ acts) = sent_acts s acts

  -- Is the output a press or a release of `h`?
  unfoldable pub names : HeldOutput → Output → Bool
  names h (key_output k pressed) = key_held k == h
  names h (mouse_button m pressed) = mouse_held m == h
  names h (gamepad_button g pressed) = gamepad_held g == h
  names h _ = false

  -- Has the daemon typed `h` since the mapper's last press or release of it? `typed` says so of the
  -- time before.
  unfoldable pub typed_since : HeldOutput → Shifts → List Act → Bool → Bool
  unfolding shifts_after types_shift names
  typed_since h s [] typed = typed
  typed_since h s (effect (emits o) ∷ acts) typed =
      typed_since h (shifts_after o s) acts (if names h o then false else typed)
  typed_since h s (types k shift ∷ acts) typed =
      typed_since h s acts
        (typed || key_held k == h || (types_shift s shift && key_held key_leftshift == h))
  typed_since h s (_ ∷ acts) typed = typed_since h s acts typed

  -- One output of the mapper.
  observe-typed :
      (h : HeldOutput) (o : Output) (held typed : Bool)
      → observe h o (held && not typed)
        ≡ (observe h o held && not (if names h o then false else typed))
  unfolding observe names
  observe-typed h (key_output k pressed) held typed = ground arith
  observe-typed h (mouse_button m pressed) held typed = ground arith
  observe-typed h (gamepad_button g pressed) held typed = ground arith
  observe-typed h _ held typed = refl

  -- One typed key.
  typed_events-typed :
      (h : HeldOutput) (s : Shifts) (k : KeyCode) (shift held typed : Bool)
      → down h (typed_events s k shift) (held && not typed) ≡ (
          held
          && not (typed || key_held k == h || (types_shift s shift && key_held key_leftshift == h)))
  unfolding typed_events types_shift down observe
  typed_events-typed h s k shift held typed = ground arith

  -- Over any acts the receiver has `h` down exactly if it is down after the mapper's own outputs and
  -- was not typed since.
  pub sent_acts-typed_since :
      (h : HeldOutput) (s : Shifts) (acts : List Act) (held typed : Bool)
      → down h (sent_acts s acts) (held && not typed)
        ≡ (down h (emitted_acts acts) held && not (typed_since h s acts typed))
  unfolding sent_acts emitted_acts typed_since down
  sent_acts-typed_since h s [] held typed = refl
  sent_acts-typed_since h s (effect (emits o) ∷ acts) held typed =
      ap (down h (sent_acts (shifts_after o s) acts)) (observe-typed h o held typed)
      ∙ sent_acts-typed_since h (shifts_after o s) acts (observe h o held)
          (if names h o then false else typed)
  sent_acts-typed_since h s (types k shift ∷ acts) held typed =
      down-append h (typed_events s k shift) (sent_acts s acts) (held && not typed)
      ∙ ap (down h (sent_acts s acts)) (typed_events-typed h s k shift held typed)
      ∙ sent_acts-typed_since h s acts held
          (typed || key_held k == h || (types_shift s shift && key_held key_leftshift == h))
  sent_acts-typed_since h s (effect (sets_gamepad g) ∷ acts) held typed =
      sent_acts-typed_since h s acts held typed
  sent_acts-typed_since h s (effect (plays x) ∷ acts) held typed =
      sent_acts-typed_since h s acts held typed
  sent_acts-typed_since h s (_ ∷ acts) held typed = sent_acts-typed_since h s acts held typed

  -- What the devices have down after a whole run.
  unfoldable pub received : List Act → HeldOutput → Bool
  unfolding sent_acts
  received acts h = down h (sent_acts no_shifts acts) false

  pub received-emitted :
      (acts : List Act) (h : HeldOutput)
      → received acts h
        ≡ (down h (emitted_acts acts) false && not (typed_since h no_shifts acts false))
  unfolding received
  received-emitted acts h = sent_acts-typed_since h no_shifts acts false false
