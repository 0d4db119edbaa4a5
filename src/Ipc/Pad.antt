-- ===== src/Ipc/Pad.antt =====
-- A pad of the on-screen keyboard: core/src/ipc.rs, `update_pad`.
use steam_controller_daemon.Platform.{Platform}
use steam_controller_daemon.Ipc.State.{OskPadSide, OskPad, OskState}
use steam_controller_daemon.Ipc.Clicks.{record_click}
use steam_controller_daemon.Prelude.Int.{pos}
use steam_controller_daemon.Prelude.Panic.{unwrap_or}
use steam_controller_daemon.Prelude.{Bool, not, ◌&&◌, ◌||◌, Option, none, some, if◌then◌else◌}

module _ ⦃p : Platform⦄ where
  open p use {F32, from_int, add, sub, mul, div, neg, abs, clamp}

  -- `OSK_PAD_LIMIT`, `OSK_PAD_MIN_RESPONSE` and `OSK_PAD_FULL_RESPONSE_DISTANCE`.
  abbrev pub osk_pad_limit : F32
  osk_pad_limit = div (from_int (pos 5)) (from_int (pos 6))

  abbrev pub osk_pad_min_response : F32
  osk_pad_min_response = div (from_int (pos 15)) (from_int (pos 100))

  abbrev pub osk_pad_full_response_distance : F32
  osk_pad_full_response_distance = div (from_int (pos 2)) (from_int (pos 100))

  abbrev pub limit : F32 → F32
  limit value = clamp value (neg osk_pad_limit) osk_pad_limit

  -- The body of the loop over the two coordinates.
  unfoldable pub follow : F32 → F32 → F32 → F32
  follow current previous offset =
      let moved = limit (add current offset) in
      let response =
        clamp (div (abs (sub moved previous)) osk_pad_full_response_distance) osk_pad_min_response
          (from_int (pos 1)) in
      add previous (mul response (sub moved previous))

  -- The pad and its offset after an update, before the click is recorded.
  unfoldable pub moved_pad : OskPad → OskPad → Option (F32 × F32) → OskPad × Option (F32 × F32)
  unfolding follow
  moved_pad previous pad offset =
      if not pad.touched || not previous.touched
      then (pad, none)
      else if pad.pressed
      then (record pad { position = previous.position }, offset)
      else (let offset' : Option (F32 × F32) =
            if previous.pressed
            then some
                (sub previous.position.0 pad.position.0, sub previous.position.1 pad.position.1)
            else offset in
          let shift = unwrap_or offset' (from_int (pos 0), from_int (pos 0)) in
          (
            record pad {
              position = (
                follow pad.position.0 previous.position.0 shift.0,
                follow pad.position.1 previous.position.1 shift.1,
              );
            },
            offset',
          ))

  abbrev pub pad_of : OskState → OskPadSide → OskPad
  pad_of s OskPadSide.left = s.left_pad
  pad_of s OskPadSide.right = s.right_pad

  abbrev pub offset_of : OskState → OskPadSide → Option (F32 × F32)
  offset_of s OskPadSide.left = s.pad_offsets.0
  offset_of s OskPadSide.right = s.pad_offsets.1

  abbrev pub with_pad : OskState → OskPadSide → OskPad → Option (F32 × F32) → OskState
  with_pad s OskPadSide.left pad offset = record s {
    left_pad = pad;
    pad_offsets = (offset, s.pad_offsets.1);
  }
  with_pad s OskPadSide.right pad offset = record s {
    right_pad = pad;
    pad_offsets = (s.pad_offsets.0, offset);
  }

  abbrev pub limited : OskPad → OskPad
  limited pad = record pad { position = (limit pad.position.0, limit pad.position.1) }

  unfoldable pub update_pad : OskState → OskPadSide → OskPad → Bool → Option OskState
  unfolding moved_pad
  update_pad s side pad record_rising_edge =
      let previous = pad_of s side in
      let (pad', offset) = moved_pad previous (limited pad) (offset_of s side) in
      let s' = with_pad s side pad' offset in
      if record_rising_edge && pad'.pressed && not previous.pressed
      then record_click s' side pad'.position
      else some s'
