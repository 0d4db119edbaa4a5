-- ===== src/Ipc/Clicks.antt =====
-- The ring of the last clicks: core/src/ipc.rs, `record_click`, `clicks_since` and the iterator
-- `OskClicks`. The check of a debug build that a slot holds the click asked for is a panic here.
pub mod History
pub mod Read
use Prim.Native.Nat.{min}
use steam_controller_daemon.Platform.{Platform}
use steam_controller_daemon.Ipc.State.{OskPadSide, OskClick, OskState, write, osk_click_history_len}
use steam_controller_daemon.Prelude.Panic.{◌>>=◌}
use steam_controller_daemon.Prelude.{
  ℕ, zero, suc, ◌+◌, ◌-◌, ◌%◌, ◌^◌, Option, none, some, List, [], ◌∷◌, get_elem?, nat_beq,
  if◌then◌else◌,
}

-- `u64::wrapping_sub`.
abbrev pub wrapping_sub : ℕ → ℕ → ℕ
wrapping_sub a b = (a + 2 ^ 64 - b) % 2 ^ 64

module _ ⦃p : Platform⦄ where
  open p use {F32}

  pub record OskClicks : Type 0 where
    pub state : OskState
    pub sequence : ℕ
    pub remaining : ℕ
    pub missed : ℕ

  -- The click that `record_click` writes.
  unfoldable pub new_click : OskState → OskPadSide → F32 × F32 → OskClick
  new_click s pad position = record {
    sequence = s.click_sequence;
    pad = pad;
    position = position;
    shift_held = s.shift_held;
  }

  -- `u8::saturating_add` stops at 255, above the 16 of the minimum.
  unfoldable pub record_click : OskState → OskPadSide → F32 × F32 → Option OskState
  unfolding new_click write
  record_click s pad position = do
    history ←
        write s.click_history (s.click_sequence % osk_click_history_len) (new_click s pad position)
    some (record s {
      click_history = history;
      click_sequence = (s.click_sequence + 1) % 2 ^ 64;
      click_history_len = min (min (s.click_history_len + 1) 255) osk_click_history_len;
    })

  unfoldable pub clicks_since : OskState → ℕ → OskClicks
  clicks_since s cursor =
      let available = min s.click_history_len osk_click_history_len in
      let requested = wrapping_sub s.click_sequence cursor in
      let missed = requested - available in
      record {
        state = s;
        sequence = (cursor + missed) % 2 ^ 64;
        remaining = min requested available;
        missed = missed;
      }

  abbrev pub rest_after : OskClicks → OskClicks
  rest_after clicks = record clicks {
    sequence = (clicks.sequence + 1) % 2 ^ 64;
    remaining = clicks.remaining - 1;
  }

  -- The assertion of `next`.
  unfoldable pub asserted : OskClicks → OskClick → Option (Option (OskClick × OskClicks))
  asserted clicks click =
      if nat_beq click.sequence clicks.sequence
      then some (some (click, rest_after clicks))
      else none

  -- `OskClicks::next`.
  unfoldable pub next : OskClicks → Option (Option (OskClick × OskClicks))
  unfolding asserted
  next clicks = if nat_beq clicks.remaining 0 then some none else (do
    click ← get_elem? clicks.state.click_history (clicks.sequence % osk_click_history_len)
    asserted clicks click)

  -- `for click in clicks`: the clicks, in at most `fuel` calls of `next`.
  unfoldable pub collect : ℕ → OskClicks → Option (List OskClick)
  unfolding next
  collect zero clicks = none
  collect (suc fuel) clicks = do
    item ← next clicks
    elim item [
      | none ↦ some []
      | some (click, clicks') ↦ (do rest ← collect fuel clicks'; some (click ∷ rest))
    ]
