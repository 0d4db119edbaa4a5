-- ===== src/Ipc/Calls/Sound.antt =====
-- The ring of clicks over any sequence of calls.
use steam_controller_daemon.Ipc.Calls.{
  OskCall, show, bind, sync, touch, call_osk, log_call, recent_call, run_osk, logged_click,
}
use steam_controller_daemon.Platform.{Platform}
use steam_controller_daemon.Ipc.State.{
  OskPadSide, OskPad, OskClick, OskState, set_visible, set_active_bindings, default_state,
}
use steam_controller_daemon.Ipc.State.Bindings.{Binds, set_bindings-Binds}
use steam_controller_daemon.Ipc.Clicks.{new_click}
use steam_controller_daemon.Ipc.Clicks.History.{Kept, Kept-default, Kept-of_same, record_click-Kept}
use steam_controller_daemon.Ipc.Clicks.Read.{Reads, clicks_since-Reads}
use steam_controller_daemon.Ipc.Pad.{moved_pad, pad_of, offset_of, with_pad, limited, update_pad}
use steam_controller_daemon.Prelude.Panic.{Ensures, Ensures-bind, Ensures-imp}
use steam_controller_daemon.Prelude.{
  subst, ℕ, ◌+◌, ◌^◌, ◌<◌, ◌≡◌, refl, ap, ◌∙◌, Bool, not, ◌&&◌, Option, List, [], ◌∷◌, length,
  arith, Bool-cases, inl, inr,
}
use Prim.Native.Nat.{min}

module _ ⦃p : Platform⦄ where
  open p use {F32, KeyCode}

  abbrev pub Sound : List OskClick → ℕ → OskState → Type 0
  Sound log recent s = Kept log recent s × (length s.bindings ≡ 30)

  moved_pad-pressed :
      (previous pad : OskPad) (offset : Option (F32 × F32))
      → (moved_pad previous pad offset).0.pressed ≡ pad.pressed
  unfolding moved_pad
  moved_pad-pressed previous pad offset = ground arith

  with_pad-Sound :
      (log : List OskClick) (recent : ℕ) (s : OskState) (side : OskPadSide) (pad : OskPad)
      (offset : Option (F32 × F32))
      → Sound log recent s
      → Sound log recent (with_pad s side pad offset)
  with_pad-Sound log recent s OskPadSide.left pad offset (kept, n) =
      (Kept-of_same log recent recent s _ kept refl refl kept.held (omega arith), n)
  with_pad-Sound log recent s OskPadSide.right pad offset (kept, n) =
      (Kept-of_same log recent recent s _ kept refl refl kept.held (omega arith), n)

  abbrev pressed_now : OskState → OskPadSide → OskPad → Bool → Bool
  pressed_now s side pad rising = rising && pad.pressed && not (pad_of s side).pressed

  -- The pad of a side after a click was recorded on the state that holds it.
  recorded :
      (log : List OskClick) (s s' : OskState) (side : OskPadSide) (pad : OskPad)
      (offset : Option (F32 × F32))
      → s'.left_pad ≡ (with_pad s side pad offset).left_pad
      → s'.right_pad ≡ (with_pad s side pad offset).right_pad
      → pad_of s' side ≡ pad
  recorded log s s' OskPadSide.left pad offset l r = l
  recorded log s s' OskPadSide.right pad offset l r = r

  shift_held-with_pad :
      (s : OskState) (side : OskPadSide) (pad : OskPad) (offset : Option (F32 × F32))
      → (with_pad s side pad offset).shift_held ≡ s.shift_held
  shift_held-with_pad s OskPadSide.left pad offset = refl
  shift_held-with_pad s OskPadSide.right pad offset = refl

  abbrev Recorded : List OskClick → ℕ → OskState → OskPadSide → F32 × F32 → OskState → Type 0
  Recorded log recent w side position s' =
      Kept (new_click w side position ∷ log) (recent + 1) s'
      × (s'.bindings ≡ w.bindings)
      × (s'.left_pad ≡ w.left_pad)
      × (s'.right_pad ≡ w.right_pad)

  Recorded-Sound :
      (log : List OskClick) (recent : ℕ) (s s' : OskState) (side : OskPadSide) (pad : OskPad)
      (offset : Option (F32 × F32))
      → Sound log recent (with_pad s side pad offset)
      → Recorded log recent (with_pad s side pad offset) side pad.position s'
      → Sound (logged_click log s s' side ∷ log) (recent + 1) s'
  unfolding new_click
  Recorded-Sound log recent s s' side pad offset (kept, n) (kept', bound, l, r) =
      let at : pad_of s' side ≡ pad = recorded log s s' side pad offset l r in
      let shifted = shift_held-with_pad s side pad offset in
      let click : new_click (with_pad s side pad offset) side pad.position
          ≡ logged_click log s s' side =
        rw (at, kept.counted, shifted) refl in
      (subst (λ c. Kept (c ∷ log) (recent + 1) s') click kept', ap length bound ∙ n)

  update_pad-Sound :
      (log : List OskClick) (recent : ℕ) (s : OskState) (side : OskPadSide) (pad : OskPad)
      (rising : Bool)
      → Sound log recent s
      → Ensures
          (λ s'.
            Sound
              (log_call (touch side pad rising) s s' log)
              (recent_call (touch side pad rising) s recent)
              s')
          (update_pad s side pad rising)
  unfolding update_pad new_click
  update_pad-Sound log recent s side pad rising sound =
      let moved = moved_pad (pad_of s side) (limited pad) (offset_of s side) in
      let pressed : moved.0.pressed ≡ pad.pressed =
        moved_pad-pressed (pad_of s side) (limited pad) (offset_of s side) in
      let w = with_pad s side moved.0 moved.1 in
      let (kept, n) = with_pad-Sound log recent s side moved.0 moved.1 sound in
      elim (Bool-cases (pressed_now s side pad rising)) [
        | inr e ↦ rw (pressed, e) (kept, n)
        | inl e ↦
            rw (pressed, e)
              (Ensures-imp (Recorded log recent w side moved.0.position)
                (λ s'. Sound (logged_click log s s' side ∷ log) (recent + 1) s') _
                (λ s' h. Recorded-Sound log recent s s' side moved.0 moved.1 (kept, n) h)
                (record_click-Kept log recent w side moved.0.position kept))
      ]

  set_visible-Sound :
      (visible : Bool) (log : List OskClick) (recent : ℕ) (s : OskState)
      → Sound log recent s
      → Sound log (recent_call (show visible) s recent) (set_visible s visible)
  unfolding set_visible
  set_visible-Sound visible log recent s (kept, n) = elim (Bool-cases (visible && not s.visible)) [
    | inl e ↦ rw e (Kept-of_same log recent 0 s _ kept refl refl refl (omega arith), n)
    | inr e ↦ rw e (Kept-of_same log recent recent s _ kept refl refl kept.held (omega arith), n)
  ]

  pub call_osk-Sound :
      (call : OskCall) (log : List OskClick) (recent : ℕ) (s : OskState)
      → Sound log recent s
      → Ensures
          (λ s'. Sound (log_call call s s' log) (recent_call call s recent) s')
          (call_osk call s)
  unfolding call_osk set_active_bindings
  call_osk-Sound (show visible) log recent s sound = set_visible-Sound visible log recent s sound
  call_osk-Sound (bind pairs) log recent s (kept, n) =
      Ensures-imp
        (λ s'.
          Binds s pairs s'
          × (s' ≡ record s { bindings = s'.bindings; active_bindings = s'.active_bindings }))
        (Sound log recent) _
        (λ s' (binds, same). (
          Kept-of_same log recent recent s s' kept (ap (λ (t : OskState). t.click_history) same)
              (ap (λ (t : OskState). t.click_sequence) same)
              (ap (λ (t : OskState). t.click_history_len) same ∙ kept.held) (omega arith),
          binds.0,
        ))
        (set_bindings-Binds s pairs n)
  call_osk-Sound (sync shifted inputs) log recent s (kept, n) =
      (Kept-of_same log recent recent s _ kept refl refl kept.held (omega arith), n)
  call_osk-Sound (touch side pad rising) log recent s sound =
      update_pad-Sound log recent s side pad rising sound

  run_osk-Sound :
      (calls : List OskCall) (log : List OskClick) (recent : ℕ) (s : OskState)
      → Sound log recent s
      → Ensures (λ (log', recent', s'). Sound log' recent' s') (run_osk calls log recent s)
  unfolding run_osk
  run_osk-Sound [] log recent s sound = sound
  run_osk-Sound (call ∷ calls) log recent s sound =
      Ensures-bind _ _ _ _ (call_osk-Sound call log recent s sound) (λ s' sound'.
        run_osk-Sound calls (log_call call s s' log) (recent_call call s recent) s' sound')

  -- Any calls from the state that the daemon starts with run without a panic. After them, for a
  -- reader whose cursor is `k` clicks old, with `k` below `2 ^ 64` and cut to the number of clicks,
  -- and with `n` the number of clicks since the keyboard was last opened, or since the start if it
  -- never was, but at most 16, `clicks_since` reports as missed what `k` exceeds `n` by, and its
  -- iterator yields the last `k` clicks, but at most `n`, the oldest first, in at most 17 calls,
  -- whose assertion on the clicks' numbers never fails.
  pub clicks_since-log :
      (calls : List OskCall) (k : ℕ)
      → k < 2 ^ 64
      → Ensures
          (λ (log, recent, s). Reads log recent s (min k (length log)))
          (run_osk calls [] 0 default_state)
  clicks_since-log calls k lt =
      Ensures-imp (λ (r : List OskClick × ℕ × OskState). Sound r.0 r.1 r.2)
        (λ (r : List OskClick × ℕ × OskState). Reads r.0 r.1 r.2 (min k (length r.0))) _
        (λ (log, recent, s) (kept, n).
          clicks_since-Reads log recent s kept (min k (length log)) (omega arith) (omega arith))
        (run_osk-Sound calls [] 0 default_state (Kept-default, refl))
