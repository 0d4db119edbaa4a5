-- ===== src/Ipc/Clicks/History.antt =====
-- The ring against the log of all clicks, the newest first: the invariant of `record_click`.
use Prim.Native.Nat.{min}
use mathlib.Core.Option.{some-injective}
use steam_controller_daemon.Platform.{Platform}
use steam_controller_daemon.Ipc.State.{
  OskPadSide, OskClick, OskState, write, osk_click_history_len, default_state,
}
use steam_controller_daemon.Ipc.Clicks.{new_click, record_click}
use steam_controller_daemon.Prelude.Panic.{Ensures}
use steam_controller_daemon.Prelude.{
  ℕ, zero, suc, ◌+◌, ◌-◌, ◌%◌, ◌^◌, ◌<◌, ◌≤◌, ◌≡◌, ◌≢◌, refl, ap, ◌∙◌, sym, some, List, [], ◌∷◌,
  length, get_elem?, set, ltb, arith, length-set, get_elem?-set_same, get_elem?-set_other, true,
}

module _ ⦃p : Platform⦄ where
  open p use {F32}

  -- The log and the state agree: clicks are counted modulo the width of the counter, the history is
  -- as long as there are recent clicks, up to 16 of them, the ring holds these, and each click has
  -- its number.
  pub record Kept (log : List OskClick) (recent : ℕ) (s : OskState) : Type 0 where
    pub counted : s.click_sequence ≡ length log % 2 ^ 64
    pub ring : length s.click_history ≡ osk_click_history_len
    pub held : s.click_history_len ≡ min recent osk_click_history_len
    pub logged : recent ≤ length log
    pub numbered :
        (k : ℕ) (c : OskClick)
        → get_elem? log k ≡ some c
        → c.sequence ≡ (length log - 1 - k) % 2 ^ 64
    pub slots :
        (k : ℕ) (c : OskClick)
        → k < s.click_history_len
        → get_elem? log k ≡ some c
        → get_elem? s.click_history ((length log - 1 - k) % osk_click_history_len) ≡ some c

  pub Kept-default : Kept [] 0 default_state
  Kept-default = record {
    counted = refl;
    ring = refl;
    held = refl;
    logged = omega arith;
    numbered = λ k c e. cc;
    slots = λ k c h e. absurd (omega arith);
  }

  numbered-cons :
      (log : List OskClick) (c : OskClick)
      → c.sequence ≡ length log % 2 ^ 64
      → ((k : ℕ) (d : OskClick)
          → get_elem? log k ≡ some d
          → d.sequence ≡ (length log - 1 - k) % 2 ^ 64)
      → (k : ℕ) (d : OskClick) → get_elem? (c ∷ log) k ≡ some d
      → d.sequence ≡ (length (c ∷ log) - 1 - k) % 2 ^ 64
  numbered-cons log c e h zero d at =
      let here : suc (length log) - 1 - 0 ≡ length log = omega arith in
      rw here (ap (λ (x : OskClick). x.sequence) (sym (some-injective c d at)) ∙ e)
  numbered-cons log c e h (suc k) d at =
      let same : suc (length log) - 1 - suc k ≡ length log - 1 - k = omega arith in
      rw same (h k d at)

  slots-cons :
      (log : List OskClick) (history : List OskClick) (len : ℕ) (c : OskClick)
      → length history ≡ 16
      → len ≤ length log
      → ((k : ℕ) (d : OskClick)
          → k < len
          → get_elem? log k ≡ some d
          → get_elem? history ((length log - 1 - k) % 16) ≡ some d)
      → (k : ℕ) (d : OskClick) → k < min (min (len + 1) 255) 16
      → get_elem? (c ∷ log) k ≡ some d
      → get_elem? (set history (length log % 16) c) ((length (c ∷ log) - 1 - k) % 16) ≡ some d
  slots-cons log history len c ring logged h zero d lt at =
      let here : suc (length log) - 1 - 0 ≡ length log = omega arith in
      rw here (get_elem?-set_same history (length log % 16) c (omega arith)) ∙ at
  slots-cons log history len c ring logged h (suc k) d lt at =
      let same : suc (length log) - 1 - suc k ≡ length log - 1 - k = omega arith in
      let apart : length log % 16 ≢ (length log - 1 - k) % 16 = λ e. omega arith in
      rw same (
        get_elem?-set_other history (length log % 16) ((length log - 1 - k) % 16) c apart
        ∙ h k d (omega arith) at)

  -- A click whose place in the ring is written.
  pub record_click-Kept :
      (log : List OskClick) (recent : ℕ) (s : OskState) (pad : OskPadSide) (position : F32 × F32)
      → Kept log recent s
      → Ensures
          (λ s'.
            Kept (new_click s pad position ∷ log) (recent + 1) s'
            × (s'.bindings ≡ s.bindings)
            × (s'.left_pad ≡ s.left_pad)
            × (s'.right_pad ≡ s.right_pad))
          (record_click s pad position)
  unfolding record_click new_click write
  record_click-Kept log recent s pad position kept =
      let at : s.click_sequence % 16 ≡ length log % 16 = omega (arith, kept.counted) in
      let fits : ltb (s.click_sequence % 16) (length s.click_history) ≡ true =
        ground (arith, kept.ring) in
      rw (fits, record_click)
        (
          record {
            counted = omega (arith, kept.counted);
            ring =
                length-set s.click_history (s.click_sequence % 16) (new_click s pad position)
                ∙ kept.ring;
            held = omega (arith, kept.held);
            logged = omega (arith, kept.logged);
            numbered = numbered-cons log (new_click s pad position) kept.counted kept.numbered;
            slots = λ k d lt got. rw at (
                slots-cons log s.click_history s.click_history_len (new_click s pad position)
                  kept.ring (omega (arith, kept.held, kept.logged)) kept.slots k d lt got);
          },
          refl,
          refl,
          refl,
        )

  -- Calls that leave the ring and the counter alone, and may forget the clicks, keep the invariant.
  pub Kept-of_same :
      (log : List OskClick) (recent recent' : ℕ) (s s' : OskState)
      → Kept log recent s
      → s'.click_history ≡ s.click_history
      → s'.click_sequence ≡ s.click_sequence
      → s'.click_history_len ≡ min recent' osk_click_history_len
      → recent' ≤ recent
      → Kept log recent' s'
  Kept-of_same log recent recent' s s' kept ring sequence len fewer = record {
    counted = sequence ∙ kept.counted;
    ring = ap length ring ∙ kept.ring;
    held = len;
    logged = omega (arith, kept.logged);
    numbered = kept.numbered;
    slots = λ k c lt at. rw ring (kept.slots k c (omega (arith, kept.held)) at);
  }
