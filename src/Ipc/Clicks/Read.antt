-- ===== src/Ipc/Clicks/Read.antt =====
-- Reading the history: what `clicks_since` and its iterator yield on a state that keeps its log.
use Prim.Native.Nat.{min}
use mathlib.Core.List.{reverse, reverse-append}
use steam_controller_daemon.Platform.{Platform}
use steam_controller_daemon.Ipc.State.{OskClick, OskState}
use steam_controller_daemon.Ipc.Clicks.{
  OskClicks, clicks_since, asserted, next, collect, wrapping_sub,
}
use steam_controller_daemon.Ipc.Clicks.History.{Kept}
use steam_controller_daemon.Prelude.{
  ℕ, zero, suc, ◌+◌, ◌-◌, ◌%◌, ◌^◌, ◌<◌, ◌≤◌, ◌≡◌, refl, ap, ◌∙◌, sym, some, List, [], ◌∷◌, length,
  get_elem?, take, nat_beq, arith, get_elem?-lt, take-suc, false, true, false,
}

wrapping_sub-back :
    (n k : ℕ) → k ≤ n → k < 2 ^ 64 → wrapping_sub (n % 2 ^ 64) ((n - k) % 2 ^ 64) ≡ k
wrapping_sub-back n k le lt = omega arith

module _ ⦃p : Platform⦄ (log : List OskClick) (recent : ℕ) (s : OskState) where
  -- A reader who had seen all but the last `k` clicks gets those of them that are among the last 16
  -- recent ones, the oldest first, in at most 17 calls of the iterator, and is told how many it
  -- missed.
  abbrev pub Reads : ℕ → Type 0
  Reads k =
      let clicks = clicks_since s ((length log - k) % 2 ^ 64) in
      (clicks.missed ≡ k - min recent 16)
      × (collect 17 clicks ≡ some (reverse (take (min k (min recent 16)) log)))

module _ ⦃p : Platform⦄ (log : List OskClick) (recent : ℕ) (s : OskState)
    (kept : Kept log recent s) where
  abbrev reading : ℕ → ℕ → ℕ → OskClicks
  reading sequence remaining missed = record {
    state = s;
    sequence = sequence;
    remaining = remaining;
    missed = missed;
  }

  -- One step of the iterator yields the click that the log has there.
  next-reading :
      (r missed sequence : ℕ) (c : OskClick)
      → suc r ≤ s.click_history_len
      → sequence ≡ (length log - suc r) % 2 ^ 64
      → get_elem? log r ≡ some c
      → next (reading sequence (suc r) missed)
        ≡ some (some (c, reading ((sequence + 1) % 2 ^ 64) r missed))
  unfolding next asserted
  next-reading r missed sequence c le e at =
      let place : sequence % 16 ≡ (length log - 1 - r) % 16 = omega arith in
      let slot : get_elem? s.click_history (sequence % 16) ≡ some c =
        rw place (kept.slots r c (omega arith) at) in
      let named : nat_beq c.sequence sequence ≡ true = ground (arith, kept.numbered r c at) in
      let left : nat_beq (suc r) 0 ≡ false = ground arith in
      let back : suc r - 1 ≡ r = omega arith in rw (left, slot, named, back) refl

  collect-take :
      (fuel r missed sequence : ℕ)
      → r ≤ s.click_history_len
      → r < fuel
      → sequence ≡ (length log - r) % 2 ^ 64
      → collect fuel (reading sequence r missed) ≡ some (reverse (take r log))
  unfolding collect
  collect-take zero r missed sequence le enough e = absurd (omega arith)
  collect-take (suc fuel) zero missed sequence le enough e = refl
  collect-take (suc fuel) (suc r) missed sequence le enough e =
      let (c, at) = get_elem?-lt log r (omega (arith, kept.held, kept.logged)) in
      let rest =
        collect-take fuel r missed ((sequence + 1) % 2 ^ 64) (omega arith) (omega arith)
          (omega (arith, kept.held, kept.logged)) in
      rw (next-reading r missed sequence c le e at, rest)
        (ap some
          (sym (reverse-append (take r log) (c ∷ [])) ∙ ap reverse (sym (take-suc log r c at))))

  pub clicks_since-Reads : (k : ℕ) → k ≤ length log → k < 2 ^ 64 → Reads log recent s k
  unfolding clicks_since
  clicks_since-Reads k le lt =
      let requested : wrapping_sub s.click_sequence ((length log - k) % 2 ^ 64) ≡ k =
        rw kept.counted (wrapping_sub-back (length log) k le lt) in
      let available : min s.click_history_len 16 ≡ min recent 16 = omega (arith, kept.held) in
      rw (requested, available)
        (
          refl,
          collect-take 17 (min k (min recent 16)) (k - min recent 16)
              (((length log - k) % 2 ^ 64 + (k - min recent 16)) % 2 ^ 64)
              (omega (arith, kept.held)) (omega arith) (omega (arith, kept.logged)),
        )
