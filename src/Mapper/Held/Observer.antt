-- ===== src/Mapper/Held/Observer.antt =====
-- What a device that receives the outputs sees: which held outputs are down after them.
use steam_controller_daemon.Platform.{Platform, IndexMap}
use steam_controller_daemon.Mapper.Types.{
  Output, key_output, mouse_button, gamepad_button, HeldOutput, held_eq, key_held, mouse_held,
  gamepad_held, output,
}
use steam_controller_daemon.Prelude.{
  ℕ, ◌≡◌, refl, Bool, true, false, Option, none, some, List, [], ◌∷◌, ◌++◌, ◌==◌, if◌then◌else◌,
}

abbrev pub is_some {ℓ} : {A : Type ℓ} → Option A → Bool
is_some none = false
is_some (some a) = true

module _ ⦃p : Platform⦄ where
  -- One output: is `h` down after it, if `b` says so before.
  unfoldable pub observe : HeldOutput → Output → Bool → Bool
  observe h (key_output k pressed) b = if key_held k == h then pressed else b
  observe h (mouse_button m pressed) b = if mouse_held m == h then pressed else b
  observe h (gamepad_button g pressed) b = if gamepad_held g == h then pressed else b
  observe h _ b = b

  unfoldable pub down : HeldOutput → List Output → Bool → Bool
  down h [] b = b
  down h (o ∷ os) b = down h os (observe h o b)

  pub down-append :
      (h : HeldOutput) (xs ys : List Output) (b : Bool)
      → down h (xs ++ ys) b ≡ down h ys (down h xs b)
  unfolding down
  down-append h [] ys b = refl
  down-append h (x ∷ xs) ys b = down-append h xs ys (observe h x b)

  pub observe-output :
      (h g : HeldOutput) (pressed b : Bool)
      → observe h (output g pressed) b ≡ (if g == h then pressed else b)
  unfolding observe output
  observe-output h (key_held k) pressed b = refl
  observe-output h (mouse_held m) pressed b = refl
  observe-output h (gamepad_held g) pressed b = refl

  -- After one more press or release.
  pub down-push :
      (h g : HeldOutput) (pressed : Bool) (xs : List Output) (b : Bool)
      → down h (xs ++ output g pressed ∷ []) b ≡ (if g == h then pressed else down h xs b)
  unfolding down
  down-push h g pressed xs b =
      rw (down-append h xs (output g pressed ∷ []) b) (observe-output h g pressed (down h xs b))

  -- Other outputs do not touch what is held.
  abbrev pub IsQuiet : Output → Type 0
  IsQuiet o = (h : HeldOutput) (b : Bool) → observe h o b ≡ b

  pub down-quiet :
      (h : HeldOutput) (xs : List Output) (o : Output) (b : Bool)
      → IsQuiet o
      → down h (xs ++ o ∷ []) b ≡ down h xs b
  unfolding down
  down-quiet h xs o b quiet = rw (down-append h xs (o ∷ []) b) (quiet h (down h xs b))

module _ ⦃p : Platform⦄ ⦃held_map : IndexMap HeldOutput ℕ⦄ where
  -- The receiver sees down exactly the outputs that are in `held`. `start` is what was down before
  -- the first of `outputs`.
  abbrev pub Synced : (HeldOutput → Bool) → held_map.Map → List Output → Type 0
  Synced start held outputs =
      (h : HeldOutput) → down h outputs (start h) ≡ is_some (held_map.get held h)
