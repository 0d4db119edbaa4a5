-- ===== src/Daemon/Requests/Guards.antt =====
-- Who may type: the guards of the keyboard's requests.
use mathlib.Core.Option.{some-injective}
use steam_controller_daemon.Platform.{Platform, IndexMap}
use steam_controller_daemon.Config.Parse.Key.{is_keyboard_key}
use steam_controller_daemon.Config.{ConfigMaps, Config, string_eq}
use steam_controller_daemon.Protocol.Buttons.{button_eq}
use steam_controller_daemon.Ipc.State.{OskState, set_visible}
use steam_controller_daemon.Mapper.Types.{Output, HeldOutput, held_eq, Mapper}
use steam_controller_daemon.Mapper.Held.Observer.{down}
use steam_controller_daemon.Mapper.Invariant.{IsConfig, Good}
use steam_controller_daemon.Mapper.Switch.{suspend}
use steam_controller_daemon.Mapper.Switch.Calls.{NothingDown, suspend-Good}
use steam_controller_daemon.Daemon.{Emitted}
use steam_controller_daemon.Daemon.Emit.{Emits, emit-Good, Carries-down}
use steam_controller_daemon.Daemon.Emit.Sent.{has_toggle, sent}
use steam_controller_daemon.Daemon.Requests.{
  done, no_session, just_closed, stale, key_request, sync_keyboard, Hidden, hide_request,
  hide_refused,
}
use steam_controller_daemon.Prelude.Panic.{Ensures, Ensures-bind}
use steam_controller_daemon.Prelude.{
  ℕ, ◌-◌, ◌^◌, ◌≡◌, ◌≢◌, ◌<◌, refl, ap, ◌∙◌, Bool, true, false, Option, none, some, List, [],
  nat_beq, ◌↔◌, ◌⊎◌, inl, inr, arith, Bool-cases,
}

-- The codes of keys: neither a button of a mouse, a gamepad or a device, nor above the last key.
abbrev pub IsKeyCode : ℕ → Type 0
IsKeyCode n = ((0 < n) × (n < 0x100)) ⊎ ((0x15f < n) × (n < 0x220)) ⊎ ((0x22f < n) × (n < 0x2c0))

module _ ⦃p : Platform⦄ where
  open p use {KeyCode, code, new_key, code-new_key}

  is_keyboard_key-IsKeyCode :
      (n : ℕ) → n < 2 ^ 16 → (is_keyboard_key (new_key n) ≡ true) ↔ IsKeyCode n
  unfolding is_keyboard_key
  is_keyboard_key-IsKeyCode n h = rw (code-new_key n h) (λ e. ground arith, λ k. ground arith)

  abbrev pub Open : OskState → Option ℕ → ℕ → Type 0
  Open keyboard closed_at now =
      (keyboard.visible ≡ true) ⊎ ((closed : ℕ) × (closed_at ≡ some closed) × (now - closed < 1000))

  just_closed-some :
      (closed_at : Option ℕ) (now : ℕ)
      → (just_closed closed_at now ≡ true)
        ↔ ((closed : ℕ) × (closed_at ≡ some closed) × (now - closed < 1000))
  unfolding just_closed
  just_closed-some none now = (λ e. cc, λ (c, e, l). cc)
  just_closed-some (some closed) now = (
    λ e. (closed, refl, ground arith),
    λ (x, e, l). let same : closed ≡ x = some-injective closed x e in ground arith,
  )

  stale-Open :
      (keyboard : OskState) (closed_at : Option ℕ) (now session : ℕ)
      → (stale keyboard closed_at now session ≡ false)
        ↔ ((session ≢ 0) × (session ≡ keyboard.session) × Open keyboard closed_at now)
  unfolding stale
  stale-Open keyboard closed_at now session = (
    λ e. (
      ground arith,
      ground arith,
      elim (Bool-cases keyboard.visible) [
        | inl shown ↦ inl shown
        | inr hidden ↦ inr ((just_closed-some closed_at now).0 (ground arith))
      ],
    ),
    λ (nonzero, current, opened).
        let different : nat_beq session 0 ≡ false = ground arith in
        let same : nat_beq session keyboard.session ≡ true = ground arith in
        elim opened [
          | inl shown ↦ rw (different, same, shown) refl
          | inr closed ↦
              rw (different, same, (just_closed-some closed_at now).1 closed) (ground arith)
        ],
  )

  -- For a code of 16 bits, a request types its key with its shift exactly if its session is not 0
  -- and is the keyboard's, the keyboard is visible or was closed less than a second ago, and the
  -- code is that of a key; any other request types nothing.
  pub key_request-typed :
      (keyboard : OskState) (closed_at : Option ℕ) (now number : ℕ) (shift : Bool) (session : ℕ)
      → number < 2 ^ 16
      → (((key_request keyboard closed_at now number shift session).1
            ≡ some (new_key number, shift))
          ↔ ((session ≢ 0)
              × (session ≡ keyboard.session)
              × Open keyboard closed_at now
              × IsKeyCode number))
        × (((key_request keyboard closed_at now number shift session).1 ≡ none)
            ⊎ ((key_request keyboard closed_at now number shift session)
                ≡ (done, some (new_key number, shift))))
  unfolding key_request
  key_request-typed keyboard closed_at now number shift session small =
      let guard = stale-Open keyboard closed_at now session in
      let valid = is_keyboard_key-IsKeyCode number small in
      elim (Bool-cases (stale keyboard closed_at now session)) [
        | inl e ↦ rw e ((λ typed. cc, λ (a, b, c, d). cc (guard.1 (a, b, c))), inl refl)
        | inr e ↦ elim (Bool-cases (is_keyboard_key (new_key number))) [
          | inr f ↦ rw (e, f) ((λ typed. cc, λ (a, b, c, d). cc (valid.1 d)), inl refl)
          | inl f ↦
              let (a, b, c) = guard.0 e in
              rw (e, f) ((λ typed. (a, b, c, valid.0 f), λ h. refl), inr refl)
        ]
      ]

module _ ⦃p : Platform⦄ ⦃maps : ConfigMaps⦄ ⦃held_map : IndexMap HeldOutput ℕ⦄ where
  hide_allowed :
      (keyboard : OskState) (session : ℕ)
      → session ≢ 0
      → session ≡ keyboard.session
      → keyboard.visible ≡ true
      → hide_refused keyboard session ≡ false
  unfolding hide_refused
  hide_allowed keyboard session nonzero current shown = ground arith

  hidden-no_session :
      (m : Mapper) (keyboard : OskState) (now number : ℕ) (shift : Bool) (session : ℕ)
      → key_request (sync_keyboard m (set_visible keyboard false)) none now number shift session
        ≡ (no_session, none)
  unfolding key_request stale just_closed sync_keyboard set_visible
  hidden-no_session m keyboard now number shift session = ground arith

  module _ (start : HeldOutput → Bool) (c : Config) (valid : IsConfig c) where
    -- What holds after a keyboard was hidden.
    abbrev pub Hides : Hidden → Type 0
    Hides r =
        (r.answer ≡ done)
        × Good start c (r.emitted.mapper, r.emitted.drained)
        × ((h : HeldOutput) → down h (sent r.emitted.effects) (start h) ≡ false)
        × ((now number : ℕ) (shift : Bool) (session : ℕ)
            → key_request r.keyboard r.closed_at now number shift session ≡ (no_session, none))

    emitted-NothingDown :
        (m : Mapper) (keyboard : OskState) (mapped : List Output)
        → NothingDown start mapped
        → (e : Emitted) → Emits start c valid keyboard mapped e
        → (h : HeldOutput) → down h (sent e.effects) (start h) ≡ false
    emitted-NothingDown m keyboard mapped nothing e (good, carries, effect) h =
        Carries-down e.drained e.effects carries h (start h)
        ∙ elim (Bool-cases (has_toggle mapped)) [
          | inl toggles ↦ (rw toggles at effect).1 h
          | inr quiet ↦ ap (λ os. down h os (start h)) (rw quiet at effect).0 ∙ nothing h
        ]

    -- For a good mapper of a valid configuration, a request to hide the visible keyboard in its
    -- session is done without a panic. The mapper stays good, nothing is down for the receiver of
    -- the calls, and until the keyboard's state changes again every request for a key, at any time
    -- and for any session, is refused and types nothing.
    pub hide_request-Hides :
        (m : Mapper) (keyboard : OskState) (closed_at : Option ℕ) (session : ℕ)
        → Good start c (m, [])
        → session ≢ 0
        → session ≡ keyboard.session
        → keyboard.visible ≡ true
        → Ensures Hides (hide_request m keyboard closed_at session)
    unfolding hide_request
    hide_request-Hides m keyboard closed_at session good nonzero current shown =
        let (suspended, nothing) = suspend-Good start c valid m [] good in
        let allowed : hide_refused keyboard session ≡ false =
          hide_allowed keyboard session nonzero current shown in
        let mapped = (suspend m []).1 in
        rw (allowed, hide_request)
          (Ensures-bind (Emits start c valid keyboard mapped) Hides _ _
            (emit-Good start c valid (suspend m []).0 keyboard mapped suspended)
            (λ e after. (
              refl,
              after.0,
              emitted-NothingDown m keyboard mapped nothing e after,
              hidden-no_session e.mapper e.keyboard,
            )))
