-- ===== src/Daemon/Loop/Answers.antt =====
-- The answers to requests.
use steam_controller_daemon.Platform.{Platform, IndexMap}
use steam_controller_daemon.Protocol.Buttons.{button_eq}
use steam_controller_daemon.Config.{ConfigMaps, Config, mode_name, string_eq}
use steam_controller_daemon.Kdl.{Kdl, Parsed}
use steam_controller_daemon.Config.Parse.Key.{KeyText}
use steam_controller_daemon.Config.Parse.Key.{is_keyboard_key}
use steam_controller_daemon.Config.Parse.Document.{parse}
use steam_controller_daemon.Ipc.State.{set_bindings}
use steam_controller_daemon.Mapper.Types.{Output, HeldOutput, held_eq, Mapper}
use steam_controller_daemon.Mapper.Switch.{set_mode, next_mode_of, reload, suspend}
use steam_controller_daemon.Daemon.{Effect, plays, emit}
use steam_controller_daemon.Daemon.Requests.{
  Answer, no_session, invalid_code, stale, key_request, hide_refused,
}
use steam_controller_daemon.Daemon.Loop.{
  Request, status, mode_set, mode_next, haptic, config_apply, osk, osk_hide, key, request, Response,
  status_of, done, error, Act, effect, types, responds, response_of, Daemon, emit_mapped,
  publish_keyboard, respond, emit_done, apply, closed, hide, typed_act, handle_request,
}
use steam_controller_daemon.Daemon.Loop.Holds.{Holds, Next}
use steam_controller_daemon.Daemon.Loop.Runs.{Served, handle_request-Next}
use steam_controller_daemon.Prelude.Outcome.{ok, err, panics}
use steam_controller_daemon.Prelude.Panic.{Ensures, Allows, Allows-bind, Allows-any, Ensures-Allows}
use steam_controller_daemon.Prelude.{
  on_test, ℕ, ◌≢◌, ◌≡◌, refl, ap, ◌∙◌, Bool, not, Option, none, some, List, [], ◌∷◌, ◌++◌, map, ◌⊎◌,
  inl, inr,
}

module _ ⦃p : Platform⦄ where
  open p use {KeyCode}

  -- The answers among the acts.
  unfoldable pub responses : List Act → List Response
  responses [] = []
  responses (responds response ∷ acts) = response ∷ responses acts
  responses (_ ∷ acts) = responses acts

  responses-append : (xs ys : List Act) → responses (xs ++ ys) ≡ responses xs ++ responses ys
  unfolding responses
  responses-append [] ys = refl
  responses-append (responds response ∷ xs) ys = ap (λ l. response ∷ l) (responses-append xs ys)
  responses-append (_ ∷ xs) ys = responses-append xs ys

  responses-effects : (es : List Effect) → responses (map effect es) ≡ []
  unfolding responses
  responses-effects [] = refl
  responses-effects (e ∷ es) = responses-effects es

module _ ⦃p : Platform⦄ ⦃maps : ConfigMaps⦄ ⦃held_map : IndexMap HeldOutput ℕ⦄ where
  open p use {KeyCode}
  open maps use {osk_map}

  abbrev Silent : Daemon × List Act → Type 0
  Silent r = responses r.1 ≡ []

  -- One answer, which is no error.
  abbrev pub Fine : Daemon × List Act → Type 0
  Fine (d, acts) = (response : Response) × (response ≢ error) × (responses acts ≡ response ∷ [])

  -- An error alone, of a daemon that is as it was; or one answer that is no error.
  abbrev pub Answered : Daemon → Daemon × List Act → Type 0
  Answered before r = (r ≡ (before, responds error ∷ [])) ⊎ Fine r

  emit_mapped-Silent : (d : Daemon) (r : Mapper × List Output) → Allows Silent (emit_mapped d r)
  unfolding emit_mapped
  emit_mapped-Silent d (m, mapped) =
      Allows-bind (λ e. Unit {0}) Silent (emit m d.keyboard mapped) _ (Allows-any _)
        (λ e u. responses-effects e.effects)

  respond-Fine :
      (d : Daemon) (acts : List Act) (response : Response)
      → response ≢ error
      → responses acts ≡ []
      → Fine (respond response (d, acts))
  unfolding responses
  respond-Fine d acts response fine silent = (
    response,
    fine,
    responses-append acts (responds response ∷ []) ∙ ap (λ l. l ++ response ∷ []) silent,
  )

  -- `emit`, `publish_keyboard` and the answer.
  published-Fine : (r : Daemon × List Act) → Silent r → Fine (respond done (publish_keyboard r))
  unfolding publish_keyboard responses
  published-Fine (d, acts) silent =
      respond-Fine (publish_keyboard (d, acts)).0 (publish_keyboard (d, acts)).1 done (λ e. cc)
        (responses-append acts _ ∙ ap (λ l. l ++ []) silent)

  emit_done-Fine : (d : Daemon) (r : Mapper × List Output) → Allows Fine (emit_done d r)
  unfolding emit_done
  emit_done-Fine d r =
      Allows-bind Silent Fine _ _ (emit_mapped-Silent d r) (λ s silent. published-Fine s silent)

  apply-Fine : (d : Daemon) (config : Config) → Allows Fine (apply d config)
  unfolding apply responses
  apply-Fine d config =
      Allows-bind (λ a. Unit {0}) Fine _ _ (Allows-any (reload d.mapper config []))
        (λ (m, mapped) u.
          Allows-bind (λ a. Unit {0}) Fine _ _
            (Allows-any (set_bindings d.keyboard (osk_map.entries m.config.osk_bindings)))
            (λ keyboard v.
              Allows-bind Fine Fine _ _
                (emit_done-Fine (record d { keyboard = keyboard }) (m, mapped))
                (λ (d', acts) fine. fine)))

  Answered-of_Fine :
      (before : Daemon) (r : Option (Daemon × List Act))
      → Allows Fine r
      → Allows (Answered before) r
  Answered-of_Fine before none h = tt
  Answered-of_Fine before (some r) h = inr h

  -- Both ends of `Request::ModeSet`.
  set_mode-Answered :
      (d : Daemon) (result : Option (Mapper × List Output))
      → Allows
          (Answered d)
          (elim result [ none ↦ some (respond error (d, [])) | some mapped ↦ emit_done d mapped ])
  set_mode-Answered d none = inl refl
  set_mode-Answered d (some mapped) = Answered-of_Fine d _ (emit_done-Fine d mapped)

  hide-Answered : (d : Daemon) (session : ℕ) → Allows (Answered d) (hide d session)
  unfolding hide
  hide-Answered d session =
      on_test (Allows (Answered d)) (hide_refused d.keyboard session) (some (respond error (d, [])))
        _ (inl refl)
        (Answered-of_Fine d _ (
          Allows-bind Silent Fine _ _ (emit_mapped-Silent d (suspend d.mapper []))
            (λ (next, acts) silent. published-Fine (closed next, acts) silent)))

module _ ⦃p : Platform⦄ ⦃maps : ConfigMaps⦄ ⦃held_map : IndexMap HeldOutput ℕ⦄ ⦃text : KeyText⦄
    ⦃k : Kdl⦄ where
  open p use {KeyCode, new_key}

  key-Answered :
      (d : Daemon) (now code : ℕ) (shift : Bool) (session : ℕ)
      → Allows (Answered d) (handle_request (key code shift session) now d)
  unfolding handle_request key_request responses
  key-Answered d now code shift session =
      let answers : Answer × Option (KeyCode × Bool) → Type 0 =
        λ r. Answered d (respond (response_of r.0) (d, typed_act r.1)) in
      on_test answers (stale d.keyboard d.keyboard_closed_at now session) (no_session, none) _
        (inl refl)
        (on_test answers (not (is_keyboard_key (new_key code))) (invalid_code, none)
          (Answer.done, some (new_key code, shift)) (inl refl)
          (inr (respond-Fine d (types (new_key code) shift ∷ []) done (λ e. cc) refl)))

  config_apply-Answered :
      (d : Daemon) (parsed : Parsed Config)
      → Allows (Answered d) (elim parsed [
        | ok config ↦ apply d config
        | err issues ↦ some (respond error (d, []))
        | panics ↦ none
      ])
  config_apply-Answered d (ok config) = Answered-of_Fine d _ (apply-Fine d config)
  config_apply-Answered d (err issues) = inl refl
  config_apply-Answered d panics = tt

  handle_request-Allows :
      (r : Request) (now : ℕ) (d : Daemon) → Allows (Answered d) (handle_request r now d)
  unfolding handle_request responses
  handle_request-Allows (status connected device) now d =
      Allows-bind (λ a. Unit {0}) (Answered d) _ _
        (Allows-any (mode_name d.mapper.config d.mapper.active_mode))
        (λ name u. inr (
          respond-Fine d [] (status_of connected name d.battery_percent d.charging device) (λ e. cc)
            refl))
  handle_request-Allows (mode_set name) now d =
      Allows-bind (λ a. Unit {0}) (Answered d) _ _ (Allows-any (set_mode d.mapper name []))
        (λ result u. set_mode-Answered d result)
  handle_request-Allows mode_next now d =
      Allows-bind (λ a. Unit {0}) (Answered d) _ _ (Allows-any (next_mode_of d.mapper []))
        (λ mapped u. Answered-of_Fine d _ (emit_done-Fine d mapped))
  handle_request-Allows (haptic h) now d =
      inr (respond-Fine d (effect (plays h) ∷ []) done (λ e. cc) refl)
  handle_request-Allows (config_apply source) now d = config_apply-Answered d (parse source)
  handle_request-Allows osk now d = tt
  handle_request-Allows (osk_hide session) now d = hide-Answered d session
  handle_request-Allows (key code shift session) now d = key-Answered d now code shift session

  -- Every request that the loop serves is answered, without a panic, exactly once: by an error,
  -- and then the daemon is as it was and makes no other call; or by a status or `Done`.
  pub handle_request-Answered :
      (start : HeldOutput → Bool) (r : Request) (now : ℕ) (d : Daemon)
      → Served (request r now)
      → Holds start d
      → Ensures (Answered d) (handle_request r now d)
  handle_request-Answered start r now d served holds =
      Ensures-Allows (Next start) (Answered d) (handle_request r now d)
        (handle_request-Next start r now d served holds) (handle_request-Allows r now d)
