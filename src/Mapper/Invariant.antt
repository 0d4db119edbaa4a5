-- ===== src/Mapper/Invariant.antt =====
-- What keeps the mapper from panicking: its modes, names and state vectors fit its configuration.
use Prim.Native.String.{String}
use steam_controller_daemon.Platform.{Platform, IndexMap}
use steam_controller_daemon.Protocol.Buttons.{button_eq}
use steam_controller_daemon.Config.{
  ConfigMaps, Config, ModeId, Mode, Layer, Binding, GlobalBinding, Action, action, keyboard_toggle,
  mode_set, mode_id, mode_name, mode_of, next_mode, string_eq,
}
use steam_controller_daemon.Mapper.Types.{HeldOutput, held_eq, Output, Mapper}
use steam_controller_daemon.Mapper.Held.Observer.{Synced}
use steam_controller_daemon.Prelude.{
  ℕ, ◌<◌, ◌+◌, ◌%◌, ◌≡◌, Bool, none, some, List, length, get_elem?, get_elem?-lt, All, arith,
}

module _ ⦃p : Platform⦄ where
  -- A `mode-set` names one of the `count` modes.
  abbrev pub Targets : ℕ → Action → Type 0
  Targets count (mode_set target) = target < count
  Targets count _ = Unit {0}

  abbrev pub GlobalTargets : ℕ → GlobalBinding → Type 0
  GlobalTargets count b = elim b.bound [
    | keyboard_toggle ↦ Unit {0}
    | action act ↦ Targets count act
  ]

  abbrev pub BindingTargets : ℕ → Binding → Type 0
  BindingTargets count b = Targets count b.bound

  abbrev pub LayerTargets : ℕ → Layer → Type 0
  LayerTargets count layer = All (BindingTargets count) layer.bindings

  abbrev pub ModeTargets : ℕ → Mode → Type 0
  ModeTargets count current =
      All (BindingTargets count) current.bindings × All (LayerTargets count) current.layers

module _ ⦃p : Platform⦄ ⦃maps : ConfigMaps⦄ where
  open maps use {name_map}

  -- What `Config::parse` checks of the modes.
  pub record IsConfig (c : Config) : Type 0 where
    pub named : length (name_map.entries c.mode_names) ≡ length c.modes
    pub default_lt : c.default_mode < length c.modes
    pub mode_id_lt : (name : String) (id : ModeId) → mode_id c name ≡ some id → id < length c.modes
    pub global_targets : All (GlobalTargets (length c.modes)) c.global_bindings
    pub mode_targets : All (ModeTargets (length c.modes)) c.modes

  abbrev pub axes_count : Config → ModeId → ℕ
  axes_count c id = elim (get_elem? c.modes id) [ none ↦ 0 | some current ↦ length current.axes ]

  pub mode_of-lt :
      (c : Config) (id : ModeId)
      → id < length c.modes
      → (current : Mode) × (mode_of c id ≡ some current)
  unfolding mode_of
  mode_of-lt c id h = get_elem?-lt c.modes id h

  pub mode_name-lt :
      (c : Config) (id : ModeId)
      → IsConfig c
      → id < length c.modes
      → (name : String) × (mode_name c id ≡ some name)
  unfolding mode_name
  mode_name-lt c id valid h =
      let (entry, e) = get_elem?-lt (name_map.entries c.mode_names) id (omega arith) in
      (entry.0, rw (e, mode_name))

  pub next_mode-lt :
      (c : Config) (id : ModeId)
      → id < length c.modes
      → (next : ModeId) × (next_mode c id ≡ some next) × (next < length c.modes)
  unfolding next_mode
  next_mode-lt c id h = ((id + 1) % length c.modes, ground arith, ground arith)

module _ ⦃p : Platform⦄ ⦃maps : ConfigMaps⦄ ⦃held_map : IndexMap HeldOutput ℕ⦄ where
  -- The mapper runs the configuration `c`, and its vectors have the lengths that are indexed.
  pub record Fits (c : Config) (m : Mapper) : Type 0 where
    pub config_eq : m.config ≡ c
    pub active_lt : m.active_mode < length c.modes
    pub global_len : length m.global ≡ length c.global_bindings
    pub axes_len : length m.axis_active ≡ axes_count c m.active_mode

  -- It fits, and the receiver of the outputs sees down exactly what it holds.
  pub record Good (start : HeldOutput → Bool) (c : Config) (r : Mapper × List Output) : Type 0 where
    pub fits : Fits c r.0
    pub synced : Synced start r.0.held r.1

module _ ⦃p : Platform⦄ ⦃maps : ConfigMaps⦄ where
  pub axes_count-mode_of :
      (c : Config) (id : ModeId) {current : Mode}
      → mode_of c id ≡ some current
      → length current.axes ≡ axes_count c id
  unfolding mode_of
  axes_count-mode_of c id e = rw (e, axes_count)
