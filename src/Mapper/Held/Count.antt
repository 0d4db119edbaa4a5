-- ===== src/Mapper/Held/Count.antt =====
-- Several sources may hold one output: the counts of `set_held`.
use mathlib.Core.List.{append-nil}
use native.Mathlib.Numerals.{add-one}
use steam_controller_daemon.Platform
use steam_controller_daemon.Platform.{Platform, IndexMap}
use steam_controller_daemon.Mapper.Types.{Output, HeldOutput, held_eq, output}
use steam_controller_daemon.Mapper.Held.{usize_mod, press, unpress, set_held}
use steam_controller_daemon.Prelude.{
  ℕ, zero, suc, ◌+◌, ◌-◌, ◌%◌, ◌<◌, ◌≡◌, refl, Bool, true, false, Option, none, some, List, [], ◌∷◌,
  ◌++◌, beq_refl, arith, ◌≢◌, sym, Option-cases, inl, inr, nat_beq,
}

-- How a table shows that `n` sources hold an output.
abbrev pub counted : ℕ → Option ℕ
counted zero = none
counted (suc n) = some (suc n)

-- What a press sends: only the first source presses.
abbrev pub pressing : ⦃p : Platform⦄ → HeldOutput → ℕ → List Output
pressing h zero = output h true ∷ []
pressing h (suc n) = []

-- What a release sends: only the last source releases.
abbrev pub releasing : ⦃p : Platform⦄ → HeldOutput → ℕ → List Output
releasing h zero = []
releasing h (suc zero) = output h false ∷ []
releasing h (suc (suc n)) = []

module _ ⦃p : Platform⦄ ⦃held_map : IndexMap HeldOutput ℕ⦄ where
  open held_map use {Map, get}

  set_held-others :
      (held : Map) (h : HeldOutput) (outputs : List Output) (g : HeldOutput) (active : Bool)
      → g ≢ h
      → get (set_held held h active outputs).0 g ≡ get held g
  unfolding set_held press unpress
  set_held-others held h outputs g true ne = elim (Option-cases (get held h)) [
    | inl e ↦
        rw (e, press, Platform.get-insert held_map held h g 1) (ground (arith, held_eq.beq_iff h g))
    | inr (n, e) ↦
        rw (e, press, Platform.get-insert held_map held h g) (ground (arith, held_eq.beq_iff h g))
  ]
  set_held-others held h outputs g false ne = elim (Option-cases (get held h)) [
    | inl e ↦ rw (e, unpress)
    | inr (n, e) ↦ ground (
      arith,
      held_eq.beq_iff h g,
      Platform.get-shift_remove held_map held h g,
      Platform.get-insert held_map held h g ((n + usize_mod - 1) % usize_mod),
    )
  ]

  press-counted :
      (held : Map) (h : HeldOutput) (outputs : List Output) (n : ℕ)
      → n + 1 < usize_mod
      → get held h ≡ counted n
      → (get (set_held held h true outputs).0 h ≡ counted (suc n))
        × ((set_held held h true outputs).1 ≡ outputs ++ pressing h n)
  unfolding set_held
  press-counted held h outputs zero bound e =
      rw (e, press) (rw (Platform.get-insert held_map held h h 1, beq_refl h) (refl, refl))
  press-counted held h outputs (suc n) bound e =
      let next : (suc n + 1) % usize_mod ≡ suc (suc n) = omega arith in
      rw (e, press)
        (rw
          (
            next,
            Platform.get-insert held_map held h h (suc (suc n)),
            beq_refl h,
            append-nil outputs,
          )
          (refl, refl))

  unpress-counted :
      (held : Map) (h : HeldOutput) (outputs : List Output) (n : ℕ)
      → n < usize_mod
      → get held h ≡ counted n
      → (get (set_held held h false outputs).0 h ≡ counted (n - 1))
        × ((set_held held h false outputs).1 ≡ outputs ++ releasing h n)
  unfolding set_held
  unpress-counted held h outputs zero bound e = rw (e, unpress) (e, sym (append-nil outputs))
  unpress-counted held h outputs (suc zero) bound e =
      rw (e, unpress) (rw (Platform.get-shift_remove held_map held h h, beq_refl h) (refl, refl))
  unpress-counted held h outputs (suc (suc n)) bound e =
      let left : (suc (suc n) + usize_mod - 1) % usize_mod ≡ suc n = omega arith in
      let nonzero : nat_beq (suc n) 0 ≡ false = ground arith in
      let one_less : suc (suc n) - 1 ≡ suc n = omega arith in
      rw (e, unpress)
        (rw
          (
            left,
            nonzero,
            one_less,
            Platform.get-insert held_map held h h (suc n),
            beq_refl h,
            append-nil outputs,
          )
          (refl, refl))

  -- Where `n` sources hold an output, a press makes them `n + 1` and is sent if it is the first; a
  -- release leaves one less, or none, and is sent if it was the last. Other outputs are left alone.
  pub set_held-counted :
      (held : Map) (h : HeldOutput) (outputs : List Output) (n : ℕ)
      → n + 1 < usize_mod
      → get held h ≡ counted n
      → (get (set_held held h true outputs).0 h ≡ counted (n + 1))
        × ((set_held held h true outputs).1 ≡ outputs ++ pressing h n)
        × (get (set_held held h false outputs).0 h ≡ counted (n - 1))
        × ((set_held held h false outputs).1 ≡ outputs ++ releasing h n)
        × ((g : HeldOutput) (active : Bool)
            → g ≢ h
            → get (set_held held h active outputs).0 g ≡ get held g)
  set_held-counted held h outputs n bound e =
      let (a, b) = press-counted held h outputs n bound e in
      let (c, d) = unpress-counted held h outputs n (omega arith) e in
      (rw add-one a, b, c, d, λ g active ne. set_held-others held h outputs g active ne)
