-- ===== src/Ipc/State/Bindings.antt =====
-- What `set_bindings` leaves in the state: the last key of each button, and its active buttons.
use Prim.Native.Nat.{bit_or}
use steam_controller_daemon.Bits.{
  test_bit, test_bit-bit_and, test_bit-bit_or, test_bit-pow, test_bit-zero,
}
use steam_controller_daemon.Platform.{Platform}
use steam_controller_daemon.Protocol.Buttons.{Button, button_eq, index, mask, shift}
use steam_controller_daemon.Protocol.Buttons.Laws.{index-shift, shift-lt}
use steam_controller_daemon.Ipc.State.{OskState, write, bind_loop, set_bindings, get_binding}
use steam_controller_daemon.Prelude.Panic.{Ensures, Ensures-bind, Ensures-imp}
use steam_controller_daemon.Prelude.{
  ℕ, zero, suc, ◌<◌, ◌≡◌, refl, ◌∙◌, Bool, true, false, ◌&&◌, ◌||◌, none, some, List, [], ◌∷◌,
  length, get_elem?, set, fill, nat_beq, ltb, if◌then◌else◌, arith, Bool-cases, inl, inr,
  length-set, length-fill, get_elem?-set_same, get_elem?-set_other,
}

module _ ⦃p : Platform⦄ where
  open p use {KeyCode, code, new_key}

  -- The code of the last pair for `b`, or what was there before.
  unfoldable pub last_code : List (Button × KeyCode) → Button → ℕ → ℕ
  last_code [] b before = before
  last_code ((input, key) ∷ pairs) b before =
      last_code pairs b (if nat_beq (shift input) (shift b) then code key else before)

  unfoldable pub is_bound : List (Button × KeyCode) → Button → Bool
  is_bound [] b = false
  is_bound ((input, key) ∷ pairs) b = nat_beq (shift b) (shift input) || is_bound pairs b

  get_elem?-written :
      (slots : List ℕ) (i j v n : ℕ)
      → i < length slots
      → get_elem? slots j ≡ some n
      → get_elem? (set slots i v) j ≡ some (if nat_beq i j then v else n)
  get_elem?-written slots i j v n lt h = elim (Bool-cases (nat_beq i j)) [
    | inl e ↦ let same : i ≡ j = ground arith in rw (e, ← same) (get_elem?-set_same slots i v lt)
    | inr e ↦ rw e (get_elem?-set_other slots i j v (λ same. ground arith) ∙ h)
  ]

  -- What the loop leaves, for every button.
  abbrev Bound : List (Button × KeyCode) → List ℕ → ℕ → List ℕ × ℕ → Type 0
  Bound pairs slots configured (slots', configured') =
      (length slots' ≡ 30)
      × ((b : Button) (n : ℕ)
          → get_elem? slots (shift b) ≡ some n
          → get_elem? slots' (shift b) ≡ some (last_code pairs b n))
      × ((b : Button)
          → test_bit (shift b) configured' ≡ (test_bit (shift b) configured || is_bound pairs b))

  bind_loop-Bound :
      (pairs : List (Button × KeyCode)) (slots : List ℕ) (configured : ℕ)
      → length slots ≡ 30
      → Ensures (Bound pairs slots configured) (bind_loop pairs slots configured)
  unfolding bind_loop write last_code is_bound
  bind_loop-Bound [] slots configured e = (e, λ b n h. h, λ b. ground arith)
  bind_loop-Bound ((input, key) ∷ pairs) slots configured e =
      let place : index input ≡ shift input = index-shift input in
      let fits : ltb (shift input) (length slots) ≡ true = ground (arith, shift-lt input) in
      rw (place, fits, bind_loop)
        (Ensures-imp
          (Bound pairs (set slots (shift input) (code key)) (bit_or configured (mask input)))
          (Bound ((input, key) ∷ pairs) slots configured) _
          (λ r (len, found, bits). (
            len,
            λ b n h. found b _ (
                get_elem?-written slots (shift input) (shift b) _ n (omega (arith, shift-lt input))
                  h),
            λ b. ground (
              arith,
              bits b,
              test_bit-bit_or (shift b) configured (mask input),
              test_bit-pow (shift b) (shift input),
            ),
          ))
          (bind_loop-Bound pairs (set slots (shift input) (code key))
            (bit_or configured (mask input)) (length-set slots (shift input) (code key) ∙ e)))

  fill-zero : (slots : List ℕ) (i : ℕ) → i < length slots → get_elem? (fill slots 0) i ≡ some 0
  fill-zero [] i h = absurd (omega arith)
  fill-zero (x ∷ xs) zero h = refl
  fill-zero (x ∷ xs) (suc i) h = fill-zero xs i (omega arith)

  -- The bindings of the state are those of the pairs: a button has the key of its last pair, and
  -- none if no pair or a key of code 0 is given for it; and a button is active if it was and a pair
  -- is given for it.
  abbrev pub Binds : OskState → List (Button × KeyCode) → OskState → Type 0
  Binds s pairs s' =
      (length s'.bindings ≡ 30)
      × ((b : Button)
          → get_binding s'.bindings b
            ≡ some (let n = last_code pairs b 0 in if nat_beq n 0 then none else some (new_key n)))
      × ((b : Button)
          → test_bit (shift b) s'.active_bindings
            ≡ (test_bit (shift b) s.active_bindings && is_bound pairs b))

  -- `set_bindings` on an array of 30 codes does not panic, and its result binds the pairs.
  pub set_bindings-Binds :
      (s : OskState) (pairs : List (Button × KeyCode))
      → length s.bindings ≡ 30
      → Ensures
          (λ s'.
            Binds s pairs s'
            × (s' ≡ record s { bindings = s'.bindings; active_bindings = s'.active_bindings }))
          (set_bindings s pairs)
  unfolding set_bindings get_binding
  set_bindings-Binds s pairs e =
      Ensures-bind (Bound pairs (fill s.bindings 0) 0) _ _ _
        (bind_loop-Bound pairs (fill s.bindings 0) 0 (length-fill s.bindings 0 ∙ e))
        (λ (slots, configured) (len, found, bits). (
          (
            len,
            λ b.
                rw
                  (
                    index-shift b,
                    found b 0 (fill-zero s.bindings (shift b) (omega (arith, shift-lt b))),
                  )
                  refl,
            λ b. ground (
              arith,
              test_bit-bit_and (shift b) s.active_bindings configured,
              bits b,
              test_bit-zero (shift b),
            ),
          ),
          refl,
        ))
