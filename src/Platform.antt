-- ===== src/Platform.antt =====
-- What the program takes from elsewhere: the arithmetic of `f32` (this type theory has no floats),
-- `evdev::KeyCode`, and the insertion-ordered map `indexmap::IndexMap`.
pub mod Assoc
use steam_controller_daemon.Prelude.Eq.{Eq}
use steam_controller_daemon.Prelude.Int.{ℤ}
use steam_controller_daemon.Prelude.{
  ℕ, suc, length, sym, ◌∙◌, ◌≡◌, refl, ◌<◌, ◌^◌, Bool, none, some, Option, List, [], ◌==◌,
  if◌then◌else◌,
}
use Assoc

pub record Platform : Type 1 where
  -- `f32` and the operations of it that the program calls.
  pub F32 : Type 0
  pub from_int : ℤ → F32
  pub add : F32 → F32 → F32
  pub sub : F32 → F32 → F32
  pub mul : F32 → F32 → F32
  pub div : F32 → F32 → F32
  pub rem : F32 → F32 → F32
  pub neg : F32 → F32
  pub abs : F32 → F32
  pub hypot : F32 → F32 → F32
  pub atan2 : F32 → F32 → F32
  pub powf : F32 → F32 → F32
  pub powi : F32 → ℤ → F32
  pub exp : F32 → F32
  pub pi : F32
  pub float_lt : F32 → F32 → Bool
  pub float_le : F32 → F32 → Bool
  pub float_eq : F32 → F32 → Bool
  pub is_finite : F32 → Bool
  -- `f32::clamp x min max`.
  pub clamp : F32 → F32 → F32 → F32
  -- `evdev::KeyCode`, a newtype of `u16`.
  pub KeyCode : Type 0
  pub new_key : ℕ → KeyCode
  pub code : KeyCode → ℕ
  pub new_key-code : (k : KeyCode) → new_key (code k) ≡ k
  pub code-new_key : (n : ℕ) → n < 2 ^ 16 → code (new_key n) ≡ n
  pub key_leftshift : KeyCode
  pub key_rightshift : KeyCode

-- `IndexMap<K, V>`: a map that iterates its entries in the order of insertion. `insert` of a key
-- that is there keeps its place; `shift_remove` keeps the order of the others.
pub record IndexMap (K V : Type 0) ⦃e : Eq K⦄ : Type 1 where
  pub Map : Type 0
  pub new : Map
  pub get : Map → K → Option V
  pub insert : Map → K → V → Map
  pub shift_remove : Map → K → Map
  pub entries : Map → List (K × V)
  pub entries-new : entries new ≡ []
  pub get-entries : (m : Map) (k : K) → get m k ≡ Assoc.get (entries m) k
  pub entries-insert :
      (m : Map) (k : K) (v : V) → entries (insert m k v) ≡ Assoc.insert (entries m) k v
  pub entries-shift_remove :
      (m : Map) (k : K) → entries (shift_remove m k) ≡ Assoc.shift_remove (entries m) k

-- The list of the entries is such a map.
abbrev pub assoc_map : {K V : Type 0} ⦃e : Eq K⦄ → IndexMap K V
assoc_map {K} {V} = record {
  Map = List (K × V);
  new = [];
  get = Assoc.get;
  insert = Assoc.insert;
  shift_remove = Assoc.shift_remove;
  entries = λ m. m;
  entries-new = refl;
  get-entries = λ m k. refl;
  entries-insert = λ m k v. refl;
  entries-shift_remove = λ m k. refl;
}

-- What `get` reads after a write.
module _ {K V : Type 0} ⦃e : Eq K⦄ (m : IndexMap K V) where
  open m use {Map, get, insert, shift_remove}

  pub get-insert :
      (t : Map) (k j : K) (v : V) → get (insert t k v) j ≡ (if k == j then some v else get t j)
  get-insert t k j v =
      rw (m.get-entries (insert t k v) j, m.get-entries t j, m.entries-insert t k v)
        (Assoc.get-insert (m.entries t) k j v)

  pub get-shift_remove :
      (t : Map) (k j : K) → get (shift_remove t k) j ≡ (if k == j then none else get t j)
  get-shift_remove t k j =
      rw (m.get-entries (shift_remove t k) j, m.get-entries t j, m.entries-shift_remove t k)
        (Assoc.get-shift_remove (m.entries t) k j)

  pub get-new : (k : K) → get m.new k ≡ none
  unfolding Assoc.get
  get-new k = rw (m.get-entries m.new k, m.entries-new)

  -- A new key adds an entry.
  pub length-insert :
      (t : Map) (k : K) (v : V)
      → get t k ≡ none
      → length (m.entries (insert t k v)) ≡ suc (length (m.entries t))
  length-insert t k v h =
      rw (m.entries-insert t k v)
        (Assoc.length-insert (m.entries t) k v (sym (m.get-entries t k) ∙ h))
