-- ===== src/Base/Maps.antt =====
-- std::map and std::set as association lists in key order, over any type of keys with an order.
use mathlib.Core.Path.{◌≡◌, refl}
use mathlib.Core.Logic.{◌↔◌}
use mathlib.Core.Bool.{Bool, true, false}
use mathlib.Core.Option.{Option, none, some}
use mathlib.Core.List.{List, [], ◌∷◌}
use native.Mathlib.Omega.{arith}
use Prim.Native.Nat.{ℕ}
use seed_origin.Base.Tests.{ltb, ◌==◌, if◌then◌else◌, is_some, ==_iff}
use seed_origin.Base.Int.{ℤ, eqb_ℤ, ltb_ℤ, eqb_ℤ_iff}

-- What `std::less` gives a key type.
pub record Key {ℓ} (K : Type ℓ) : Type ℓ where
  pub eqb : K → K → Bool
  pub less : K → K → Bool
  pub eqb_iff : (a b : K) → (eqb a b ≡ true) ↔ (a ≡ b)
  pub less_irrefl : (a : K) → less a a ≡ false
  pub less_trans : (a b c : K) → less a b ≡ true → less b c ≡ true → less a c ≡ true
  pub less_total : (a b : K) → eqb a b ≡ false → less a b ≡ false → less b a ≡ true

-- What makes each order strict and total.
pub ltb_self : (n : ℕ) → ltb n n ≡ false
ltb_self n = ground arith

pub ltb_chain : (m n : ℕ) → ltb m n ≡ true → (o : ℕ) → ltb n o ≡ true → ltb m o ≡ true
ltb_chain m n h o k = ground arith

pub ltb_other : (m n : ℕ) → (m == n) ≡ false → ltb m n ≡ false → ltb n m ≡ true
ltb_other m n h k = ground arith

pub ltb_ℤ_self : (n : ℤ) → ltb_ℤ n n ≡ false
ltb_ℤ_self n = ground arith

pub ltb_ℤ_chain : (m n : ℤ) → ltb_ℤ m n ≡ true → (o : ℤ) → ltb_ℤ n o ≡ true → ltb_ℤ m o ≡ true
ltb_ℤ_chain m n h o k = ground arith

pub ltb_ℤ_other : (m n : ℤ) → eqb_ℤ m n ≡ false → ltb_ℤ m n ≡ false → ltb_ℤ n m ≡ true
ltb_ℤ_other m n h k = ground arith

instance abbrev pub ℕ_key : Key ℕ
ℕ_key = record {
  eqb = ◌==◌;
  less = ltb;
  eqb_iff = ==_iff;
  less_irrefl = ltb_self;
  less_trans = λ m n o h k. ltb_chain m n h o k;
  less_total = ltb_other;
}

instance abbrev pub ℤ_key : Key ℤ
ℤ_key = record {
  eqb = eqb_ℤ;
  less = ltb_ℤ;
  eqb_iff = eqb_ℤ_iff;
  less_irrefl = ltb_ℤ_self;
  less_trans = λ m n o h k. ltb_ℤ_chain m n h o k;
  less_total = ltb_ℤ_other;
}

-- An entry list, as `std::map<K, V>` iterates over it.
abbrev pub Map {ℓ κ} : Type ℓ → Type κ → Type (ℓ ⊔ κ)
Map K V = List (K × V)

pub eqb_refl {ℓ} : {K : Type ℓ} ⦃o : Key K⦄ (k : K) → o.eqb k k ≡ true
eqb_refl ⦃o⦄ k = (o.eqb_iff k k).1 refl

module _ {ℓ κ} {K : Type ℓ} {V : Type κ} ⦃o : Key K⦄ where
  -- `m.find(k)`
  unfoldable pub lookup : K → Map K V → Option V
  lookup k [] = none
  lookup k ((j, v) ∷ m) = if o.eqb k j then some v else lookup k m

  -- `m.find(k) != m.end()`
  abbrev pub has : K → Map K V → Bool
  has k m = is_some (lookup k m)

  -- `m[k] = v`
  unfoldable pub insert : K → V → Map K V → Map K V
  insert k v [] = (k, v) ∷ []
  insert k v ((j, w) ∷ m) =
      if o.eqb k j
      then (k, v) ∷ m
      else if o.less k j
      then (k, v) ∷ (j, w) ∷ m
      else (j, w) ∷ insert k v m

  -- `m.erase(k)`
  unfoldable pub erase : K → Map K V → Map K V
  erase k [] = []
  erase k ((j, w) ∷ m) = let rest = erase k m in if o.eqb k j then rest else (j, w) ∷ rest

  pub lookup-insert :
      (j k : K) (v : V) (m : Map K V)
      → lookup j (insert k v m) ≡ (if o.eqb j k then some v else lookup j m)
  unfolding lookup insert
  lookup-insert j k v [] = refl
  lookup-insert j k v ((i, w) ∷ m) =
      ground (arith, o.eqb_iff j k, o.eqb_iff k i, o.eqb_iff j i, lookup-insert j k v m)

  pub lookup-erase :
      (j k : K) (m : Map K V) → lookup j (erase k m) ≡ (if o.eqb j k then none else lookup j m)
  unfolding lookup erase
  lookup-erase j k [] = ground arith
  lookup-erase j k ((i, w) ∷ m) =
      ground (arith, o.eqb_iff j k, o.eqb_iff k i, o.eqb_iff j i, lookup-erase j k m)
