-- ===== src/World/Ether.antt =====
-- include/seed/EnvironmentEther.h and src/EnvironmentEther.cpp: the four ether values of the field.
use seed_origin.Base.{
  ℕ, Bool, not, ◌||◌, List, Option, none, some, if◌then◌else◌, bytes_eq, codes, is_some, Result, ok,
  err,
}
use seed_origin.World.Float.{FloatOps}

pub data EtherAttribute : Type 0 where
  fire water earth air : EtherAttribute

pub record EnvironmentEther (F : Type 0) : Type 0 where
  pub fire_value : F
  pub water_value : F
  pub earth_value : F
  pub air_value : F

-- `attributeForElement`; `none` where it returns false.
abbrev pub attribute_for_element : List ℕ → Option EtherAttribute
attribute_for_element e =
    if bytes_eq e (codes "fire")
    then some fire
    else if bytes_eq e (codes "water")
    then some water
    else if bytes_eq e (codes "earth")
    then some earth
    else if bytes_eq e (codes "air")
    then some air
    else none

abbrev pub is_known_element : List ℕ → Bool
is_known_element e = is_some (attribute_for_element e)

abbrev pub opposing : EtherAttribute → EtherAttribute
opposing fire = water
opposing water = fire
opposing earth = air
opposing air = earth

module _ {F : Type 0} where
  abbrev pub value : EnvironmentEther F → EtherAttribute → F
  value e fire = e.fire_value
  value e water = e.water_value
  value e earth = e.earth_value
  value e air = e.air_value

  abbrev pub put_value : EnvironmentEther F → EtherAttribute → F → EnvironmentEther F
  put_value e fire v = record e { fire_value = v }
  put_value e water v = record e { water_value = v }
  put_value e earth v = record e { earth_value = v }
  put_value e air v = record e { air_value = v }

module _ {F : Type 0} (fl : FloatOps F) where
  abbrev pub fzero : F
  fzero = fl.lit 0 1

  -- `std::min(a, b)` and `std::max(a, b)`
  abbrev pub fmin : F → F → F
  fmin a b = if fl.fltb b a then b else a

  abbrev pub fmax : F → F → F
  fmax a b = if fl.fltb a b then b else a

  abbrev pub max_ether_value : F
  max_ether_value = fl.lit 100000 1

  abbrev pub ether_decay_factor : F
  ether_decay_factor = fl.lit 98 100

  abbrev pub no_ether : EnvironmentEther F
  no_ether = record {
    fire_value = fzero;
    water_value = fzero;
    earth_value = fzero;
    air_value = fzero;
  }

  unfoldable pub conductivity : EnvironmentEther F → EtherAttribute → F
  conductivity e a =
      fl.fadd (fl.lit 1 1) (fmin (fl.fdiv (fl.fabs (value e a)) (fl.lit 100 1)) (fl.lit 1 1))

  unfoldable pub instability : EnvironmentEther F → F
  instability e =
      let t0 = fl.fadd fzero (fl.fabs e.fire_value) in
      let t1 = fl.fadd t0 (fl.fabs e.water_value) in
      let t2 = fl.fadd t1 (fl.fabs e.earth_value) in
      let t3 = fl.fadd t2 (fl.fabs e.air_value) in fmin (fl.fdiv t3 (fl.lit 200 1)) (fl.lit 10 1)

  unfoldable pub adverse_effect_severity : EnvironmentEther F → F
  unfolding instability
  adverse_effect_severity e = fmax fzero (fl.fsub (instability e) (fl.lit 1 1))

  abbrev pub has_adverse_effect : EnvironmentEther F → Bool
  has_adverse_effect e = fl.fltb fzero (adverse_effect_severity e)

  -- `none` where it returns false, which leaves the values as they were.
  unfoldable pub add : EnvironmentEther F → EtherAttribute → F → Option (EnvironmentEther F)
  add e a amount =
      if not (fl.is_finite amount)
      then none
      else some (
          put_value e a
            (fmax (fl.fneg max_ether_value) (fmin max_ether_value (fl.fadd (value e a) amount))))

  -- `resolveSpell` behind the lookup of the element.
  abbrev resolve_known : EnvironmentEther F → EtherAttribute → F → EnvironmentEther F × Result F
  resolve_known e a base_power =
      let effective_power = fl.fmul base_power (conductivity e a) in
      let influence = fl.fmul base_power (fl.lit 1 10) in
      if not (fl.is_finite base_power) || fl.fleb base_power fzero
      then (e, err "spell power is invalid")
      else if not (fl.is_finite effective_power)
      then (e, err "spell effective power is invalid")
      else elim (add e a influence) [
        | none ↦ (e, err "spell ether influence is invalid")
        | some e1 ↦ elim (add e1 (opposing a) (fl.fmul (fl.fneg influence) (fl.lit 25 100))) [
          | none ↦ (e1, err "spell ether interaction is invalid")
          | some e2 ↦ (e2, ok effective_power)
        ]
      ]

  -- The ether afterwards, and the effective power.
  unfoldable pub resolve_spell : EnvironmentEther F → List ℕ → F → EnvironmentEther F × Result F
  unfolding add conductivity
  resolve_spell e element base_power = elim (attribute_for_element element) [
    | none ↦ (e, err "spell element is unknown")
    | some a ↦ resolve_known e a base_power
  ]

  unfoldable pub decay : EnvironmentEther F → EnvironmentEther F
  decay e = record {
    fire_value = fl.fmul e.fire_value ether_decay_factor;
    water_value = fl.fmul e.water_value ether_decay_factor;
    earth_value = fl.fmul e.earth_value ether_decay_factor;
    air_value = fl.fmul e.air_value ether_decay_factor;
  }
