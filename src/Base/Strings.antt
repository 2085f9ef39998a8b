-- ===== src/Base/Strings.antt =====
-- `std::less` of std::string, which compares byte by byte, and maps with such keys.
use mathlib.Core.Path.{◌≡◌, refl}
use mathlib.Core.Bool.{Bool, true, false}
use mathlib.Core.List.{List, [], ◌∷◌}
use native.Mathlib.Omega.{arith}
use Prim.Native.Nat.{ℕ}
use seed_origin.Base.Tests.{ltb, ◌==◌, if◌then◌else◌}
use seed_origin.Base.Text.{bytes_eq, bytes_eq_iff}
use seed_origin.Base.Maps.{Key}

abbrev pub bytes_less : List ℕ → List ℕ → Bool
bytes_less [] [] = false
bytes_less [] (b ∷ bs) = true
bytes_less (a ∷ as') [] = false
bytes_less (a ∷ as') (b ∷ bs) =
    let rest = bytes_less as' bs in if ltb a b then true else if a == b then rest else false

pub bytes_less_self : (a : List ℕ) → bytes_less a a ≡ false
bytes_less_self [] = refl
bytes_less_self (x ∷ xs) = ground (arith, bytes_less_self xs)

pub bytes_less_chain :
    (a b c : List ℕ) → bytes_less a b ≡ true → bytes_less b c ≡ true → bytes_less a c ≡ true
bytes_less_chain [] [] c h k = cc
bytes_less_chain [] (y ∷ ys) [] h k = cc
bytes_less_chain [] (y ∷ ys) (z ∷ zs) h k = refl
bytes_less_chain (x ∷ xs) [] c h k = cc
bytes_less_chain (x ∷ xs) (y ∷ ys) [] h k = cc
bytes_less_chain (x ∷ xs) (y ∷ ys) (z ∷ zs) h k = ground (arith, bytes_less_chain xs ys zs)

pub bytes_less_other :
    (a b : List ℕ) → bytes_eq a b ≡ false → bytes_less a b ≡ false → bytes_less b a ≡ true
bytes_less_other [] [] h k = cc
bytes_less_other [] (y ∷ ys) h k = cc
bytes_less_other (x ∷ xs) [] h k = refl
bytes_less_other (x ∷ xs) (y ∷ ys) h k = ground (arith, bytes_less_other xs ys)

instance abbrev pub bytes_key : Key (List ℕ)
bytes_key = record {
  eqb = bytes_eq;
  less = bytes_less;
  eqb_iff = bytes_eq_iff;
  less_irrefl = bytes_less_self;
  less_trans = bytes_less_chain;
  less_total = bytes_less_other;
}
