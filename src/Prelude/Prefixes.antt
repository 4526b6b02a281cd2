-- ===== src/Prelude/Prefixes.antt =====
-- What stands after the first part of a list.
use Prim.Native.Nat.{suc, ◌+◌}
use mathlib.Core.Path.{◌≡◌, refl, ap, ◌∙◌}
use mathlib.Core.List.{List, [], ◌∷◌, ◌++◌}
use native.Mathlib.Omega.{arith}
use canboat_rs.Prelude.Lists.{length, take, drop, get_or}

module _ {ℓ} {A : Type ℓ} where
  pub take_prefix : (s t : List A) → take (length s) (s ++ t) ≡ s
  take_prefix [] t = refl
  take_prefix (x ∷ s) t = ap (λ r. x ∷ r) (take_prefix s t)

  pub drop_prefix : (s t : List A) → drop (length s) (s ++ t) ≡ t
  drop_prefix [] t = refl
  drop_prefix (x ∷ s) t = drop_prefix s t

  pub drop_prefix1 : (s : List A) (x : A) (t : List A) → drop (length s + 1) (s ++ x ∷ t) ≡ t
  drop_prefix1 [] x t = refl
  drop_prefix1 (y ∷ s) x t =
      let e : suc (length s) + 1 ≡ suc (length s + 1) = omega arith in
      ap (λ n. drop n (y ∷ s ++ x ∷ t)) e ∙ drop_prefix1 s x t

  pub drop_prefix2 : (s : List A) (x y : A) (t : List A) → drop (length s + 2) (s ++ x ∷ y ∷ t) ≡ t
  drop_prefix2 [] x y t = refl
  drop_prefix2 (z ∷ s) x y t =
      let e : suc (length s) + 2 ≡ suc (length s + 2) = omega arith in
      ap (λ n. drop n (z ∷ s ++ x ∷ y ∷ t)) e ∙ drop_prefix2 s x y t

  pub get_or_prefix :
      (s : List A) (x : A) (t : List A) (d : A) → get_or (s ++ x ∷ t) (length s) d ≡ x
  get_or_prefix [] x t d = refl
  get_or_prefix (y ∷ s) x t d = get_or_prefix s x t d

  pub get_or_prefix1 :
      (s : List A) (x y : A) (t : List A) (d : A) → get_or (s ++ x ∷ y ∷ t) (length s + 1) d ≡ y
  get_or_prefix1 [] x y t d = refl
  get_or_prefix1 (z ∷ s) x y t d =
      let e : suc (length s) + 1 ≡ suc (length s + 1) = omega arith in
      ap (λ n. get_or (z ∷ s ++ x ∷ y ∷ t) n d) e ∙ get_or_prefix1 s x y t d
