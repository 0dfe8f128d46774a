-- ===== src/Update/Order.antt =====
-- The order that `compareVersions` puts versions in.
use leave_safe.Prelude.{
  ℕ, Bool, true, false, ◌&&◌, ◌||◌, not, ◌≡◌, refl, List, [], ◌∷◌, Bytes, arith, ltb, ◌==◌,
}
use leave_safe.Auth.Policy.{ℤ}
use leave_safe.Update.{
  first_difference, or_else, is_positive, int_sub, by_suffix, sorts_after, compare_versions,
  version_parts, has_prerelease,
}

-- Whether the first difference of two versions, part by part, is in favour of the first.
higher : List ℕ → List ℕ → Bool
higher [] [] = false
higher [] (y ∷ ys) = 0 == y && higher [] ys
higher (x ∷ xs) [] = ltb 0 x || (x == 0 && higher xs [])
higher (x ∷ xs) (y ∷ ys) = ltb y x || (x == y && higher xs ys)

level : List ℕ → List ℕ → Bool
unfolding higher
level xs ys = not (higher xs ys) && not (higher ys xs)

higher_asym : (xs ys : List ℕ) → (higher xs ys && higher ys xs) ≡ false
unfolding higher
higher_asym [] [] = refl
higher_asym [] (y ∷ ys) = ground (arith, higher_asym [] ys)
higher_asym (x ∷ xs) [] = ground (arith, higher_asym xs [])
higher_asym (x ∷ xs) (y ∷ ys) = ground (arith, higher_asym xs ys)

-- What is higher than a third version is higher than a second, or that is higher than the third.
higher_between : (xs ys zs : List ℕ) → (not (higher xs zs) || higher xs ys || higher ys zs) ≡ true
unfolding higher
higher_between [] [] [] = refl
higher_between [] [] (z ∷ zs) = ground (arith, higher_between [] [] zs)
higher_between [] (y ∷ ys) [] = refl
higher_between [] (y ∷ ys) (z ∷ zs) = ground (arith, higher_between [] ys zs)
higher_between (x ∷ xs) [] [] = ground (arith, higher_between xs [] [])
higher_between (x ∷ xs) [] (z ∷ zs) = ground (arith, higher_between xs [] zs)
higher_between (x ∷ xs) (y ∷ ys) [] = ground (arith, higher_between xs ys [])
higher_between (x ∷ xs) (y ∷ ys) (z ∷ zs) = ground (arith, higher_between xs ys zs)

int_sub_positive : (x y : ℕ) → (x == y) ≡ false → is_positive (int_sub x y) ≡ ltb y x
unfolding is_positive int_sub
int_sub_positive x y n = ground arith

first_difference_positive :
    (xs ys : List ℕ) (z : ℤ)
    → is_positive (or_else (first_difference xs ys) z)
      ≡ (higher xs ys || (level xs ys && is_positive z))
unfolding first_difference or_else higher level
first_difference_positive [] [] z = refl
first_difference_positive [] (y ∷ ys) z =
    ground (arith, first_difference_positive [] ys z, int_sub_positive 0 y)
first_difference_positive (x ∷ xs) [] z =
    ground (arith, first_difference_positive xs [] z, int_sub_positive x 0)
first_difference_positive (x ∷ xs) (y ∷ ys) z =
    ground (arith, first_difference_positive xs ys z, int_sub_positive x y)

by_suffix_positive : (a b : Bool) → is_positive (by_suffix a b) ≡ (not a && b)
unfolding is_positive by_suffix
by_suffix_positive true true = refl
by_suffix_positive true false = refl
by_suffix_positive false true = refl
by_suffix_positive false false = refl

sorts_after_lem :
    (a b : Bytes)
    → sorts_after a b ≡ (
        higher (version_parts a) (version_parts b)
        || (level (version_parts a) (version_parts b)
            && (not (has_prerelease a) && has_prerelease b)))
unfolding sorts_after compare_versions
sorts_after_lem a b =
    rw
      (
        first_difference_positive (version_parts a) (version_parts b)
            (by_suffix (has_prerelease a) (has_prerelease b)),
        by_suffix_positive (has_prerelease a) (has_prerelease b),
      )
      refl

pub sorts_after_asym : (a b : Bytes) → (sorts_after a b && sorts_after b a) ≡ false
unfolding level
sorts_after_asym a b = ground (
  arith,
  sorts_after_lem a b,
  sorts_after_lem b a,
  higher_asym (version_parts a) (version_parts b),
)

-- What sorts after a third version sorts after a second, or that sorts after the third.
pub sorts_after_between :
    (a b c : Bytes) → (not (sorts_after a c) || sorts_after a b || sorts_after b c) ≡ true
unfolding level
sorts_after_between a b c =
    let x = version_parts a in
    let y = version_parts b in
    let z = version_parts c in
    ground (
      arith,
      sorts_after_lem a b,
      sorts_after_lem b c,
      sorts_after_lem a c,
      higher_between x y z,
      higher_between z y x,
      higher_between x z y,
      higher_between y x z,
      higher_between z x y,
      higher_between y z x,
    )
