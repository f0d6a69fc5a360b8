-- ===== src/Base/Lists.antt =====
-- Lists of texts: membership tests, sets kept as lists, sorting, counting.
use Prim.Native.Nat.{ℕ, suc, ◌+◌, ◌≤◌}
use Prim.Native.String.{String}
use mathlib.Core.Path.{◌≡◌, refl}
use mathlib.Core.Bool.{Bool, true, false, ◌||◌}
use mathlib.Core.List.{List, [], ◌∷◌, ◌++◌}
use native.Mathlib.Omega.{arith}
use codex_sync.Base.Tests.{◌==◌, str_leb, if◌then◌else◌, ==_iff}

module _ {ℓ} {A : Type ℓ} where
  abbrev pub length : List A → ℕ
  length [] = 0
  length (x ∷ xs) = suc (length xs)

  -- `any(p(x) for x in xs)`
  unfoldable pub any : (A → Bool) → List A → Bool
  any p [] = false
  any p (x ∷ xs) = p x || any p xs

  -- `[x for x in xs if p(x)]`
  unfoldable pub keep_if : (A → Bool) → List A → List A
  keep_if p [] = []
  keep_if p (x ∷ xs) = let rest = keep_if p xs in if p x then x ∷ rest else rest

  abbrev pub All {κ} : (A → Type κ) → List A → Type κ
  All P [] = Unit
  All P (x ∷ xs) = P x × All P xs

  pub All-append {κ} : (P : A → Type κ) (xs ys : List A) → All P xs → All P ys → All P (xs ++ ys)
  All-append P [] ys hx hy = hy
  All-append P (x ∷ xs) ys (h, hx) hy = (h, All-append P xs ys hx hy)

  pub All-map {κ κ'} :
      {P : A → Type κ} {Q : A → Type κ'} (f : (x : A) → P x → Q x) (xs : List A)
      → All P xs
      → All Q xs
  All-map f [] h = tt
  All-map f (x ∷ xs) (h, hs) = (f x h, All-map f xs hs)

  pub All-keep_if {κ} :
      (P : A → Type κ) (p : A → Bool) (xs : List A) → All P xs → All P (keep_if p xs)
  unfolding keep_if
  All-keep_if P p [] h = tt
  All-keep_if P p (x ∷ xs) (h, hs) = ground (arith, All-keep_if P p xs hs)

-- `x in xs`
unfoldable pub contains : List String → String → Bool
contains [] a = false
contains (x ∷ xs) a = a == x || contains xs a

-- How often `a` occurs.
unfoldable pub count : String → List String → ℕ
count a [] = 0
count a (x ∷ xs) = (if a == x then 1 else 0) + count a xs

-- `set(xs)`, as a list without repetitions.
unfoldable pub dedupe : List String → List String
dedupe [] = []
dedupe (x ∷ xs) = let rest = dedupe xs in if contains rest x then rest else x ∷ rest

unfoldable pub insert_sorted : String → List String → List String
insert_sorted x [] = x ∷ []
insert_sorted x (y ∷ ys) =
    let rest = insert_sorted x ys in if str_leb x y then x ∷ y ∷ ys else y ∷ rest

-- `sorted(xs)`
unfoldable pub sorted : List String → List String
unfolding insert_sorted
sorted [] = []
sorted (x ∷ xs) = insert_sorted x (sorted xs)

pub count-append : (a : String) (xs ys : List String) → count a (xs ++ ys) ≡ count a xs + count a ys
unfolding count
count-append a [] ys = omega arith
count-append a (x ∷ xs) ys = omega (arith, count-append a xs ys)

pub contains-append :
    (xs ys : List String) (a : String) → contains (xs ++ ys) a ≡ (contains xs a || contains ys a)
unfolding contains
contains-append [] ys a = refl
contains-append (x ∷ xs) ys a = ground (arith, contains-append xs ys a)

pub count-contains : (a : String) (xs : List String) → contains xs a ≡ false → count a xs ≡ 0
unfolding count contains
count-contains a [] h = refl
count-contains a (x ∷ xs) h = ground (arith, count-contains a xs)

pub contains-count : (a : String) (xs : List String) → contains xs a ≡ true → 1 ≤ count a xs
unfolding count contains
contains-count a [] h = ground arith
contains-count a (x ∷ xs) h = ground (arith, contains-count a xs)

pub contains-dedupe : (xs : List String) (a : String) → contains (dedupe xs) a ≡ contains xs a
unfolding contains dedupe
contains-dedupe [] a = refl
contains-dedupe (x ∷ xs) a = ground (arith, contains-dedupe xs a, contains-dedupe xs x, ==_iff a x)

pub count-dedupe : (a : String) (xs : List String) → count a (dedupe xs) ≤ 1
unfolding count dedupe
count-dedupe a [] = omega arith
count-dedupe a (x ∷ xs) =
    ground (arith, count-dedupe a xs, count-contains a (dedupe xs), ==_iff a x)

count-insert_sorted :
    (a x : String) (xs : List String) → count a (insert_sorted x xs) ≡ count a (x ∷ xs)
unfolding count insert_sorted
count-insert_sorted a x [] = refl
count-insert_sorted a x (y ∷ ys) = ground (arith, count-insert_sorted a x ys)

pub count-sorted : (a : String) (xs : List String) → count a (sorted xs) ≡ count a xs
unfolding count sorted
count-sorted a [] = refl
count-sorted a (x ∷ xs) = ground (arith, count-insert_sorted a x (sorted xs), count-sorted a xs)

contains-insert_sorted :
    (x : String) (xs : List String) (a : String)
    → contains (insert_sorted x xs) a ≡ contains (x ∷ xs) a
unfolding contains insert_sorted
contains-insert_sorted x [] a = refl
contains-insert_sorted x (y ∷ ys) a = ground (arith, contains-insert_sorted x ys a)

pub contains-sorted : (xs : List String) (a : String) → contains (sorted xs) a ≡ contains xs a
unfolding contains sorted
contains-sorted [] a = refl
contains-sorted (x ∷ xs) a =
    ground (arith, contains-insert_sorted x (sorted xs) a, contains-sorted xs a)
