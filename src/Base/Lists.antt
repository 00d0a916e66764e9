-- ===== src/Base/Lists.antt =====
-- Lists measured by native numbers, predicates on all entries, and membership by a test.
use Prim.Native.Nat.{ℕ, suc, ◌+◌}
use Prim.Native.String.{String}
use mathlib.Core.Path.{◌≡◌}
use mathlib.Core.Logic.{◌≢◌, ◌⊎◌, inl, inr}
use mathlib.Core.Bool.{Bool, false, ◌||◌}
use mathlib.Core.List.{List, [], ◌∷◌, ◌++◌}
use native.Mathlib.Omega.{arith}
use text.Mathlib.Text.{◌==◌ as str_eq}
use text.Mathlib.TextEquality.{eq_iff}

module _ {ℓ} {A : Type ℓ} where
  abbrev pub length : List A → ℕ
  length [] = 0
  length (x ∷ xs) = suc (length xs)

  pub length-append : (xs ys : List A) → length (xs ++ ys) ≡ length xs + length ys
  length-append [] ys = omega arith
  length-append (x ∷ xs) ys = omega (arith, length-append xs ys)

-- The predicate holds of every entry.
module _ {ℓ κ} {A : Type ℓ} (P : A → Type κ) where
  abbrev pub All : (entries : List A) → Type κ
  All [] = Unit
  All (entry ∷ entries) = P entry × All entries

  pub All-append : (front back : List A) → All front → All back → All (front ++ back)
  All-append [] back f b = b
  All-append (entry ∷ front) back f b = (f.0, All-append front back f.1 b)

pub All-map {ℓ κ μ} :
    {A : Type ℓ} (P : A → Type κ) (Q : A → Type μ) (entries : List A)
    → ((entry : A) → P entry → Q entry)
    → All P entries
    → All Q entries
All-map P Q [] f h = tt
All-map P Q (entry ∷ entries) f h = (f entry h.0, All-map P Q entries f h.1)

-- Some entry satisfies the predicate.
abbrev pub Any {ℓ} : {A : Type ℓ} → (A → Type 0) → List A → Type 0
Any P [] = ⊥
Any P (x ∷ xs) = P x ⊎ Any P xs

-- `xs.includes(x)` on strings.
unfoldable pub includes : List String → String → Bool
includes [] x = false
includes (y ∷ ys) x = str_eq y x || includes ys x

-- `x` is none of the entries.
abbrev pub Avoids : String → List String → Type 0
Avoids x = All (λ y. y ≢ x)

pub includes-Avoids : (xs : List String) (x : String) → includes xs x ≡ false → Avoids x xs
unfolding includes
includes-Avoids [] x h = tt
includes-Avoids (y ∷ ys) x h = ground (arith, eq_iff y x, includes-Avoids ys x)

-- No entry occurs twice.
abbrev pub Distinct : List String → Type 0
Distinct [] = Unit
Distinct (x ∷ xs) = Avoids x xs × Distinct xs

pub Distinct-snoc :
    (xs : List String) (x : String) → Distinct xs → Avoids x xs → Distinct (xs ++ x ∷ [])
Distinct-snoc [] x d a = (tt, tt)
Distinct-snoc (y ∷ ys) x d a =
    (All-append (λ z. z ≢ y) ys (x ∷ []) d.0 ((λ e. a.0 (sym' e)), tt), Distinct-snoc ys x d.1 a.1)
  where
    sym' : x ≡ y → y ≡ x
    sym' e = cc

pub Any-map {ℓ} :
    {A : Type ℓ} (P Q : A → Type 0) (xs : List A) → ((x : A) → P x → Q x) → Any P xs → Any Q xs
Any-map P Q [] f h = h
Any-map P Q (x ∷ xs) f (inl p) = inl (f x p)
Any-map P Q (x ∷ xs) f (inr h) = inr (Any-map P Q xs f h)
