-- ===== src/Prelude/Lists.antt =====
-- Lists measured and indexed by native numbers, under the library's names, and predicates on lists.
use Prim.Native.Nat.{ℕ, zero, suc, ◌+◌, ◌<◌}
use mathlib.Core.Path.{◌≡◌, refl, ap, subst}
use mathlib.Core.Bool.{Bool, true, false, not, ◌&&◌, ◌||◌}
use mathlib.Core.List.{List, [], ◌∷◌, ◌++◌, map}
use mathlib.Core.Option.{Option, none, some}
use native.Mathlib.Omega.{arith}
use mathlib.Core.Logic.{◌⊎◌, inl, inr}
use proofchain.Prelude.Tests.{if◌then◌else◌, Bool-cases}

module _ {ℓ} {A : Type ℓ} where
  abbrev pub length : List A → ℕ
  length [] = 0
  length (x ∷ xs) = suc (length xs)

  abbrev pub get_elem? : List A → ℕ → Option A
  get_elem? [] i = none
  get_elem? (x ∷ xs) zero = some x
  get_elem? (x ∷ xs) (suc i) = get_elem? xs i

  abbrev pub take : ℕ → List A → List A
  take zero xs = []
  take (suc n) [] = []
  take (suc n) (x ∷ xs) = x ∷ take n xs

  abbrev pub drop : ℕ → List A → List A
  drop zero xs = xs
  drop (suc n) [] = []
  drop (suc n) (x ∷ xs) = drop n xs

  abbrev pub replicate : ℕ → A → List A
  replicate zero a = []
  replicate (suc n) a = a ∷ replicate n a

  -- `xs.filter(p)`, `xs.every(p)`, `xs.some(p)`.
  abbrev pub keep : (A → Bool) → List A → List A
  keep p [] = []
  keep p (x ∷ xs) = let rest = keep p xs in if p x then x ∷ rest else rest

  abbrev pub every : (A → Bool) → List A → Bool
  every p [] = true
  every p (x ∷ xs) = p x && every p xs

  abbrev pub exists : (A → Bool) → List A → Bool
  exists p [] = false
  exists p (x ∷ xs) = p x || exists p xs

  -- `xs.find(p)`.
  abbrev pub find : (A → Bool) → List A → Option A
  find p [] = none
  find p (x ∷ xs) = let rest = find p xs in if p x then some x else rest

  abbrev pub All {κ} : (A → Type κ) → List A → Type κ
  All P [] = Unit
  All P (x ∷ xs) = P x × All P xs

  pub length-append : (xs ys : List A) → length (xs ++ ys) ≡ length xs + length ys
  length-append [] ys = omega arith
  length-append (x ∷ xs) ys = omega (arith, length-append xs ys)

  pub append_split : (a b c d : List A) → length a ≡ length c → a ++ b ≡ c ++ d → (a ≡ c) × (b ≡ d)
  append_split [] b [] d l e = (refl, e)
  append_split [] b (y ∷ c) d l e = absurd (omega arith)
  append_split (x ∷ a) b [] d l e = absurd (omega arith)
  append_split (x ∷ a) b (y ∷ c) d l e =
      let rest = append_split a b c d (omega arith) (cc) in (cc (rest.0), rest.1)

  pub cons_tail : {x y : A} {xs ys : List A} → x ∷ xs ≡ y ∷ ys → xs ≡ ys
  cons_tail e = cc

  pub get_elem?_total : (xs : List A) (i : ℕ) → i < length xs → (a : A) × (get_elem? xs i ≡ some a)
  get_elem?_total [] i h = elim h [ ]
  get_elem?_total (x ∷ xs) zero h = (x, refl)
  get_elem?_total (x ∷ xs) (suc i) h = get_elem?_total xs i (omega arith)

  pub some_injective : {a b : A} → some a ≡ some b → a ≡ b
  some_injective e = cc

  pub get_elem?-lt : (xs : List A) (i : ℕ) {a : A} → get_elem? xs i ≡ some a → i < length xs
  get_elem?-lt [] i e = cc
  get_elem?-lt (x ∷ xs) zero e = omega arith
  get_elem?-lt (x ∷ xs) (suc i) e = omega (arith, get_elem?-lt xs i e)

  pub All-get_elem? {κ} :
      (P : A → Type κ) (xs : List A) (i : ℕ) {a : A} → All P xs → get_elem? xs i ≡ some a → P a
  All-get_elem? P [] i h e = cc
  All-get_elem? P (x ∷ xs) zero h e = rw (← some_injective e) h.0
  All-get_elem? P (x ∷ xs) (suc i) h e = All-get_elem? P xs i h.1 e

  -- Some element has it.
  abbrev pub Any : (A → Type 0) → List A → Type 0
  Any P [] = ⊥
  Any P (x ∷ xs) = P x ⊎ Any P xs

  pub Any-map : {P Q : A → Type 0} (f : (a : A) → P a → Q a) (xs : List A) → Any P xs → Any Q xs
  Any-map f [] h = absurd h
  Any-map f (x ∷ xs) (inl h) = inl (f x h)
  Any-map f (x ∷ xs) (inr h) = inr (Any-map f xs h)

  pub All-map {κ} : {P Q : A → Type κ} (f : (a : A) → P a → Q a) (xs : List A) → All P xs → All Q xs
  All-map f [] h = tt
  All-map f (x ∷ xs) h = (f x h.0, All-map f xs h.1)

  pub All-zip {κ} :
      {P Q R : A → Type κ} (f : (a : A) → P a → Q a → R a) (xs : List A)
      → All P xs
      → All Q xs
      → All R xs
  All-zip f [] h k = tt
  All-zip f (x ∷ xs) h k = (f x h.0 k.0, All-zip f xs h.1 k.1)

  pub every-All : (p : A → Bool) (xs : List A) → every p xs ≡ true → All (λ x. p x ≡ true) xs
  every-All p [] h = tt
  every-All p (x ∷ xs) h = (ground arith, every-All p xs (ground arith))

  pub All-every : (p : A → Bool) (xs : List A) → All (λ x. p x ≡ true) xs → every p xs ≡ true
  All-every p [] h = refl
  All-every p (x ∷ xs) h = rw h.0 (All-every p xs h.1)

  abbrev pub first_some : Option A → Option A → Option A
  first_some none o = o
  first_some (some a) o = some a

  pub find-append :
      (p : A → Bool) (xs ys : List A) → find p (xs ++ ys) ≡ first_some (find p xs) (find p ys)
  find-append p [] ys = refl
  find-append p (x ∷ xs) ys = ground (arith, find-append p xs ys)

  pub All-keep-cons {κ} :
      (P : A → Type κ) (p : A → Bool) (x : A) (xs : List A)
      → (p x ≡ true → P x)
      → All P (keep p xs)
      → All P (keep p (x ∷ xs))
  All-keep-cons P p x xs h t = elim (Bool-cases (p x)) [
    | inl yes_p ↦ rw yes_p (h yes_p, t)
    | inr no_p ↦ rw no_p t
  ]

  pub All-keep-head {κ} :
      (P : A → Type κ) (p : A → Bool) (x : A) (xs : List A)
      → All P (keep p (x ∷ xs))
      → p x ≡ true
      → P x
  All-keep-head P p x xs h e = (rw e at h).0

  pub All-keep-tail {κ} :
      (P : A → Type κ) (p : A → Bool) (x : A) (xs : List A)
      → All P (keep p (x ∷ xs))
      → All P (keep p xs)
  All-keep-tail P p x xs h = elim (Bool-cases (p x)) [
    | inl yes_p ↦ (rw yes_p at h).1
    | inr no_p ↦ rw no_p at h
  ]

  pub All-keep {κ} : (P : A → Type κ) (p : A → Bool) (xs : List A) → All P xs → All P (keep p xs)
  All-keep P p [] h = tt
  All-keep P p (x ∷ xs) h = elim (Bool-cases (p x)) [
    | inl kept ↦ rw kept (h.0, All-keep P p xs h.1)
    | inr dropped ↦ rw dropped (All-keep P p xs h.1)
  ]

  -- What is kept passes the test.
  pub All-kept {κ} :
      (P : A → Type κ) (p : A → Bool) (xs : List A)
      → All (λ x. p x ≡ true → P x) xs
      → All P (keep p xs)
  All-kept P p [] h = tt
  All-kept P p (x ∷ xs) h = elim (Bool-cases (p x)) [
    | inl kept ↦ rw kept (h.0 kept, All-kept P p xs h.1)
    | inr dropped ↦ rw dropped (All-kept P p xs h.1)
  ]

  pub All-every_one {κ} : (P : A → Type κ) (f : (a : A) → P a) (xs : List A) → All P xs
  All-every_one P f [] = tt
  All-every_one P f (x ∷ xs) = (f x, All-every_one P f xs)

  pub All-snoc {κ} : (P : A → Type κ) (xs : List A) (a : A) → All P xs → P a → All P (xs ++ a ∷ [])
  All-snoc P [] a h k = (k, tt)
  All-snoc P (x ∷ xs) a h k = (h.0, All-snoc P xs a h.1 k)

  pub All-append {κ} : (P : A → Type κ) (xs ys : List A) → All P xs → All P ys → All P (xs ++ ys)
  All-append P [] ys h k = k
  All-append P (x ∷ xs) ys h k = (h.0, All-append P xs ys h.1 k)

  pub All-find {κ} :
      (P : A → Type κ) (p : A → Bool) (xs : List A) (a : A) → All P xs → find p xs ≡ some a → P a
  All-find P p [] a h f = cc
  All-find P p (x ∷ xs) a h f = elim (Bool-cases (p x)) [
    | inl own ↦ subst P (some_injective (rw own at f)) h.0
    | inr other ↦ All-find P p xs a h.1 (rw other at f)
  ]

  -- What is kept and what is not make up the whole.
  pub length-keep :
      (p : A → Bool) (xs : List A)
      → length (keep (λ x. not (p x)) xs) + length (keep p xs) ≡ length xs
  length-keep p [] = omega arith
  length-keep p (x ∷ xs) = ground (arith, length-keep p xs)

  keep_le : (p : A → Bool) (xs : List A) → length (keep p xs) < suc (length xs)
  keep_le p [] = omega arith
  keep_le p (x ∷ xs) = ground (arith, keep_le p xs)

  -- A filter that drops none changes nothing.
  pub keep_whole : (p : A → Bool) (xs : List A) → length (keep p xs) ≡ length xs → keep p xs ≡ xs
  keep_whole p [] h = refl
  keep_whole p (x ∷ xs) h = elim (Bool-cases (p x)) [
    | inl kept ↦
        let tail : length (keep p xs) ≡ length xs = ground arith in
        rw kept (ap (λ ys. x ∷ ys) (keep_whole p xs tail))
    | inr dropped ↦ absurd (ground (arith, keep_le p xs))
  ]

  pub exists-none : (p : A → Bool) (xs : List A) → exists p xs ≡ false → All (λ x. p x ≡ false) xs
  exists-none p [] h = tt
  exists-none p (x ∷ xs) h = (ground arith, exists-none p xs (ground arith))

  pub exists-keep :
      (p q : A → Bool) (xs : List A) → exists q (keep p xs) ≡ exists (λ x. p x && q x) xs
  exists-keep p q [] = refl
  exists-keep p q (x ∷ xs) = ground (arith, exists-keep p q xs)

  pub exists-found :
      (p q : A → Bool) (xs : List A) (a : A) → find p xs ≡ some a → q a ≡ true → exists q xs ≡ true
  exists-found p q [] a h k = cc
  exists-found p q (x ∷ xs) a h k = ground (arith, exists-found p q xs a)

  pub find-holds : (p : A → Bool) (xs : List A) (a : A) → find p xs ≡ some a → p a ≡ true
  find-holds p [] a h = cc
  find-holds p (x ∷ xs) a h = ground (arith, find-holds p xs a)

pub length-map {ℓ κ} :
    {A : Type ℓ} {B : Type κ} (f : A → B) (xs : List A) → length (map f xs) ≡ length xs
length-map f [] = refl
length-map f (x ∷ xs) = ap suc (length-map f xs)

pub All-mapped {ℓ κ μ} :
    {A : Type ℓ} {B : Type κ} (P : B → Type μ) (f : A → B) (xs : List A)
    → All (λ x. P (f x)) xs
    → All P (map f xs)
All-mapped P f [] h = tt
All-mapped P f (x ∷ xs) h = (h.0, All-mapped P f xs h.1)

pub exists-map {ℓ κ} :
    {A : Type ℓ} {B : Type κ} (q : B → Bool) (f : A → B) (xs : List A)
    → exists q (map f xs) ≡ exists (λ x. q (f x)) xs
exists-map q f [] = refl
exists-map q f (x ∷ xs) = ap (λ (r : Bool). q (f x) || r) (exists-map q f xs)

pub get_elem?-map {ℓ κ} :
    {A : Type ℓ} {B : Type κ} (f : A → B) (xs : List A) (i : ℕ) {a : A}
    → get_elem? xs i ≡ some a
    → get_elem? (map f xs) i ≡ some (f a)
get_elem?-map f [] i h = cc
get_elem?-map f (x ∷ xs) zero h = cc
get_elem?-map f (x ∷ xs) (suc i) h = get_elem?-map f xs i h
