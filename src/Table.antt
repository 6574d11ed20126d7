-- ===== src/Table.antt =====
-- A `Map` with string keys, or an object store with a key path: its values in the order of
-- insertion, where a later value for a key takes the place of the earlier one.
use proofchain.Prelude.{
  if◌then◌else◌, Bool-cases, keep, find, All, All-keep, All-find, find-holds, Text, text_eq_iff,
  text_eq, ◌≡◌, inl, inr, Bool, true, not, Option, none, some, List, [], ◌∷◌, arith,
}

module _ {A : Type 0} (key : A → Text) where
  unfoldable pub get : List A → Text → Option A
  get m k = find (λ a. text_eq (key a) k) m

  unfoldable pub put : List A → A → List A
  put [] a = a ∷ []
  put (x ∷ m) a = let rest = x ∷ put m a in if text_eq (key x) (key a) then a ∷ m else rest

  unfoldable pub delete : List A → Text → List A
  delete m k = keep (λ a. not (text_eq (key a) k)) m

  pub get-put :
      (m : List A) (a : A) (k : Text)
      → get (put m a) k ≡ (if text_eq (key a) k then some a else get m k)
  unfolding get put
  get-put [] a k = ground arith
  get-put (x ∷ m) a k = ground (
    arith,
    text_eq_iff (key x) (key a),
    text_eq_iff (key x) k,
    text_eq_iff (key a) k,
    get-put m a k,
  )

  pub get-key : (m : List A) (k : Text) (a : A) → get m k ≡ some a → key a ≡ k
  unfolding get
  get-key m k a e = (text_eq_iff (key a) k).0 (find-holds (λ x. text_eq (key x) k) m a e)

  pub get-delete :
      (m : List A) (j k : Text) → get (delete m j) k ≡ (if text_eq j k then none else get m k)
  unfolding get delete
  get-delete [] j k = ground arith
  get-delete (x ∷ m) j k =
      ground
        (arith, text_eq_iff (key x) j, text_eq_iff (key x) k, text_eq_iff j k, get-delete m j k)

  -- A value that passes a test is found still, once the values that fail it are dropped.
  pub get-keep :
      (p : A → Bool) (m : List A) (k : Text) (a : A)
      → get m k ≡ some a
      → p a ≡ true
      → get (keep p m) k ≡ some a
  unfolding get
  get-keep p [] k a e h = cc
  get-keep p (x ∷ m) k a e h = ground (arith, get-keep p m k a)

  -- No value comes into a table but by `put`.
  pub All-put {κ} : (P : A → Type κ) (m : List A) (a : A) → P a → All P m → All P (put m a)
  unfolding put
  All-put P [] a h g = (h, tt)
  All-put P (x ∷ m) a h g = elim (Bool-cases (text_eq (key x) (key a))) [
    | inl same ↦ rw same (h, g.1)
    | inr other ↦ rw other (g.0, All-put P m a h g.1)
  ]

  pub All-get {κ} :
      (P : A → Type κ) (m : List A) (k : Text) (a : A) → All P m → get m k ≡ some a → P a
  unfolding get
  All-get P m k a h f = All-find P (λ x. text_eq (key x) k) m a h f

  pub All-delete {κ} : (P : A → Type κ) (m : List A) (k : Text) → All P m → All P (delete m k)
  unfolding delete
  All-delete P m k h = All-keep P (λ x. not (text_eq (key x) k)) m h
