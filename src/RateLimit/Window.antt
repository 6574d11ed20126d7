-- ===== src/RateLimit/Window.antt =====
-- Within one window a key is admitted as often as its limit, and no more.
use proofchain.Prelude.{
  leb, if◌then◌else◌, Bool-cases, Option-cases, length, keep, All, Text, text_eq_iff, text_eq, ℕ,
  suc, ◌+◌, ◌-◌, ◌*◌, ◌≤◌, ◌<◌, ◌≡◌, refl, sym, ap, subst, ◌∙◌, inl, inr, Bool, true, false, not,
  ◌&&◌, Option, some, List, [], ◌∷◌, arith,
}
use proofchain.Table.{get, get-put, get-keep, get-key}
use proofchain.RateLimit.{
  Bucket, RateLimitOptions, Request, Verdict, admit, allowed, bucket_key, can_activate, count_in,
  exceeded, key_of, maybe_evict_expired, open_window,
}

-- A request with what the guard is given besides.
pub record GuardCall : Type 0 where
  pub options : Option RateLimitOptions
  pub rolled : Bool
  pub now : ℕ
  pub request : Request

unfoldable pub guard_step : List Bucket → GuardCall → List Bucket × Verdict
guard_step buckets c = can_activate c.options c.rolled c.now c.request buckets

abbrev is_allowed : Verdict → Bool
is_allowed allowed = true
is_allowed exceeded = false

abbrev pub asks_for : Text → GuardCall → Bool
asks_for k c = text_eq (bucket_key c.request) k

-- How many of the calls with the key `k` are let through.
unfoldable pub count_allowed : Text → List Bucket → List GuardCall → ℕ
count_allowed k buckets [] = 0
count_allowed k buckets (c ∷ cs) =
    let rest = count_allowed k (guard_step buckets c).0 cs in
    if asks_for k c && is_allowed (guard_step buckets c).1 then suc rest else rest

abbrev pub calls_for : Text → List GuardCall → ℕ
calls_for k cs = length (keep (asks_for k) cs)

-- A bucket whose window runs survives the clean-up.
kept_running :
    (rolled : Bool) (now : ℕ) (m : List Bucket) (k : Text) (b : Bucket)
    → get key_of m k ≡ some b
    → now < b.reset_at
    → get key_of (maybe_evict_expired rolled now m) k ≡ some b
unfolding maybe_evict_expired
kept_running rolled now m k b f running =
    ground (arith, get-keep key_of (λ (x : Bucket). not (leb x.reset_at now)) m k b)

opened_elsewhere :
    (o : RateLimitOptions) (rolled : Bool) (now : ℕ) (key : Text) (m : List Bucket) (k : Text)
    (b : Bucket)
    → text_eq key k ≡ false
    → get key_of m k ≡ some b
    → now < b.reset_at
    → get key_of (open_window o rolled now key m) k ≡ some b
unfolding open_window
opened_elsewhere o rolled now key m k b other f running =
    kept_running rolled now _ k b
      (get-put key_of m (record { key = key; count = 1; reset_at = now + o.window_seconds * 1000 })
          k
        ∙ rw other f)
      running

counted_elsewhere :
    (o : RateLimitOptions) (x : Bucket) (m : List Bucket) (k : Text) (b : Bucket)
    → text_eq x.key k ≡ false
    → get key_of m k ≡ some b
    → get key_of (count_in o x m).0 k ≡ some b
unfolding count_in
counted_elsewhere o x m k b other f = elim (Bool-cases (leb o.limit x.count)) [
  | inl full ↦ rw full f
  | inr room ↦ rw room (get-put key_of m (record x { count = x.count + 1 }) k ∙ rw other f)
]

admitted_elsewhere :
    (o : RateLimitOptions) (rolled : Bool) (now : ℕ) (key : Text) (m : List Bucket) (k : Text)
    (b : Bucket)
    → text_eq key k ≡ false
    → get key_of m k ≡ some b
    → now < b.reset_at
    → get key_of (admit (get key_of m key) o rolled now key m).0 k ≡ some b
unfolding admit
admitted_elsewhere o rolled now key m k b other f running = elim (Option-cases (get key_of m key)) [
  | inl absent ↦ rw absent (opened_elsewhere o rolled now key m k b other f running)
  | inr (x, found) ↦ elim (Bool-cases (leb x.reset_at now)) [
    | inl past ↦ rw (found, past) (opened_elsewhere o rolled now key m k b other f running)
    | inr runs ↦
        rw (found, runs)
          (counted_elsewhere o x m k b
            (subst (λ t. text_eq t k ≡ false) (sym (get-key key_of m key x found)) other) f)
  ]
]

-- Another key leaves the bucket alone.
guard_other :
    (m : List Bucket) (c : GuardCall) (k : Text) (b : Bucket)
    → asks_for k c ≡ false
    → get key_of m k ≡ some b
    → c.now < b.reset_at
    → get key_of (guard_step m c).0 k ≡ some b
unfolding guard_step can_activate
guard_other m c k b other f running = elim (Option-cases c.options) [
  | inl free ↦ rw free f
  | inr (o, limited) ↦
      rw limited (admitted_elsewhere o c.rolled c.now (bucket_key c.request) m k b other f running)
]

admit_running :
    (o : RateLimitOptions) (rolled : Bool) (now : ℕ) (k : Text) (m : List Bucket) (b : Bucket)
    → get key_of m k ≡ some b
    → now < b.reset_at
    → admit (get key_of m k) o rolled now k m ≡ count_in o b m
unfolding admit
admit_running o rolled now k m b f running =
    let runs : leb b.reset_at now ≡ false = ground arith in rw (f, runs) refl

-- The key itself, while its window runs.
guard_own :
    (m : List Bucket) (c : GuardCall) (o : RateLimitOptions) (k : Text) (b : Bucket)
    → asks_for k c ≡ true
    → c.options ≡ some o
    → get key_of m k ≡ some b
    → c.now < b.reset_at
    → guard_step m c ≡ count_in o b m
unfolding guard_step can_activate
guard_own m c o k b own opts f running =
    let same = (text_eq_iff (bucket_key c.request) k).0 own in
    rw (opts, same) (admit_running o c.rolled c.now k m b f running)

counted_own :
    (o : RateLimitOptions) (b : Bucket) (m : List Bucket)
    → leb o.limit b.count ≡ false
    → (count_in o b m).1 ≡ allowed
      × (get key_of (count_in o b m).0 b.key ≡ some (record b { count = b.count + 1 }))
unfolding count_in
counted_own o b m room = rw room (
  refl,
  get-put key_of m (record b { count = b.count + 1 }) b.key
      ∙ rw ((text_eq_iff b.key b.key).1 refl) refl,
)

refused_own :
    (o : RateLimitOptions) (b : Bucket) (m : List Bucket)
    → leb o.limit b.count ≡ true
    → count_in o b m ≡ (m, exceeded)
unfolding count_in
refused_own o b m full = rw full refl

abbrev pub lesser : ℕ → ℕ → ℕ
lesser m n = if leb m n then m else n

abbrev pub Limits : RateLimitOptions → Text → GuardCall → Type 0
Limits o k c = asks_for k c ≡ true → c.options ≡ some o

counted_key :
    (o : RateLimitOptions) (k : Text) (m : List Bucket) (b : Bucket)
    → get key_of m k ≡ some b
    → leb o.limit b.count ≡ false
    → (count_in o b m).1 ≡ allowed
      × (get key_of (count_in o b m).0 k ≡ some (record b { count = b.count + 1 }))
counted_key o k m b f room =
    let went = counted_own o b m room in
    (
      went.0,
      subst (λ t. get key_of (count_in o b m).0 t ≡ some (record b { count = b.count + 1 }))
          (get-key key_of m k b f) went.1,
    )

-- What a running window still allows.
running_window :
    (o : RateLimitOptions) (k : Text) (m : List Bucket) (b : Bucket) (cs : List GuardCall)
    → get key_of m k ≡ some b
    → All (λ c. c.now < b.reset_at) cs
    → All (Limits o k) cs
    → count_allowed k m cs ≡ lesser (calls_for k cs) (o.limit - b.count)
unfolding count_allowed
running_window o k m b [] f early limits = ground arith
running_window o k m b (c ∷ cs) f early limits = elim (Bool-cases (asks_for k c)) [
  | inr other ↦ rw other (
      running_window o k (guard_step m c).0 b cs (guard_other m c k b other f early.0) early.1
        limits.1)
  | inl own ↦
      let step = guard_own m c o k b own (limits.0 own) f early.0 in
      rw (own, step)
        (elim (Bool-cases (leb o.limit b.count)) [
          | inl full ↦
              rw (refused_own o b m full)
                (running_window o k m b cs f early.1 limits.1 ∙ ground arith)
          | inr room ↦
              let went = counted_key o k m b f room in
              rw
                (
                  went.0,
                  running_window o k (count_in o b m).0 (record b { count = b.count + 1 }) cs went.1
                      early.1 limits.1,
                )
                (ground arith)
        ])
]

opened_own :
    (o : RateLimitOptions) (rolled : Bool) (now : ℕ) (k : Text) (m : List Bucket)
    → 0 < o.window_seconds
    → get key_of (open_window o rolled now k m) k
      ≡ some (record { key = k; count = 1; reset_at = now + o.window_seconds * 1000 })
unfolding open_window
opened_own o rolled now k m long =
    let b : Bucket = record { key = k; count = 1; reset_at = now + o.window_seconds * 1000 } in
    kept_running rolled now _ k b (get-put key_of m b k ∙ rw ((text_eq_iff k k).1 refl) refl)
      (ground arith)

admit_anew :
    (o : RateLimitOptions) (rolled : Bool) (now : ℕ) (k : Text) (m : List Bucket)
    → ((b : Bucket) → get key_of m k ≡ some b → b.reset_at ≤ now)
    → admit (get key_of m k) o rolled now k m ≡ (open_window o rolled now k m, allowed)
unfolding admit
admit_anew o rolled now k m past = elim (Option-cases (get key_of m k)) [
  | inl absent ↦ rw absent refl
  | inr (b, f) ↦
      let ended = past b f in
      let over : leb b.reset_at now ≡ true = ground arith in rw (f, over) refl
]

guard_anew :
    (o : RateLimitOptions) (m : List Bucket) (c : GuardCall)
    → c.options ≡ some o
    → ((b : Bucket) → get key_of m (bucket_key c.request) ≡ some b → b.reset_at ≤ c.now)
    → guard_step m c ≡ (open_window o c.rolled c.now (bucket_key c.request) m, allowed)
unfolding guard_step can_activate
guard_anew o m c opts past = rw opts (admit_anew o c.rolled c.now (bucket_key c.request) m past)

lesser-suc : (n l : ℕ) → 0 < l → suc (lesser n (l - 1)) ≡ lesser (suc n) l
lesser-suc n l h = ground arith

-- With a limit of one or more: when a request finds no window of its key running, then of it and of
-- the requests of that key in the `windowSeconds` that follow as many are allowed as the limit says,
-- and all when they are fewer. Requests of other keys and the clean-up of expired windows make no
-- difference. The windows of a key do not slide: each begins with a request.
pub open_window-limit :
    (o : RateLimitOptions) (m : List Bucket) (c : GuardCall) (cs : List GuardCall)
    → c.options ≡ some o
    → 0 < o.limit
    → 0 < o.window_seconds
    → ((b : Bucket) → get key_of m (bucket_key c.request) ≡ some b → b.reset_at ≤ c.now)
    → All (λ d. d.now < c.now + o.window_seconds * 1000) cs
    → All (Limits o (bucket_key c.request)) cs
    → count_allowed (bucket_key c.request) m (c ∷ cs)
      ≡ lesser (calls_for (bucket_key c.request) (c ∷ cs)) o.limit
unfolding count_allowed
open_window-limit o m c cs opts some_allowed long past early limits =
    let k = bucket_key c.request in
    rw (guard_anew o m c opts past, (text_eq_iff k k).1 refl)
      (ap suc (running_window o k _ _ cs (opened_own o c.rolled c.now k m long) early limits)
        ∙ lesser-suc (calls_for k cs) o.limit some_allowed)
