-- ===== src/RateLimit.antt =====
-- apps/backend/src/common/rate-limit.guard.ts: a window of fixed length for each route and address.
-- Instants are in milliseconds. The clock and the throw of the dice for the clean-up are arguments.
pub mod Window
mod Examples
use proofchain.Prelude.{
  ltb, leb, if◌then◌else◌, length, keep, Text, text, ℕ, ◌+◌, ◌*◌, Bool, not, ◌||◌, Option, none,
  some, List, ◌++◌,
}
use proofchain.Table.{get, put}

pub record RateLimitOptions : Type 0 where
  pub limit : ℕ
  pub window_seconds : ℕ

pub record Bucket : Type 0 where
  pub key : Text
  pub count : ℕ
  pub reset_at : ℕ

-- What the guard reads of a request: the method, the path of its route and the client's address.
pub record Request : Type 0 where
  pub method : Text
  pub path : Text
  pub ip : Text

pub data Verdict : Type 0 where
  allowed exceeded : Verdict

unfoldable pub bucket_key : Request → Text
bucket_key r = r.method ++ (text " " ++ (r.path ++ (text ":" ++ r.ip)))

abbrev pub key_of : Bucket → Text
key_of b = b.key

-- `rolled` is `Math.random() <= 0.01`.
unfoldable pub maybe_evict_expired : Bool → ℕ → List Bucket → List Bucket
maybe_evict_expired rolled now buckets =
    if ltb (length buckets) 10000 || not rolled
    then buckets
    else keep (λ b. not (leb b.reset_at now)) buckets

unfoldable pub open_window : RateLimitOptions → Bool → ℕ → Text → List Bucket → List Bucket
open_window options rolled now key buckets = maybe_evict_expired rolled now (
    put key_of buckets
      (record { key = key; count = 1; reset_at = now + options.window_seconds * 1000 }))

-- A request that finds its window open.
unfoldable pub count_in : RateLimitOptions → Bucket → List Bucket → List Bucket × Verdict
count_in options b buckets =
    if leb options.limit b.count
    then (buckets, exceeded)
    else (put key_of buckets (record b { count = b.count + 1 }), allowed)

-- The request's own bucket is the first argument.
unfoldable pub admit :
    Option Bucket → RateLimitOptions → Bool → ℕ → Text → List Bucket → List Bucket × Verdict
admit none options rolled now key buckets = (open_window options rolled now key buckets, allowed)
admit (some b) options rolled now key buckets =
    if leb b.reset_at now
    then (open_window options rolled now key buckets, allowed)
    else count_in options b buckets

-- `canActivate`; a route without options is not limited.
unfoldable pub can_activate :
    Option RateLimitOptions → Bool → ℕ → Request → List Bucket → List Bucket × Verdict
can_activate none rolled now request buckets = (buckets, allowed)
can_activate (some options) rolled now request buckets =
    admit (get key_of buckets (bucket_key request)) options rolled now (bucket_key request) buckets
