-- ===== src/RateLimit/Examples.antt =====
-- The theorem on rate-limit.guard.ts at a concrete series of requests.
use proofchain.Prelude.{Text, text, text_eq, ℕ, ◌≤◌, ◌≡◌, refl, true, some, List, [], ◌∷◌, arith}
use proofchain.Table.{get, put}
use proofchain.RateLimit.{
  RateLimitOptions, Request, admit, bucket_key, can_activate, count_in, maybe_evict_expired,
  open_window, Bucket, key_of,
}
use proofchain.RateLimit.Window.{
  GuardCall, calls_for, count_allowed, guard_step, lesser, open_window-limit,
}

abbrev twice_a_minute : RateLimitOptions
twice_a_minute = record { limit = 2; window_seconds = 60 }

abbrev login : Text → Request
login ip = record { method = text "POST"; path = text "/auth/login"; ip = ip }

abbrev call_from : Text → ℕ → GuardCall
call_from ip now = record {
  options = some twice_a_minute;
  rolled = true;
  now = now;
  request = login ip;
}

abbrev opening : GuardCall
opening = call_from (text "a") 5

-- One address asks three times more within the minute, another once.
abbrev later_calls : List GuardCall
later_calls =
    call_from (text "a") 6
    ∷ call_from (text "b") 7
    ∷ call_from (text "a") 8
    ∷ call_from (text "a") 60004
    ∷ []

none_open :
    (b : Bucket) → get key_of [] (bucket_key opening.request) ≡ some b → b.reset_at ≤ opening.now
unfolding get
none_open b h = absurd (ground arith)

open_window-limit_example :
    count_allowed (bucket_key opening.request) [] (opening ∷ later_calls)
    ≡ lesser (calls_for (bucket_key opening.request) (opening ∷ later_calls)) 2
open_window-limit_example =
    open_window-limit twice_a_minute [] opening later_calls refl (omega arith) (omega arith)
      none_open (omega arith, (omega arith, (omega arith, (omega arith, tt))))
      ((λ e. refl), ((λ e. refl), ((λ e. refl), ((λ e. refl), tt))))

two_allowed : count_allowed (bucket_key opening.request) [] (opening ∷ later_calls) ≡ 2
unfolding count_allowed guard_step can_activate admit count_in open_window maybe_evict_expired
    bucket_key text_eq get put
two_allowed = refl
