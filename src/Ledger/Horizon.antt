-- ===== src/Ledger/Horizon.antt =====
-- apps/backend/src/ledger/horizon.client.ts: reads of the public ledger, where a failure says whether
-- Horizon knows no such document or gave no answer.
use proofchain.Prelude.{
  ltb, leb, ◌==◌, if◌then◌else◌, Result, ◌>>=◌, ok, err, Text, text, ℕ, Bool, false, ◌||◌, Option,
  none, some,
}

pub data HorizonFailure : Type 0 where
  unknown_document unavailable : HorizonFailure

-- `HorizonResult<T>`; the detail texts are left out.
abbrev pub HorizonResult {ℓ} : Type ℓ → Type ℓ
HorizonResult A = Result HorizonFailure A

pub record HorizonTransaction : Type 0 where
  pub hash : Text
  pub ledger : ℕ
  pub successful : Bool
  pub memo_type : Text
  pub memo : Option Text
  pub source_account : Option Text

-- A field of a JSON object, as far as the client tells its values apart.
pub data JsonField : Type 0 where
  absent : JsonField
  json_text : Text → JsonField
  json_number : ℕ → JsonField
  json_bool : Bool → JsonField

abbrev pub JsonObject : Type 0
JsonObject = Text → JsonField

-- What `fetch` and `response.json()` give: a status and the body, which may not parse, or a throw.
pub data Fetched (A : Type 0) : Type 0 where
  threw : Fetched A
  answered : ℕ → Option A → Fetched A

unfoldable pub parsed_body : {A : Type 0} → Option A → HorizonResult A
parsed_body none = err unavailable
parsed_body (some body) = ok body

-- `getJson`
unfoldable pub get_json : {A : Type 0} → Fetched A → HorizonResult A
get_json threw = err unavailable
get_json (answered status body) =
    if status == 404
    then err unknown_document
    else if ltb status 200 || leb 300 status
    then err unavailable
    else parsed_body body

-- `typeof v === "string" ? v : null`
unfoldable pub text_field : JsonField → Option Text
text_field (json_text t) = some t
text_field absent = none
text_field (json_number n) = none
text_field (json_bool b) = none

-- `String(v ?? t)`, for a number or a Boolean by the printer that is given.
unfoldable pub text_or_default : (JsonField → Text) → JsonField → Text → Text
text_or_default print absent t = t
text_or_default print (json_text s) t = s
text_or_default print (json_number n) t = print (json_number n)
text_or_default print (json_bool b) t = print (json_bool b)

unfoldable pub is_true : JsonField → Bool
is_true (json_bool b) = b
is_true absent = false
is_true (json_text t) = false
is_true (json_number n) = false

-- `v ?? w`
unfoldable pub field_or : JsonField → JsonField → JsonField
field_or absent w = w
field_or (json_text t) w = json_text t
field_or (json_number n) w = json_number n
field_or (json_bool b) w = json_bool b

-- `print` is `String`, `to_number` is `Number`, on the values of a field.
module _ (print : JsonField → Text) (to_number : JsonField → ℕ) where
  unfoldable pub to_transaction : Text → JsonObject → HorizonTransaction
  to_transaction hash body = record {
    hash = text_or_default print (body (text "hash")) hash;
    ledger =
        to_number
          (field_or (body (text "ledger")) (field_or (body (text "ledger_attr")) (json_number 0)));
    successful = is_true (body (text "successful"));
    memo_type = text_or_default print (body (text "memo_type")) (text "none");
    memo = text_field (body (text "memo"));
    source_account = text_field (body (text "source_account"));
  }

  unfoldable pub transaction : Text → Fetched JsonObject → HorizonResult HorizonTransaction
  transaction hash fetched = get_json fetched >>= (λ body. ok (to_transaction hash body))

-- `data` of an account, and none of it when it is no object.
unfoldable pub entries_of : Option JsonObject → Text → Option Text
entries_of none key = none
entries_of (some data_object) key = text_field (data_object key)

unfoldable pub account_data : Fetched (Option JsonObject) → HorizonResult (Text → Option Text)
account_data fetched = get_json fetched >>= (λ body. ok (entries_of body))
