-- ===== src/Models/Enums.antt =====
-- models/enums.py. The value of a member is its text on the wire and in configuration files.
use ai_inference_cost_optimi.Prelude.{
  String, ◌≡◌, refl, ◌↔◌, Bool, true, false, Option, none, some, List, [], ◌∷◌, arith,
  if◌then◌else◌,
}
use ai_inference_cost_optimi.Prelude.Equality.{Eq, ◌==◌, string_eq}

pub data DataClass : Type 0 where
  public internal confidential restricted : DataClass

pub data QualityTier : Type 0 where
  economy balanced premium : QualityTier

pub data ErrorClass : Type 0 where
  invalid_request auth rate_limited timeout provider_5xx policy_denied : ErrorClass
  stream_started_failure malformed_response : ErrorClass

pub data UsageSource : Type 0 where
  provider_reported tokenizer_estimated unavailable : UsageSource

pub data MessageRole : Type 0 where
  system developer user model tool : MessageRole

-- `a is b`, `a == b` for members of an enumeration
abbrev pub same_class : DataClass → DataClass → Bool
same_class public public = true
same_class internal internal = true
same_class confidential confidential = true
same_class restricted restricted = true
same_class _ _ = false

abbrev pub same_tier : QualityTier → QualityTier → Bool
same_tier economy economy = true
same_tier balanced balanced = true
same_tier premium premium = true
same_tier _ _ = false

abbrev pub same_error : ErrorClass → ErrorClass → Bool
same_error invalid_request invalid_request = true
same_error auth auth = true
same_error rate_limited rate_limited = true
same_error timeout timeout = true
same_error provider_5xx provider_5xx = true
same_error policy_denied policy_denied = true
same_error stream_started_failure stream_started_failure = true
same_error malformed_response malformed_response = true
same_error _ _ = false

pub same_class_iff : (a b : DataClass) → (same_class a b ≡ true) ↔ (a ≡ b)
same_class_iff a b = ground arith

pub same_tier_iff : (a b : QualityTier) → (same_tier a b ≡ true) ↔ (a ≡ b)
same_tier_iff a b = ground arith

pub same_error_iff : (a b : ErrorClass) → (same_error a b ≡ true) ↔ (a ≡ b)
same_error_iff a b = ground arith

instance abbrev pub class_eq : Eq DataClass
class_eq = record { same = same_class; same_iff = same_class_iff }

instance abbrev pub tier_eq : Eq QualityTier
tier_eq = record { same = same_tier; same_iff = same_tier_iff }

instance abbrev pub error_eq : Eq ErrorClass
error_eq = record { same = same_error; same_iff = same_error_iff }

-- The values of the members.
pub class_value : DataClass → String
class_value public = "public"
class_value internal = "internal"
class_value confidential = "confidential"
class_value restricted = "restricted"

unfoldable pub tier_value : QualityTier → String
tier_value economy = "economy"
tier_value balanced = "balanced"
tier_value premium = "premium"

pub error_value : ErrorClass → String
error_value invalid_request = "invalid_request"
error_value auth = "auth"
error_value rate_limited = "rate_limited"
error_value timeout = "timeout"
error_value provider_5xx = "provider_5xx"
error_value policy_denied = "policy_denied"
error_value stream_started_failure = "stream_started_failure"
error_value malformed_response = "malformed_response"

-- `DataClass(text)` and `QualityTier(text)`: `none` is the ValueError.
member_of {ℓ} : {A : Type ℓ} → (A → String) → List A → String → Option A
member_of value [] text = none
member_of value (a ∷ rest) text = if value a == text then some a else member_of value rest text

unfoldable pub parse_class : String → Option DataClass
unfolding class_value member_of
parse_class = member_of class_value (public ∷ internal ∷ confidential ∷ restricted ∷ [])

unfoldable pub parse_tier : String → Option QualityTier
unfolding tier_value member_of
parse_tier = member_of tier_value (economy ∷ balanced ∷ premium ∷ [])

-- `ErrorClass(text)`
unfoldable pub parse_error : String → Option ErrorClass
unfolding error_value member_of
parse_error = member_of error_value (
    invalid_request ∷ auth ∷ rate_limited ∷ timeout ∷ provider_5xx ∷ policy_denied
    ∷ stream_started_failure ∷ malformed_response ∷ [])

pub parse_error-error_value : (c : ErrorClass) → parse_error (error_value c) ≡ some c
unfolding parse_error
parse_error-error_value invalid_request = refl
parse_error-error_value auth = refl
parse_error-error_value rate_limited = refl
parse_error-error_value timeout = refl
parse_error-error_value provider_5xx = refl
parse_error-error_value policy_denied = refl
parse_error-error_value stream_started_failure = refl
parse_error-error_value malformed_response = refl

parse_class-class_value : (c : DataClass) → parse_class (class_value c) ≡ some c
unfolding parse_class
parse_class-class_value public = refl
parse_class-class_value internal = refl
parse_class-class_value confidential = refl
parse_class-class_value restricted = refl
