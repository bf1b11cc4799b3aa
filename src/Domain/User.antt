-- ===== src/Domain/User.antt =====
-- Users and roles of internal/domain/user.go.
use aieas_backend.Prelude.{String, Bool, true, false}

pub data Role : Type 0 where
  buyer merchant admin : Role
  other_role : String → Role

unfoldable pub is_admin : Role → Bool
is_admin admin = true
is_admin _ = false

unfoldable pub is_buyer : Role → Bool
is_buyer buyer = true
is_buyer _ = false

unfoldable pub is_merchant : Role → Bool
is_merchant merchant = true
is_merchant _ = false

pub data UserStatus : Type 0 where
  active disabled : UserStatus
  other_user_status : String → UserStatus

pub data MerchantAiPermission : Type 0 where
  ask allow deny : MerchantAiPermission
  other_permission : String → MerchantAiPermission

-- NormalizeMerchantAIPermission
unfoldable pub normalize_merchant_ai_permission : MerchantAiPermission → MerchantAiPermission
normalize_merchant_ai_permission (other_permission s) = ask
normalize_merchant_ai_permission p = p

pub record User : Type 0 where
  pub id : String
  pub account : String
  pub nickname : String
  pub avatar_url : String
  pub location : String
  pub role : Role
  pub status : UserStatus
  pub ai_permission : MerchantAiPermission
  pub password_hash : String
