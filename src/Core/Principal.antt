-- ===== src/Core/Principal.antt =====
-- app/core/principal.py
use identity_access_service.Base.{String}
use identity_access_service.Models.{Uuid, Role}

pub record CurrentPrincipal : Type 0 where
  pub user_id : Uuid
  pub tenant_id : Uuid
  pub role : Role
  pub email : String
  pub full_name : String
  pub tenant_slug : String
  pub tenant_name : String
