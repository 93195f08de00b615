-- ===== src/Guarantees/Unreachable.antt =====
-- Which tenants a typed login can be for.
use identity_access_service.Base.{nat_eq}
use identity_access_service.Db.{Db}
use identity_access_service.Core.Context.{Context}
use Prim.Native.Char.{Char}
