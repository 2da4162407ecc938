-- ===== src/Identity.antt =====
-- src/auth/jwt-payload.ts and the `Role` of src/shared/index.ts: who a request or a socket acts for.
-- The claims that no modelled operation reads are left out.
use livetich_api.Prelude.{Text, Option, Bool, true, false}

pub data Role : Type 0 where
  instructor student org_admin : Role

pub record JwtPayload : Type 0 where
  pub sub : Text
  pub role : Role
  pub name : Text
  pub organization_id : Option Text

abbrev pub is_student : Role → Bool
is_student student = true
is_student instructor = false
is_student org_admin = false

abbrev pub is_org_admin : Role → Bool
is_org_admin org_admin = true
is_org_admin student = false
is_org_admin instructor = false

abbrev pub is_instructor : Role → Bool
is_instructor instructor = true
is_instructor student = false
is_instructor org_admin = false
