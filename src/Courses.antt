-- ===== src/Courses.antt =====
-- src/courses/courses.service.ts: who may manage a course, which most services ask first. The course
-- row that the method looks up is an argument.
use livetich_api.Prelude.{
  Text, same, [], ◌∷◌, Bool, false, ◌&&◌, ◌||◌, Option, none, some, if◌then◌else◌,
}
use livetich_api.Prelude.Results.{Result, ok, err, not_found, forbidden}
use livetich_api.Identity.{JwtPayload, is_org_admin}

pub record CourseAccess : Type 0 where
  pub instructor_id : Option Text
  pub organization_id : Option Text

-- `a === b` for an id that may be null and one that may not.
abbrev pub is_id : Option Text → Text → Bool
is_id none id = false
is_id (some a) id = same a id

abbrev same_org : Option Text → Option Text → Bool
same_org none o = false
same_org (some []) o = false
same_org (some (a ∷ s)) o = is_id o (a ∷ s)

unfoldable pub assert_can_manage_course : JwtPayload → Option CourseAccess → Result (Unit {0})
assert_can_manage_course user none = err not_found
assert_can_manage_course user (some course) =
    let is_owning_admin =
      is_org_admin user.role && same_org user.organization_id course.organization_id in
    if is_owning_admin || is_id course.instructor_id user.sub then ok tt else err forbidden
