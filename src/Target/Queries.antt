-- ===== src/Target/Queries.antt =====
-- `TargetService.findAll` and `findOne`. What the answers include of other tables, and the order of
-- the list, are not modelled.
use Prim.Native.String.{String}
use text.Mathlib.Text
use teamos_backend.Prelude.{
  Bool, true, false, Option, none, some, List, Key, truthy, truthy_text, same_key, filter_by,
  contains, Result, ok, bad_request, forbidden, or_throw, throw_if, ◌>>=◌, ◌>>◌, ◌==◌, ◌&&◌, not,
}
use teamos_backend.Roles.{Role, member, supervisor}
use teamos_backend.Directory.{team_of, UserProfile, find_member, find_profile}
use teamos_backend.Target.Model.{
  TargetType, company, team, individual, TargetStatus, on_track, at_risk, completed, missed, Target,
  TargetDb, Fault, not_org_member, target_missing, not_your_target, not_your_team,
}
use teamos_backend.Target.Alignment.{find_target}
use teamos_backend.Target.Entries.{in_department}

abbrev pub same_type : TargetType → TargetType → Bool
same_type company company = true
same_type team team = true
same_type individual individual = true
same_type _ _ = false

abbrev pub same_target_status : TargetStatus → TargetStatus → Bool
same_target_status on_track on_track = true
same_target_status at_risk at_risk = true
same_target_status completed completed = true
same_target_status missed missed = true
same_target_status _ _ = false

pub record QueryTargetsDto : Type 0 where
  pub kind : Option TargetType
  pub status : Option TargetStatus
  pub department_id : Option Key
  pub assigned_to_id : Option Key
  pub period : Option String

abbrev assigned_in : Option Key → List Key → Bool
assigned_in none users = false
assigned_in (some k) users = contains users k

abbrev same_period : Option String → Option String → Bool
same_period none asked = false
same_period (some s) none = false
same_period (some s) (some asked) = Text.◌==◌ s asked

abbrev pub is_member : Option Role → Bool
is_member (some member) = true
is_member _ = false

abbrev pub is_staff : Option Role → Bool
is_staff (some member) = true
is_staff (some supervisor) = true
is_staff _ = false

module _ {V : Type 0} where
  -- `departmentId: callerProfile?.departmentId`: without a profile Prisma drops the condition.
  abbrev pub team_shown : Option UserProfile → Target V → Bool
  team_shown none t = true
  team_shown (some p) t = same_key t.department_id p.department_id

  -- `where.OR`, by the role of the caller.
  unfoldable pub in_view : List UserProfile → Key → Key → Role → Target V → Bool
  in_view profiles org user member t = elim t.kind [
    | company ↦ true
    | team ↦ team_shown (find_profile profiles org user) t
    | individual ↦ same_key t.assigned_to_id (some user)
  ]
  in_view profiles org user supervisor t = elim t.kind [
    | company ↦ true
    | team ↦ team_shown (find_profile profiles org user) t
    | individual ↦ assigned_in t.assigned_to_id (team_of profiles org user)
  ]
  in_view profiles org user _ t = true

  unfoldable pub passes : QueryTargetsDto → Target V → Bool
  passes query t =
      (elim query.kind [ none ↦ true | some k ↦ same_type t.kind k ])
      && ((elim query.status [ none ↦ true | some s ↦ same_target_status t.status s ])
          && ((elim (truthy query.department_id) [
            | none ↦ true
            | some d ↦ same_key t.department_id (some d)
          ])
              && ((elim (truthy query.assigned_to_id) [
                | none ↦ true
                | some a ↦ same_key t.assigned_to_id (some a)
              ])
                  && (elim (truthy_text query.period) [
                    | none ↦ true
                    | some s ↦ same_period t.period (some s)
                  ]))))

  unfoldable pub find_all :
      Key → Key → QueryTargetsDto → TargetDb V → Result Fault (List (Target V))
  unfolding in_view passes
  find_all org user query db = do
    membership ← or_throw (find_member db.members org user) forbidden not_org_member
    ok (
        filter_by
          (λ t.
            t.organization_id == org
            && (passes query t && in_view db.profiles org user membership.role t))
          db.targets)

  unfoldable pub find_one : Key → Key → Key → Option Role → TargetDb V → Result Fault (Target V)
  find_one org k user role db = do
    target ← or_throw (find_target db.targets org k) bad_request target_missing
    throw_if
        (is_member role
          && (same_type target.kind individual && not (same_key target.assigned_to_id (some user))))
        forbidden not_your_target
    throw_if
        (is_staff role && (same_type target.kind team && not (in_department db org user target)))
        forbidden not_your_team
    ok target
