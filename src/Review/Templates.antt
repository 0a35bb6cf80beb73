-- ===== src/Review/Templates.antt =====
-- `ReviewService.createTemplate`, `findOneTemplate`, `updateTemplate` and `removeTemplate`
use mathlib.Core.Option.{get_or}
use teamos_backend.Prelude.{
  Bool, true, false, [], ◌∷◌, ◌++◌, Key, update_by, delete_by, any_by, Result, ok, bad_request,
  throw_if, ◌>>=◌, ◌>>◌, ◌==◌, ◌&&◌,
}
use teamos_backend.Review.Model.{
  ReviewCycleStatus, draft, ReviewTemplate, ReviewCycle, ReviewDb, Fault, Answer,
  CreateReviewTemplateDto, UpdateReviewTemplateDto, template_in_use, template_referenced,
}
use teamos_backend.Review.Lookup.{check_member, find_one_template}

-- `status: { in: ['ACTIVE', 'CALIBRATING', 'COMPLETED'] }`
abbrev pub is_started : ReviewCycleStatus → Bool
is_started draft = false
is_started _ = true

-- A cycle of the organization that has the template.
abbrev pub uses_template : Key → Key → ReviewCycle → Bool
uses_template org k c = c.template_id == k && c.organization_id == org

abbrev new_template : Key → Key → Key → CreateReviewTemplateDto → ReviewTemplate
new_template new_id org user dto = record {
  id = new_id;
  organization_id = org;
  title = dto.name;
  description = dto.description;
  sections = dto.sections;
  is_default = get_or dto.is_default false;
  created_by_id = user;
}

unfoldable pub patch_template : UpdateReviewTemplateDto → ReviewTemplate → ReviewTemplate
patch_template dto t = record t {
  title = get_or dto.name t.title;
  description = get_or dto.description t.description;
  sections = get_or dto.sections t.sections;
  is_default = get_or dto.is_default t.is_default;
}

module _ {V : Type 0} where
  unfoldable pub create_template :
      Key → Key → Key → CreateReviewTemplateDto → ReviewDb V → Answer V ReviewTemplate
  create_template new_id org user dto db = do
    check_member db org user
    let template = new_template new_id org user dto
    ok (template, record db { templates = db.templates ++ template ∷ [] })

  unfoldable pub check_update_template : Key → Key → ReviewDb V → Result Fault ReviewTemplate
  check_update_template org k db = do
    template ← find_one_template db org k
    throw_if (any_by (λ c. uses_template org k c && is_started c.status) db.cycles) bad_request
        template_in_use
    ok template

  unfoldable pub update_template :
      Key → Key → UpdateReviewTemplateDto → ReviewDb V → Answer V ReviewTemplate
  unfolding check_update_template patch_template
  update_template org k dto db = do
    template ← check_update_template org k db
    ok (
      patch_template dto template,
      record db { templates = update_by (λ t. t.id == k) (patch_template dto) db.templates },
    )

  unfoldable pub check_remove_template : Key → Key → ReviewDb V → Result Fault ReviewTemplate
  check_remove_template org k db = do
    template ← find_one_template db org k
    throw_if (any_by (uses_template org k) db.cycles) bad_request template_referenced
    ok template

  unfoldable pub remove_template : Key → Key → ReviewDb V → Answer V ReviewTemplate
  unfolding check_remove_template
  remove_template org k db = do
    template ← check_remove_template org k db
    ok (template, record db { templates = delete_by (λ t. t.id == k) db.templates })
