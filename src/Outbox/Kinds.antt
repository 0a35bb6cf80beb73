-- ===== src/Outbox/Kinds.antt =====
-- src/lib/common/events/task.events.ts, src/lib/audit/audit.action.ts and
-- src/modules/notification/notification.constants.ts
use Prim.Native.String.{String}
use teamos_backend.Prelude.{Bool, true, false, Option, Key}

pub data TaskStatus : Type 0 where
  not_started in_progress completed overdue completed_late : TaskStatus

pub data Priority : Type 0 where
  high medium low : Priority

-- `a === b` on priorities.
abbrev pub same_priority : Priority → Priority → Bool
same_priority high high = true
same_priority medium medium = true
same_priority low low = true
same_priority _ _ = false

-- The four event classes, with the constructors' parameters in their order.
pub data TaskEvent : Type 0 where
  created : (org_id assignee_id : Key) → TaskEvent
  status_changed : (org_id assignee_id : Key) (old_status new_status : TaskStatus) → TaskEvent
  deleted : (org_id assignee_id : Key) (old_status : TaskStatus) → TaskEvent
  reassigned : (org_id previous_assignee_id new_assignee_id : Key) → TaskEvent

pub data NotificationType : Type 0 where
  task_assigned task_completed deadline_warning overdue_alert target_missed target_at_risk
        complaint_created complaint_status_changed review_assigned :
      NotificationType

pub data NotificationSeverity : Type 0 where
  info warning error success critical : NotificationSeverity

-- `NOTIFICATION_SEVERITY_MAP`
unfoldable pub severity : NotificationType → NotificationSeverity
severity task_assigned = info
severity task_completed = success
severity deadline_warning = warning
severity overdue_alert = critical
severity target_missed = critical
severity target_at_risk = warning
severity complaint_created = warning
severity complaint_status_changed = info
severity review_assigned = info

pub record Notification : Type 0 where
  pub org_id : Key
  pub user_id : Key
  pub kind : NotificationType
  pub level : NotificationSeverity
  pub related_id : Option Key

-- `AUDIT_ACTIONS`
pub data AuditAction : Type 0 where
  role_changed member_invited member_removed department_head_changed complaint_resolved
        complaint_dismissed calibration_finalized review_cycle_activated review_cycle_completed
        review_cycle_calibrating target_deleted task_reassigned :
      AuditAction

pub record AuditEntry : Type 0 where
  pub org_id : Key
  pub user_id : Key
  pub action : AuditAction
  pub target_id : Key
  pub ip_address : Option String

-- `E` is the type of the gateway's messages.
pub data Effect (E : Type 0) : Type 0 where
  emit : Key → E → Effect E
  notify : Notification → Effect E
  publish : TaskEvent → Effect E
  audit : AuditEntry → Effect E
  delete_file : String → Effect E
