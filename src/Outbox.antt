-- ===== src/Outbox.antt =====
-- What a request sends out besides its answer, in order: gateway messages (`this.taskGateway`,
-- src/gateway/task.gateway.ts), queued notifications (`NotificationService.dispatch`), events on
-- the event bus (src/lib/common/events/task.events.ts), audit entries (src/lib/audit) and
-- deletions of uploaded files. The wording of titles and messages is not modelled.
mod Kinds
pub use Kinds.*
