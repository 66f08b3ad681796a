-- ===== src/Server/Approval/Creation/Outcome.antt =====
-- A creation by createApprovalRequestUnchecked of server/internal/app/usecase/approval_usecase.go from
-- its checks to the row.
use to_toggle.Server.User.{User}
