-- ===== src/App/EnvRows.antt =====
-- What ChildEnv of internal/broker/env.go hands out stands behind rows that it gave to
-- AppendAudit.
use password_manager.Prelude.Text.{Text}
use password_manager.App.Audits.{Audits}
