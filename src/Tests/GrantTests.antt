-- ===== src/Tests/GrantTests.antt =====
-- internal/grant/grant.go on concrete inputs.
use password_manager.Prelude.{◌≡◌, ◌↔◌, refl, some, arith}
use password_manager.Prelude.Text.{text_beq}
use password_manager.Bytes.{contains, has_prefix}
use password_manager.Protocol.{Grant, Decision, Reason, action_beq}
use password_manager.Grant.{
  evaluate, evaluate_grant, action_allowed, contains_action, fetch_error, host_error, any_uri,
  parse_dest, canonical_host, level_result,
}
use password_manager.Grant.Spec.{MayUse, AwaitsApproval}
use password_manager.Grant.Evaluation.{evaluate-allow_iff, evaluate-need_approval_iff}
use password_manager.Grant.Clock.{evaluate-allow_earlier}
use password_manager.Tests.Data.{request, library, held_grant}

request_allowed : (evaluate library request).decision ≡ Decision.allow
unfolding evaluate evaluate_grant action_allowed contains_action fetch_error host_error any_uri
    parse_dest canonical_host level_result action_beq text_beq contains has_prefix
request_allowed = refl

late_denied : (evaluate library (record request { now = 100 })).reason ≡ Reason.grant_expired
unfolding evaluate evaluate_grant text_beq
late_denied = refl

held_asks :
    (evaluate library (record request { grant = some held_grant })).reason ≡ Reason.needs_approval
unfolding evaluate evaluate_grant action_allowed contains_action fetch_error host_error any_uri
    parse_dest canonical_host level_result action_beq text_beq contains has_prefix
held_asks = refl

evaluate-allow_iff_example :
    ((evaluate library request).decision ≡ Decision.allow)
    ↔ ((g : Grant) × (request.grant ≡ some g) × MayUse library request g)
evaluate-allow_iff_example = evaluate-allow_iff library request

evaluate-need_approval_iff_example :
    ((evaluate library request).decision ≡ Decision.need_approval)
    ↔ ((g : Grant) × (request.grant ≡ some g) × AwaitsApproval library request g)
evaluate-need_approval_iff_example = evaluate-need_approval_iff library request

evaluate-allow_earlier_example :
    (evaluate library (record request { now = 5 })).decision ≡ Decision.allow
evaluate-allow_earlier_example =
    evaluate-allow_earlier library request 5 (omega arith) request_allowed
