-- ===== src/Tests/WorkloadTests.antt =====
-- internal/workload/workload.go on a concrete token.
use password_manager.Prelude.{◌≡◌, refl, some, ok}
use password_manager.Prelude.Text.{Text, bytes, text_beq}
use password_manager.Bytes.{trim_space, trim_front, is_space, two_byte_space, three_byte_space}
use password_manager.GoMap.{get, put, values}
use password_manager.Protocol.{Workload}
use password_manager.Store.{Memory, new_memory, workload_key, first_results}
use password_manager.Store.Agents.{
  put_agent, put_workload, get_agent, get_workload, workloads_for_issuer,
}
use password_manager.Prelude.{select}
use password_manager.Workload.{
  Oidc, first_part, second_part, unverified_issuer, subject, has_audience, bound_agent, agent_of,
  workload_agent,
}
use password_manager.Workload.Bound.{IsBound, workload_agent-IsBound}
use password_manager.Tests.Data.{bot}

abbrev oidc : Oidc
oidc = record {
  decode = λ part. some part;
  issuer_claim = λ payload. some payload;
  verify = λ issuer audience raw. ok (bytes "pod");
}

abbrev binding : Workload
binding = record {
  agent_id = bytes "bot";
  issuer = bytes "iss";
  subject = bytes "pod";
  audience = bytes "veil";
}

abbrev bound_start : Memory
bound_start = put_workload binding (put_agent bot (new_memory))

abbrev token : Text
token = bytes "h.iss.s"

named : unverified_issuer oidc (trim_space token) ≡ ok (bytes "iss")
unfolding unverified_issuer second_part first_part trim_space trim_front is_space two_byte_space
    three_byte_space
named = refl

let_in : workload_agent oidc token bound_start ≡ ok bot
unfolding workload_agent agent_of bound_agent unverified_issuer second_part first_part subject
    has_audience trim_space trim_front is_space two_byte_space three_byte_space put_workload
    put_agent get_agent get_workload workloads_for_issuer workload_key get put values first_results
    select text_beq
let_in = refl

workload_agent-IsBound_example : IsBound oidc (bytes "iss") (trim_space token) bound_start bot
workload_agent-IsBound_example =
    workload_agent-IsBound oidc token (bytes "iss") bound_start bot named let_in
