-- ===== src/Tests/BrokerTests.antt =====
-- internal/broker/broker.go and internal/scrub/scrub.go on concrete inputs, over the store in memory.
use password_manager.Prelude.{
  ◌≡◌, refl, inl, true, false, none, some, [], ◌∷◌, Result, ok, err, denied, arith,
}
use password_manager.Prelude.Text.{bytes}
use password_manager.Protocol.{injects, UseRequest, UseResult, Decision, Reason, fetch}
use password_manager.Scrub.Hides.{IsForeign, scrub_bytes-removes}
use password_manager.Store.{Memory, new_memory, grant_key, session_hash_key, hex_digit}
use password_manager.Store.Grants.{put_grant, use_auth}
use password_manager.Bytes.{contains, has_prefix, lower, replace_all, replace_from, trim_space}
use password_manager.Material.{
  all_filled, apply_material, apply_token, authorization_value, filled, header_add, header_get,
  header_set, mint, own_secrets, scrub_list, unpack,
}
use password_manager.Broker.Calls.{
  append_audit, attempt, fail, next, pure, read_secret, recorded, reload_agent, send_request,
  unrecorded, wrapping, ◌>>=◌,
}
use password_manager.GoMap.{get, put}
use password_manager.Prelude.Int64.{int_lt, int_suc}
use password_manager.Store.Sessions.{
  put_session, consume_session, use_auth_session, session_error, is_exhausted,
}
use password_manager.Broker.{session_auth, after_consume}
use password_manager.Broker.Calls.{consume_audited}
use password_manager.Store.Agents
use password_manager.Store.Agents.{get_agent, put_agent}
use password_manager.Broker.{
  access_token, add_values, after_row, audit_event, audit_use, authorize_header, commit,
  copy_header, fetch_upstream, proceed, proceed_fetch, recheck_agent, release, reloaded,
  scrub_header, send_with, use_authorized, use_call,
}
use password_manager.Protocol.{action_beq}
use password_manager.Store.Items.{save_version, get_secret, put_item}
use password_manager.Grant.{
  action_allowed, any_uri, canonical_host, contains_action, deny, evaluate, evaluate_grant,
  fetch_error, host_error, level_result, parse_dest,
}
use password_manager.Scrub.Base64.{digit, encode}
use password_manager.Scrub.{scrub_bytes, scrub_one}
use password_manager.Prelude.Text.{text_beq}
use password_manager.Broker.{Libraries, Answer, answer_of, answer_with, use_session}
use password_manager.Broker.Calls.{Environment, World}
use password_manager.Broker.OnMemory.{Outside, on_memory}
use password_manager.Broker.Release.{IsGuarded}
use password_manager.Broker.Guarded.{use_call-IsGuarded, use_session-IsGuarded}
use password_manager.Broker.Answers.{IsClean}
use password_manager.Broker.Clean.{use_call-IsClean, use_session-IsClean}
use password_manager.Broker.Refusals.{LeavesReleases, use_call-released, use_session-released}
use password_manager.Tests.Data.{lease, bot, stripe, free_grant, library}

abbrev echo : Outside
echo = record {
  refresh = λ e. ok (bytes "fresh");
  accepts = λ method url. true;
  append = λ e m. ok tt;
  send = λ u. ok (record { status = 200; header = []; body = bytes "key k-1!" });
}

abbrev libraries : Libraries
libraries = record {
  urls = library;
  codecs = record {
    unmarshal = λ raw. none;
    generate_code = λ seed now. none;
    canonical_key = λ k. k;
  };
}

abbrev vault : Environment
vault = on_memory echo

abbrev filled_memory : Memory
filled_memory = put_grant free_grant (put_item stripe (bytes "k-1") 5 (put_agent bot (new_memory)))

abbrev start : World vault
start = record { state = filled_memory; past = [] }

abbrev nothing : World vault
nothing = record { state = new_memory; past = [] }

abbrev ask : UseRequest
ask = record {
  item_id = bytes "i1";
  action = fetch;
  fetch = some (record { method = []; url = bytes "https://a.io"; header = []; body = [] });
}

use_call-IsGuarded_example : IsGuarded ask (use_call libraries vault false bot ask 20 start).1.past
use_call-IsGuarded_example = use_call-IsGuarded libraries vault ask false bot 20 start tt

use_session-IsGuarded_example :
    IsGuarded ask (use_session libraries vault false (bytes "h") ask 20 start).1.past
use_session-IsGuarded_example =
    use_session-IsGuarded libraries vault ask false (bytes "h") 20 start tt

foreign : IsForeign (bytes "k-1")
unfolding contains
foreign = record { filled = refl; no_open = ground arith; no_close = ground arith; apart = refl }

scrub_bytes-removes_example :
    contains (scrub_bytes (bytes "key k-1!") (bytes "k-1" ∷ [])) (bytes "k-1") ≡ false
scrub_bytes-removes_example =
    scrub_bytes-removes (bytes "k-1") foreign (bytes "key k-1!") (bytes "k-1" ∷ []) b'k'
      (bytes "-1") (inl refl) (inl refl)

abbrev answer : Result Answer × World vault
answer = use_call libraries vault false bot ask 20 start

abbrev redacted_answer : UseResult
redacted_answer = record {
  decision = Decision.allow;
  reason = Reason.no_reason;
  approval_id = [];
  fetch = some (record { status = 200; header = []; body = bytes "key [redacted]!" });
}

-- The whole call, from the store to the scrubbed answer.
answered : answer.0 ≡ ok (answer_with redacted_answer)
unfolding use_call use_authorized audit_event recheck_agent reloaded proceed proceed_fetch commit
    after_row release answer_of fetch_upstream send_with access_token copy_header add_values
    authorize_header scrub_header audit_use ◌>>=◌ next pure fail attempt wrapping recorded
    unrecorded append_audit reload_agent read_secret send_request unpack mint header_get header_set
    header_add apply_token apply_material authorization_value own_secrets scrub_list filled
    all_filled scrub_bytes scrub_one replace_all replace_from contains has_prefix encode digit
    evaluate evaluate_grant action_allowed contains_action fetch_error host_error any_uri parse_dest
    canonical_host level_result action_beq text_beq trim_space lower put_agent put_item put_grant
    use_auth get_agent get_secret get put save_version grant_key injects Agents.append_audit
answered = refl

use_call-IsClean_example : IsClean libraries.codecs 20 (answer_with redacted_answer) answer.1.past
use_call-IsClean_example =
    use_call-IsClean libraries vault false bot ask 20 start refl (answer_with redacted_answer)
      answered

abbrev unknown_item : UseResult
unknown_item = deny Reason.item_not_found

refused : (use_call libraries vault false bot ask 20 nothing).0 ≡ ok (answer_with unknown_item)
unfolding use_call use_authorized audit_use attempt append_audit recorded ◌>>=◌ next pure unrecorded
    use_auth get
refused = refl

use_call-released_example :
    LeavesReleases []
      (answer_with unknown_item)
      (use_call libraries vault false bot ask 20 nothing).1.past
use_call-released_example =
    use_call-released libraries vault false bot ask 20 nothing (answer_with unknown_item) refused
      (λ p. cc)

abbrev leased : World vault
leased = record { state = put_session lease (bytes "h") (put_agent bot (new_memory)); past = [] }

refused_session :
    (use_session libraries vault false (bytes "h") ask 20 leased).0 ≡ ok (answer_with unknown_item)
unfolding use_session use_authorized session_auth audit_use attempt append_audit recorded ◌>>=◌ next
    pure unrecorded use_auth_session session_error is_exhausted session_hash_key put_session
    put_agent get put use_auth int_lt text_beq hex_digit
refused_session = refl

use_session-released_example :
    LeavesReleases []
      (answer_with unknown_item)
      (use_session libraries vault false (bytes "h") ask 20 leased).1.past
use_session-released_example =
    use_session-released libraries vault false (bytes "h") ask 20 leased (answer_with unknown_item)
      refused_session (λ p. cc)

abbrev served : World vault
served = record { state = put_session lease (bytes "h") filled_memory; past = [] }

-- The upstream cannot be reached: the secret was read by then, and the denial comes beside the error.
abbrev cut_off : Environment
cut_off = on_memory (record echo { send = λ u. err denied })

abbrev failed_answer : Answer
failed_answer = record { result = deny Reason.fetch_failed; failure = some denied }

failed_fetch :
    (use_call libraries cut_off false bot ask 20 (record { state = filled_memory; past = [] })).0
    ≡ ok failed_answer
unfolding use_call use_authorized audit_event recheck_agent reloaded proceed proceed_fetch commit
    after_row release answer_of fetch_upstream send_with access_token copy_header add_values
    authorize_header audit_use ◌>>=◌ next pure fail attempt wrapping recorded unrecorded
    append_audit reload_agent read_secret send_request unpack mint header_get header_set header_add
    apply_token apply_material authorization_value evaluate evaluate_grant action_allowed
    contains_action fetch_error host_error any_uri parse_dest canonical_host level_result action_beq
    text_beq trim_space lower put_agent put_item put_grant use_auth get_agent get_secret get put
    save_version grant_key injects Agents.append_audit contains
failed_fetch = refl

-- The whole call by a session's token.
session_answered :
    (use_session libraries vault false (bytes "h") ask 20 served).0
    ≡ ok (answer_with redacted_answer)
unfolding use_call use_authorized audit_event recheck_agent reloaded proceed proceed_fetch commit
    after_row release answer_of fetch_upstream send_with access_token copy_header add_values
    authorize_header scrub_header audit_use ◌>>=◌ next pure fail attempt wrapping recorded
    unrecorded append_audit reload_agent read_secret send_request unpack mint header_get header_set
    header_add apply_token apply_material authorization_value own_secrets scrub_list filled
    all_filled scrub_bytes scrub_one replace_all replace_from contains has_prefix encode digit
    evaluate evaluate_grant action_allowed contains_action fetch_error host_error any_uri parse_dest
    canonical_host level_result action_beq text_beq trim_space lower put_agent put_item put_grant
    use_auth get_agent get_secret get put save_version grant_key injects Agents.append_audit
    use_session session_auth use_auth_session session_error is_exhausted session_hash_key
    put_session int_lt hex_digit after_consume consume_audited consume_session int_suc
session_answered = refl

use_session-IsClean_example :
    IsClean libraries.codecs 20
      (answer_with redacted_answer)
      (use_session libraries vault false (bytes "h") ask 20 served).1.past
use_session-IsClean_example =
    use_session-IsClean libraries vault false (bytes "h") ask 20 served refl
      (answer_with redacted_answer) session_answered
