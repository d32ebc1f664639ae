-- ===== src/Tests/AppTests.antt =====
-- internal/app/app.go, session.go and internal/broker/env.go on concrete inputs, over the store in
-- memory.
use password_manager.Prelude.{ℕ, ◌≡◌, refl, true, false, none, List, [], ◌∷◌, ok, is_ok}
use password_manager.Prelude.Text.{Text, bytes, text_beq}
use password_manager.Bytes.{trim_space, trim_front, is_space}
use password_manager.GoMap.{get, put, values}
use password_manager.Protocol.{Principal, Fetch, human, user, injects, action_beq}
use password_manager.Grant.{
  evaluate, evaluate_grant, action_allowed, contains_action, fetch_error, level_result,
}
use password_manager.Material.{unpack}
use password_manager.Id.{valid, all_bytes}
use password_manager.Store.{
  Memory, new_memory, session_hash_key, hex_encode, hex_digit, grant_key, first_results,
}
use password_manager.Store.Agents
use password_manager.Store.Agents.{put_agent, get_agent}
use password_manager.Store.Items.{put_item, get_item, get_secret, save_version}
use password_manager.Store.Grants.{put_grant, list_grants, live_approval}
use password_manager.Store.Sessions.{put_session, session_by_hash}
use password_manager.Store.Steps.{step}
use password_manager.Broker.OnMemory.{Outside}
use password_manager.Broker.Refusals.{released}
use password_manager.App.{App, Toolbox, owns_vault}
use password_manager.App.Vault.{◌>>=◌, next, pure, given, guard, reads, calls, revoke_call}
use password_manager.App.Agents.{revoke_own_agent, add_agent}
use password_manager.App.ChildEnv.{
  agent_env, child_env, all_pairs, grant_pairs, judged_pairs, pairs_of, token_value, env_name,
  underscored,
}
use password_manager.App.Uses.{use_fetch, use_fetch_session}
use password_manager.App.SignIn.{principal_from_session}
use password_manager.App.Service.{Request, adds_agent, serve, serve_all}
use password_manager.App.Revoked.{
  later, revoke_own_agent-principal_from_session, revoke_own_agent-agent_env,
}
use password_manager.App.Released.{revoke_own_agent-use_fetch, revoke_own_agent-use_fetch_session}
use password_manager.Tests.Data.{bot, stripe, free_grant, lease, library}

abbrev pub vault : App
vault = record { org_id = bytes "org"; human_id = bytes "self"; members = none; verifier = none }

abbrev pub tools : Toolbox
tools = record {
  urls = library;
  codecs = record {
    unmarshal = λ raw. none;
    generate_code = λ seed now. none;
    canonical_key = λ k. k;
  };
  marshal = λ e. ok (bytes "{}");
  sha256 = λ s. s;
  to_upper = λ s. s;
}

abbrev pub world : Outside
world = record {
  refresh = λ e. ok (bytes "fresh");
  accepts = λ method url. true;
  append = λ e m. ok tt;
  send = λ u. ok (record { status = 200; header = []; body = [] });
}

abbrev pub self : Principal
self = record bot { kind = human; id = bytes "self" }

abbrev pub our_bot : Principal
our_bot = record bot { owner = record { kind = user; id = bytes "self" } }

abbrev pub start : Memory
start =
    put_session lease (bytes "h")
      (put_grant free_grant (put_item stripe (bytes "k-1") 5 (put_agent our_bot (new_memory))))

abbrev pub ask : Fetch
ask = record { method = []; url = bytes "https://a.io"; header = []; body = [] }

-- The variable of the item, from the store to the child.
child_sees : (agent_env tools world (bytes "bot") 20 start).0 ≡ ok (bytes "stripe=k-1" ∷ [])
unfolding agent_env child_env all_pairs grant_pairs judged_pairs pairs_of token_value env_name
    underscored ◌>>=◌ next pure guard reads calls put_session put_grant put_item put_agent get
    get_agent get_item get_secret list_grants live_approval save_version put values first_results
    grant_key session_hash_key hex_encode hex_digit text_beq evaluate evaluate_grant action_allowed
    contains_action action_beq fetch_error level_result injects unpack step
child_sees = refl

revoked : (revoke_own_agent vault self (bytes "bot") 30 start).0 ≡ ok tt
unfolding revoke_own_agent ◌>>=◌ next pure guard given reads revoke_call owns_vault valid all_bytes
    put_session put_grant put_item put_agent get get_agent save_version put Agents.revoke_agent
    text_beq
revoked = refl

abbrev again : List (Request × ℕ)
again = (adds_agent (bytes "bot"), 31) ∷ []

abbrev after : Memory
after = later vault tools world self (bytes "bot") 30 start again

after_session : session_by_hash (bytes "h") after ≡ ok lease
unfolding serve_all serve add_agent revoke_own_agent ◌>>=◌ next pure guard given reads calls
    revoke_call owns_vault valid all_bytes step put_session put_grant put_item put_agent get
    get_agent save_version put Agents.revoke_agent text_beq session_by_hash session_hash_key
    hex_encode hex_digit
after_session = refl

after_session_trimmed : session_by_hash (trim_space (bytes "h")) after ≡ ok lease
unfolding trim_space trim_front is_space
after_session_trimmed = after_session

revoke_own_agent-use_fetch_example :
    released (use_fetch tools world false (bytes "bot") (bytes "i1") ask 40 after).1.past ≡ []
revoke_own_agent-use_fetch_example =
    revoke_own_agent-use_fetch vault tools world self (bytes "bot") 30 start again false
      (bytes "i1") ask 40 revoked

revoke_own_agent-use_fetch_session_example :
    released (use_fetch_session tools world false (bytes "h") (bytes "i1") ask 40 after).1.past ≡ []
revoke_own_agent-use_fetch_session_example =
    revoke_own_agent-use_fetch_session vault tools world self (bytes "bot") 30 start again false
      (bytes "h") (bytes "i1") ask 40 lease revoked after_session refl

no_variable : (agent_env tools world (bytes "bot") 40 after).0 ≡ ok []
unfolding agent_env child_env all_pairs grant_pairs judged_pairs ◌>>=◌ next pure guard reads calls
    given put_session put_grant put_item put_agent get get_agent get_item list_grants live_approval
    save_version put values first_results grant_key session_hash_key hex_encode hex_digit text_beq
    evaluate injects step serve_all serve add_agent revoke_own_agent revoke_call owns_vault valid
    all_bytes Agents.revoke_agent Agents.append_audit
no_variable = refl

revoke_own_agent-agent_env_example : ◌≡◌ {A = List Text} [] []
revoke_own_agent-agent_env_example =
    revoke_own_agent-agent_env vault tools world self (bytes "bot") 30 start again 40 [] revoked
      no_variable

revoke_own_agent-principal_from_session_example :
    is_ok (principal_from_session tools (bytes "h") 40 after) ≡ false
revoke_own_agent-principal_from_session_example =
    revoke_own_agent-principal_from_session vault tools world self (bytes "bot") 30 start again
      (bytes "h") 40 lease revoked after_session_trimmed refl
