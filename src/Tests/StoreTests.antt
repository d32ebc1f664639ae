-- ===== src/Tests/StoreTests.antt =====
-- internal/store/memory.go on concrete inputs.
use password_manager.Prelude.{
  number_keys, ◌++◌, ◌*◌, ◌⊎◌, ◌≢◌, if◌then◌else◌, ◌≡◌, ◌↔◌, ◌+◌, ◌≤◌, refl, none, some, [], ◌∷◌,
  ok, arith, All, List, not_found, err,
}
use password_manager.Prelude.Text.{Text, bytes, text_beq, text_keys}
use password_manager.Prelude.Int64.{int_lt, int_suc, second}
use password_manager.GoMap.{get, put, values}
use password_manager.Protocol.{Session, AuditEvent, fetch, Decision}
use password_manager.Grant.{evaluate}
use password_manager.Store.{Memory, new_memory, session_hash_key, hex_encode, hex_digit, UseAuth}
use password_manager.Store.Agents.{put_agent, revoke_agent, get_agent}
use password_manager.Store.Items.{
  put_item, save_version, delete_item, get_item, get_secret, get_versions, restore_version,
}
use password_manager.Store.Grants.{put_grant, use_auth}
use password_manager.Store.Sessions.{
  put_session, session_by_hash, consume_session, session_error, is_exhausted, renewed_expiry,
}
use password_manager.Store.Sweep.{sweep}
use password_manager.Store.Steps.{
  Call, agent_put, item_put, grant_put, session_put, session_consume, item_delete, step, run,
}
use password_manager.Store.WellFormed.{IsWellFormed}
use password_manager.Store.WellFormed.Runs.{step-IsWellFormed, run_new-IsWellFormed}
use password_manager.Store.Revocation.{revoke_agent-evaluate, later}
use password_manager.Store.Lookups.{delete_item-gone}
use password_manager.Store.SessionLaws.{
  own_row, consume_session-ok_iff, consume_session_effect, renewed_expiry_bounds, HasUse,
}
use password_manager.Store.SweepLaws.{sweep-evaluate}
use password_manager.Store.History.{restore_version-put_item}
use password_manager.Store.Budget.{consumed_all, consumed_all-le-max_uses}
use password_manager.Tests.Data.{bot, stripe, free_grant, lease, row, library}

abbrev set_up : List Call
set_up =
    agent_put bot
    ∷ item_put stripe (bytes "k1") 5
    ∷ grant_put free_grant
    ∷ session_put lease (7 ∷ [])
    ∷ []

abbrev vault : Memory
vault = run set_up new_memory

run_new-IsWellFormed_example : IsWellFormed vault
run_new-IsWellFormed_example = run_new-IsWellFormed set_up

step-IsWellFormed_example : IsWellFormed (step (item_delete (bytes "i1")) vault)
step-IsWellFormed_example =
    step-IsWellFormed (item_delete (bytes "i1")) vault run_new-IsWellFormed_example

lease_known : session_by_hash (7 ∷ []) vault ≡ ok lease
unfolding run step put_agent put_item save_version put_grant put_session session_by_hash get put
    session_hash_key hex_encode hex_digit text_beq
lease_known = refl

bot_known : get_agent (bytes "bot") vault ≡ ok bot
unfolding run step put_agent put_item save_version put_grant put_session get_agent get put
    session_hash_key hex_encode hex_digit text_beq
bot_known = refl

consume_session-ok_iff_example : ((consume_session (7 ∷ []) 20 (some row) vault).0 ≡ ok bot) ↔ (
    (s : Session) × (session_by_hash (7 ∷ []) vault ≡ ok s)
    × HasUse s 20
    × (get_agent s.agent_id vault ≡ ok bot)
    × (bot.revoked_at ≡ none))
consume_session-ok_iff_example = consume_session-ok_iff (7 ∷ []) 20 (some row) vault bot

lease_consumed : (consume_session (7 ∷ []) 20 (some row) vault).0 ≡ ok bot
unfolding run step put_agent put_item save_version put_grant put_session consume_session
    session_error is_exhausted int_lt get put session_hash_key hex_encode hex_digit text_beq
lease_consumed = refl

consume_session_effect_example :
    let m' = (consume_session (7 ∷ []) 20 (some row) vault).1 in
    ((k : Text)
      → get k m'.sessions ≡ (
          if text_beq (session_hash_key (7 ∷ [])) k
          then some (record lease { uses = int_suc 0 })
          else get k vault.sessions))
    × (some row ≡ none → m'.audit ≡ vault.audit)
    × ((e : AuditEvent) → some row ≡ some e → m'.audit ≡ vault.audit ++ own_row e bot ∷ [])
    × (m'.agents ≡ vault.agents)
    × (m'.grants ≡ vault.grants)
    × (m'.approvals ≡ vault.approvals)
consume_session_effect_example =
    consume_session_effect (7 ∷ []) 20 (some row) vault lease bot lease_known lease_consumed

renewed_expiry_bounds_example :
    (50 ≤ renewed_expiry lease)
    × (renewed_expiry lease ≤ 50 + 900 * second)
    × ((renewed_expiry lease ≡ 50) ⊎ (renewed_expiry lease ≤ 10 + 3600 * second))
renewed_expiry_bounds_example = renewed_expiry_bounds lease (omega arith) (omega arith)

-- Two consumptions, and a third that fails.
abbrev three_uses : List Call
three_uses =
    session_consume (7 ∷ []) 20 none
    ∷ session_consume (7 ∷ []) 21 (some row)
    ∷ session_consume (7 ∷ []) 22 none
    ∷ []

consumed_all-le-max_uses_example : 0 + consumed_all (session_hash_key (7 ∷ [])) three_uses vault ≤ 2
consumed_all-le-max_uses_example =
    consumed_all-le-max_uses (7 ∷ []) lease three_uses vault run_new-IsWellFormed_example
      lease_known (omega arith) (omega arith) (omega arith) (omega arith)

revoke_done : (revoke_agent (bytes "bot") 15 (row ∷ []) vault).0 ≡ ok tt
unfolding run step put_agent put_item save_version put_grant put_session revoke_agent get put
    text_beq
revoke_done = refl

abbrev after : List Call
after = agent_put bot ∷ []

revoke_agent-evaluate_example :
    let auth =
      use_auth (bytes "bot") (bytes "i1") 20 (later (bytes "bot") 15 (row ∷ []) vault after) in
    (evaluate library (record {
      principal = auth.agent;
      item = auth.item;
      grant = auth.grant;
      action = fetch;
      target_url = bytes "https://a.io";
      approval = auth.approval;
      now = 20;
    })).decision
    ≡ Decision.deny
revoke_agent-evaluate_example =
    revoke_agent-evaluate (bytes "bot") 15 (row ∷ []) vault after library (bytes "i1") fetch
      (bytes "https://a.io") 20 revoke_done

lease_still : session_by_hash (7 ∷ []) (later (bytes "bot") 15 (row ∷ []) vault after) ≡ ok lease
unfolding run step put_agent put_item save_version put_grant put_session revoke_agent
    session_by_hash get put session_hash_key hex_encode hex_digit text_beq
lease_still = refl

delete_done : (delete_item (bytes "i1") vault).0 ≡ ok tt
unfolding run step put_agent put_item save_version put_grant put_session delete_item get put
    text_beq
delete_done = refl

delete_item-gone_example :
    let m' = (delete_item (bytes "i1") vault).1 in
    (get_item (bytes "i1") m' ≡ err not_found)
    × (get_secret (bytes "i1") m' ≡ err not_found)
    × (get_versions (bytes "i1") m' ≡ [])
    × All (λ g. g.item_id ≢ bytes "i1") (values m'.grants)
delete_item-gone_example = delete_item-gone (bytes "i1") vault delete_done

sealed_known : get_secret (bytes "i1") vault ≡ ok (bytes "k1")
unfolding run step put_agent put_item save_version put_grant put_session get_secret get put text_beq
sealed_known = refl

restore_version-put_item_example :
    let r =
      restore_version
        (bytes "i1")
        (int_suc vault.next_ver)
        9
        (put_item stripe (bytes "k2") 8 vault) in
    (r.0 ≡ ok tt)
    × (get_secret (bytes "i1") r.1 ≡ ok (bytes "k1"))
    × (get_item (bytes "i1") r.1 ≡ ok stripe)
    × (get (int_suc (int_suc vault.next_ver)) r.1.ver_secret ≡ some (bytes "k2"))
restore_version-put_item_example =
    restore_version-put_item stripe (bytes "k2") (bytes "k1") 8 vault 9 sealed_known

sweep-evaluate_example :
    let decide = λ (auth : UseAuth).
      (evaluate library (record {
        principal = auth.agent;
        item = auth.item;
        grant = auth.grant;
        action = fetch;
        target_url = bytes "https://a.io";
        approval = auth.approval;
        now = 120;
      })).decision in
    decide (use_auth (bytes "bot") (bytes "i1") 120 (sweep 110 vault).1)
    ≡ decide (use_auth (bytes "bot") (bytes "i1") 120 vault)
sweep-evaluate_example =
    sweep-evaluate 110 120 vault (omega arith) run_new-IsWellFormed_example library (bytes "bot")
      (bytes "i1") fetch (bytes "https://a.io")
