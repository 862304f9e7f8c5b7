-- ===== src/Tests/AccessRuns.antt =====
-- Grants, authorisations and values of the small organisation.
use codex_nieuw.Prelude.{
  ℕ, ◌≡◌, ◌≢◌, refl, true, false, Option, none, some, [], ◌∷◌, arith, keep, Memᴰ, length, find?,
  update_where,
}
use codex_nieuw.Prelude.Outcome.{
  Outcome, ok, err, ran, succeeds, no_written_authorisation, access_grant_inactive,
}
use codex_nieuw.Patterns.{trim}
use codex_nieuw.Json.{Text, codes, num, is_blank}
use codex_nieuw.Rules.Types.{legitimate_interest_item, authority_only, ev}
use codex_nieuw.Rules.Engine.{requirement_for}
use codex_nieuw.Rules.Catalogue.{fields}
use codex_nieuw.Rules.StateMachine.{ready}
use codex_nieuw.Batteries.Review.{
  decision_allowed, conditional_fields, assess_conditional_review, reviewed_applicability_context,
}
use codex_nieuw.Batteries.Review.Roundtrip.{IsComplete, assess-reviewed}
use codex_nieuw.Store.Rows.{
  AccessGrant, PassportVersion, PublicValue, ValidationStatus, ValueRow, EvidenceObject,
  WrittenAuthorisation, Db,
}
use codex_nieuw.Store.Queries.{latest_of, of_item, evidence_of}
use codex_nieuw.Tenant.Scope.{entries, permits_authorisation_scope, is_authorisation_scope_record}
use codex_nieuw.Tenant.Access.{Tenancy, can_activate, recheck}
use codex_nieuw.Tenant.PassportLock.{lock_value_owner, lock_item, lock_model, assert_active}
use codex_nieuw.Passports.Data.{usable_evidence}
use codex_nieuw.Passports.Projection.{project_passport}
use codex_nieuw.Passports.Projection.Disclosure.{IsDisclosable}
use codex_nieuw.Values.{ValueBody, create, validate_value, owns_value, has_id, is_out}
use codex_nieuw.Values.Slots.{IsSlotted}
use codex_nieuw.Values.Runs.{Step, created, idle, next, Run-IsSlotted}
use codex_nieuw.Values.Proven.{validate_value-proven}
use codex_nieuw.Authorisations.{AuthorisationBody, create_authorisation, revoke_authorisation}
use codex_nieuw.Authorisations.Granting.{revoke-recheck, create-can_activate}
use codex_nieuw.Access.{
  by_token, owns_grant, GrantBody, SessionView, create_grant, revoke_grant, session, with_grant,
  activate, read_passport,
}
use codex_nieuw.Access.Session.{IsOpenGrant, session-IsDisclosable}
use codex_nieuw.Access.Revoking.{revoke_grant-session}
use codex_nieuw.Tests.World.{clock, new_id, operator, world, decisions}
use codex_nieuw.Tests.LifecycleRuns.{before, first_version}
use codex_nieuw.Tests.TenantRuns.{provider, delegation}

-- Values.
abbrev no_values : Db
no_values = record (world ready) { values = [] }

abbrev weighing : ValueBody
weighing = record {
  model_id = none;
  item_id = some 20;
  field_id = 10;
  value = num 400;
  unit = none;
  source_kind = none;
}

create_run : Outcome (ValueRow × Db)
create_run = create true clock new_id operator 1 weighing no_values

creates : succeeds create_run ≡ true
unfolding create_run create lock_value_owner lock_item lock_model assert_active
creates = refl

starts-IsSlotted : IsSlotted no_values
starts-IsSlotted = record { slots = λ o m i f. omega arith }

first-Step : Step no_values (ran create_run creates).0.1
unfolding create_run
first-Step = created true clock new_id operator 1 weighing (ran create_run creates).1

Run-IsSlotted_example : IsSlotted (ran create_run creates).0.1
Run-IsSlotted_example = Run-IsSlotted (next (idle no_values) first-Step) starts-IsSlotted

validate_run : Outcome (ValueRow × Db)
validate_run = validate_value true clock new_id operator 1 10 (world ready)

validates : succeeds validate_run ≡ true
unfolding validate_run validate_value lock_value_owner lock_item lock_model assert_active fields
    usable_evidence evidence_of
validates = refl

validate_value-proven_example :
    (value : ValueRow) × (e : EvidenceObject) × (find? (owns_value 1 10) (world ready).values
      ≡ some value)
    × (value.valid_until ≡ none)
    × (is_out value.validation_status ≡ false)
    × Memᴰ e (evidence_of (world ready).links (world ready).evidence 10)
    × (usable_evidence true 1000 e ≡ true)
    × ((ran validate_run validates).0.0
        ≡ record value { validation_status = ValidationStatus.validated })
    × ((ran validate_run validates).0.1.values
        ≡ update_where
            (has_id 10)
            (λ (v : ValueRow). record v { validation_status = ValidationStatus.validated })
            (world ready).values)
unfolding validate_run
validate_value-proven_example =
    validate_value-proven true clock new_id operator 1 10 (world ready)
      (ran validate_run validates).0.0 (ran validate_run validates).0.1
      (ran validate_run validates).1

-- Authorisations.
abbrev asked : AuthorisationBody
asked = record {
  service_provider_id = 2;
  evidence_id = 30;
  scope = entries (("itemRead", some true) ∷ []);
  valid_from = some 5;
  valid_until = none;
}

allow_run : Outcome (WrittenAuthorisation × Db)
allow_run = create_authorisation clock new_id operator 1 asked (world ready)

allows_it : succeeds allow_run ≡ true
unfolding allow_run create_authorisation
allows_it = refl

permitted : permits_authorisation_scope (entries (("itemRead", some true) ∷ [])) "itemRead" ≡ true
unfolding permits_authorisation_scope is_authorisation_scope_record
permitted = refl

create-can_activate_example :
    (t : Tenancy) × (can_activate provider
        (some 1)
        (some "itemRead")
        100
        (ran allow_run allows_it).0.1
      ≡ ok t)
    × (t.tenant_organisation_id ≡ 1)
unfolding allow_run
create-can_activate_example =
    create-can_activate clock new_id operator 1 asked (world ready) (ran allow_run allows_it).0.0
      (ran allow_run allows_it).0.1 (ran allow_run allows_it).1 provider "itemRead" 100 refl
      permitted (omega arith)

withdraw_run : Outcome (WrittenAuthorisation × Db)
withdraw_run = revoke_authorisation clock new_id operator 1 40 (world ready)

withdraws : succeeds withdraw_run ≡ true
unfolding withdraw_run revoke_authorisation
withdraws = refl

revoke-recheck_example :
    recheck delegation 1 2000 (ran withdraw_run withdraws).0.1 ≡ err no_written_authorisation
unfolding withdraw_run
revoke-recheck_example =
    revoke-recheck clock new_id operator 1 40 (world ready) (ran withdraw_run withdraws).0.0
      (ran withdraw_run withdraws).0.1 (ran withdraw_run withdraws).1 delegation 1 2000 refl

-- Access grants.
abbrev wanted : GrantBody
wanted = record {
  item_id = 20;
  grantee_subject = "repairer";
  grantee_role = "repairer";
  access_tier = legitimate_interest_item;
  purpose = "repair";
  valid_for_hours = 1;
}

abbrev token : Text
token = codes "abc"

grant_run : Outcome (AccessGrant × Db)
grant_run = create_grant length clock new_id operator 1 token wanted before

grants_it : succeeds grant_run ≡ true
unfolding grant_run create_grant
grants_it = refl

abbrev grant : AccessGrant
grant = (ran grant_run grants_it).0.0

abbrev granted : Db
granted = (ran grant_run grants_it).0.1

newest : latest_of (first_version ∷ []) ≡ some first_version
unfolding latest_of
newest = refl

session_run : Outcome (SessionView × Db)
session_run = session length 2000 (some token) granted

opens_session : succeeds session_run ≡ true
unfolding session_run session with_grant activate read_passport grant_run ran grants_it create_grant
    latest_of
opens_session = refl

session-IsDisclosable_example :
    (g : AccessGrant) × (item_id : ℕ) × (until : ℕ) × (v : PassportVersion) × IsOpenGrant granted 3
      2000 g item_id until
    × (latest_of (keep (of_item g.organisation_id item_id) granted.versions) ≡ some v)
    × (((ran session_run opens_session).0.0).passport
        ≡ project_passport v.canonical (some g.access_tier))
    × ((d : PublicValue)
        → Memᴰ d (((ran session_run opens_session).0.0).passport).values
        → (disclosable : IsDisclosable (some g.access_tier) d.field_id) × ((disclosable.definition
              ).access_tier
            ≢ authority_only))
unfolding session_run
session-IsDisclosable_example =
    session-IsDisclosable length 2000 token granted (ran session_run opens_session).0.0
      (ran session_run opens_session).0.1 (ran session_run opens_session).1

close_run : Outcome (Option ℕ × Db)
close_run = revoke_grant length clock new_id operator 1 500 granted

closes_it : succeeds close_run ≡ true
unfolding close_run revoke_grant grant_run ran grants_it create_grant
closes_it = refl

by_its_token : find? (by_token 3) granted.grants ≡ some grant
unfolding grant_run ran grants_it create_grant
by_its_token = refl

by_its_number : find? (owns_grant 1 500) granted.grants ≡ some grant
unfolding grant_run ran grants_it create_grant
by_its_number = refl

revoke_grant-session_example :
    session length 2500 (some token) (ran close_run closes_it).0.1 ≡ err access_grant_inactive
unfolding close_run grant_run ran grants_it create_grant
revoke_grant-session_example =
    revoke_grant-session length clock new_id operator 1 grant granted (ran close_run closes_it).0.0
      (ran close_run closes_it).0.1 (ran close_run closes_it).1 token 2500 refl by_its_number
      by_its_token

-- The review of the conditional fields.
complete : IsComplete fields length ev decisions
unfolding fields conditional_fields requirement_for decision_allowed trim
complete = record { known = refl; once = refl; all_decided = refl; allowed = refl }

named : is_blank (codes "reviewer") ≡ false
unfolding is_blank
named = refl

assess-reviewed_example :
    assess_conditional_review fields length ev
      (reviewed_applicability_context fields length ev decisions (codes "reviewer") 5)
    ≡ record { unresolved_field_ids = []; issues = [] }
assess-reviewed_example =
    assess-reviewed fields length ev decisions (codes "reviewer") 5 complete named
