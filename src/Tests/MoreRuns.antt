-- ===== src/Tests/MoreRuns.antt =====
-- Requests at the limiter, imports and reviews of batteries, and Registry drafts.
use codex_nieuw.Prelude.{
  ℕ, ◌≤◌, ◌≡◌, refl, true, false, Option, none, some, List, [], ◌∷◌, ◌++◌, arith, length, all,
}
use codex_nieuw.Prelude.Outcome.{Outcome, ran, succeeds}
use codex_nieuw.Json.{Text, codes, is_blank}
use codex_nieuw.Rules.Types.{ev}
use codex_nieuw.Rules.StateMachine.{ready}
use codex_nieuw.Batteries.Handlers.{ItemBody, bulk}
use codex_nieuw.Batteries.Handlers.Bulk.{AreItems, OwnsAll, bulk_lem}
use codex_nieuw.Store.Rows.{BatteryItem, Db}
use codex_nieuw.Limiter.{Request, Limiter}
use codex_nieuw.Limiter.Window.{passes, passes-le-limit}
use codex_nieuw.Registry.Xml.{escape_xml, xml_text_allowed, code_points}
use codex_nieuw.Registry.Xml.Escaping.{entities, is_safe, escape_xml_lem}
use codex_nieuw.Registry.Draft.{
  PreparedRecord, Url, valid_registry_upi, record_valid, records_valid,
}
use codex_nieuw.Tests.World.{clock, new_id, operator, world}

-- The limiter.
abbrev idle : Limiter
idle = record { buckets = []; next_cleanup = 0 }

abbrev visit : ℕ → Request
visit time = record { started = time; address = 7; is_sensitive = false }

passes-le-limit_example : passes 1 1 7 (visit 10 ∷ visit 20 ∷ visit 30 ∷ []) idle ≤ 1
passes-le-limit_example =
    passes-le-limit 1 1 7 10 (visit 10 ∷ visit 20 ∷ visit 30 ∷ []) idle refl
      ((omega arith, omega arith), ((omega arith, omega arith), ((omega arith, omega arith), tt)))

-- Batteries.
abbrev body : ItemBody
body = record {
  model_id = 10;
  serial = codes "T";
  batch = none;
  upi = none;
  manufacture_date = none;
}

bulk_run : Outcome (List BatteryItem × Db)
bulk_run = bulk length clock new_id operator 1 (body ∷ body ∷ []) (world ready)

imports : succeeds bulk_run ≡ true
unfolding bulk_run bulk
imports = refl

bulk_lem_example :
    ((ran bulk_run imports).0.1.items ≡ (world ready).items ++ (ran bulk_run imports).0.0)
    × AreItems length clock new_id operator 1 (body ∷ body ∷ []) (ran bulk_run imports).0.0
    × OwnsAll 1 (world ready).models (10 ∷ 10 ∷ [])
unfolding bulk_run
bulk_lem_example =
    bulk_lem length clock new_id operator 1 (body ∷ body ∷ []) (world ready)
      (ran bulk_run imports).0.0 (ran bulk_run imports).0.1 (ran bulk_run imports).1 refl

-- Registry drafts.
escape_xml_lem_example :
    (escape_xml (codes "a<b&c") ≡ entities (codes "a<b&c"))
    × (all is_safe (escape_xml (codes "a<b&c")) ≡ true)
escape_xml_lem_example = escape_xml_lem (codes "a<b&c")

abbrev read_url : Text → Option Url
read_url t = some record {
  is_https = true;
  has_hostname = true;
  has_username = false;
  has_password = false;
  has_hash = false;
}

abbrev prepared : ℕ → Text → PreparedRecord
prepared id upi = record {
  item_id = id;
  version_id = id;
  upi = upi;
  product_identifier = codes "S";
  category = ev;
  schema_version = codes "1";
  rule_set_version = codes "2";
  passport_sha256 = 9;
}

abbrev two : List PreparedRecord
two = prepared 20 (codes "https://a") ∷ prepared 21 (codes "https://b") ∷ []

two_valid : records_valid read_url two ≡ true
unfolding record_valid valid_registry_upi xml_text_allowed code_points is_blank
two_valid = refl
