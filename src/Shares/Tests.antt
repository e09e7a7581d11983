-- ===== src/Shares/Tests.antt =====
-- apps/api/src/modules/shares/shares.service.ts: the results at concrete tables.
use soroban_dev_console.Shared.{
  ℕ, ◌≡◌, refl, String, true, false, Option, none, some, List, [], ◌∷◌, arith, ◌+◌,
}
use soroban_dev_console.Sanitizer.{
  Json, literal, array, object, nil, cons, end, field, sanitize_snapshot_payload, walk,
  is_sensitive_key, dashed, add, join,
}
use soroban_dev_console.Workspaces.{Workspace}
use soroban_dev_console.Shares.{Share, Links, not_found, forbidden, gone, resolve, revoke, cleanup}
use soroban_dev_console.Shares.Payloads.{
  sort_json_keys, keys, get_field, rebuilt, json_depth, normalize_snapshot,
}
use soroban_dev_console.Shares.Creation.{
  CreateShareDto, row_of, create, proceed, check, save, resolve_expiry,
}
use soroban_dev_console.Shares.Forks.{fork}
use soroban_dev_console.Shares.Histories.{Host, Request, creates, resolves, revokes, cleans, run}
use soroban_dev_console.Shares.Stored.{IsStored, create-IsStored}
use soroban_dev_console.Shares.Ended.{IsRefused, run-IsRefused, resolve-cleanup}
use soroban_dev_console.Shares.Counting.{IsCounted}
use soroban_dev_console.Shares.Views.{run-IsCounted}

abbrev host : Host ℕ
host = record {
  lower = λ s. s;
  sort = λ ks. ks;
  parse = λ s. some (literal s);
  size = λ v. 100;
  date = λ s. some 5000;
  year_later = λ now. now + 31536000000;
  is_null = λ n. false;
  show = λ v. "demo";
}

abbrev workspace : Workspace
workspace = record {
  id = "w1";
  owner_key = "ann";
  name = "demo";
  description = none;
  selected_network = "testnet";
  archived = false;
  revision = 0;
  tags = [];
  saved_contracts = [];
  saved_interactions = [];
  artifacts = [];
}

abbrev snapshot : Json ℕ
snapshot =
    object (
      field "rpc_secret" (literal "s3") (field "contractIds" (array (cons (literal "CA") nil)) end))

abbrev share : String → String → Option ℕ → Option ℕ → Share ℕ
share id token expires_at revoked_at = record {
  id = id;
  workspace_id = "w1";
  token = token;
  label = none;
  snapshot_json = snapshot;
  view_count = 0;
  expires_at = expires_at;
  revoked_at = revoked_at;
  created_at = 0;
}

abbrev links : Links ℕ
links = record {
  store = record { rows = workspace ∷ []; audit = [] };
  shares = share "s1" "t1" (some 900) none ∷ share "s2" "t2" none none ∷ [];
  access_logs = [];
}

abbrev dto : CreateShareDto ℕ
dto = record {
  workspace_id = "w1";
  label = none;
  snapshot_json = some snapshot;
  exclude_custom_auth_headers = none;
  expires_at = none;
  expires_in_seconds = some 60;
}

abbrev requests : List (ℕ × Request ℕ)
requests =
    (800, resolves "t1" none none)
    ∷ (1000, creates "s3" "t3" "ann" dto)
    ∷ (1001, resolves "t2" none none)
    ∷ (1002, revokes "t2" "ann")
    ∷ (1003, cleans)
    ∷ []

sanitized_snapshot : Json ℕ
sanitized_snapshot = object (
    field "rpc_secret" (literal "[REDACTED]")
      (field "contractIds" (array (cons (literal "CA") nil)) end))

resolve-late : (resolve 901 "t1" none none links).0 ≡ gone
unfolding resolve
resolve-late = refl

revoke-other : (revoke 5 "t1" "bob" links).0 ≡ forbidden
unfolding revoke
revoke-other = refl

create-IsStored_example :
    IsStored host.lower host.sort host.parse host.size host.date host.year_later 1000 "s3" "t3"
      "ann" dto links
      (record {
        share = row_of 1000 "s3" "t3" dto sanitized_snapshot (some 61000);
        sanitized = true;
        stripped_sensitive_keys = "rpc_secret" ∷ [];
      })
      (create host.lower host.sort host.parse host.size host.date host.year_later 1000 "s3" "t3"
        "ann" dto links).1
unfolding create proceed check save resolve_expiry normalize_snapshot sort_json_keys keys get_field
    rebuilt json_depth sanitize_snapshot_payload walk is_sensitive_key dashed add join
    sanitized_snapshot
create-IsStored_example =
    create-IsStored host.lower host.sort host.parse host.size host.date host.year_later 1000 "s3"
      "t3" "ann" dto links
      (record {
        share = row_of 1000 "s3" "t3" dto sanitized_snapshot (some 61000);
        sanitized = true;
        stripped_sensitive_keys = "rpc_secret" ∷ [];
      })
      refl

run-IsRefused_example :
    let later = run host requests links in
    IsRefused (resolve 2000 "t1" none none later).0
    × IsRefused (fork host.is_null host.show 2000 "w9" (λ n. "i") "t1" "cid" none later).0
run-IsRefused_example =
    run-IsRefused 1000 "t1" host requests links 2000 none none "w9" (λ n. "i") "cid" none
      ((λ e. refl), ((λ e. absurd (ground arith)), tt)) (tt, (refl, (tt, (tt, (tt, tt)))))
      (omega arith)

resolve-cleanup_example : (resolve 901 "t1" none none (cleanup 901 links).1).0 ≡ not_found
unfolding resolve
resolve-cleanup_example = resolve-cleanup 901 "t1" none none links (refl, (refl, tt))

links-IsCounted : IsCounted links
links-IsCounted = record {
  ids = (refl, (refl, tt));
  tokens = (refl, (refl, tt));
  counts = (refl, (refl, tt));
  known = tt;
}

run-IsCounted_example : IsCounted (run host requests links)
run-IsCounted_example = run-IsCounted host requests links links-IsCounted
