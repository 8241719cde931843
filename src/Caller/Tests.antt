-- ===== src/Caller/Tests.antt =====
-- Runs of src/caller.rs, and its theorems at concrete inputs.
use uds_policy.Caller.Render.Distinct.{rendered_apart}
use uds_policy.Common.{ℕ, ◌≡◌, refl, [], codes, flatten, decimal, signed_decimal, pos}
use uds_policy.System.{run}
use uds_policy.System.Sample.{sample}
use uds_policy.Caller.{peer}
use uds_policy.Caller.Names.{get, name_for_uid, sanitize}
use uds_policy.Caller.Names.Memo.{with_cache}
use uds_policy.Caller.Render.{display, numbers}

-- `you(uid 1000 gid 1000 pid 4711)`
rendered_name :
    (run (with_cache sample) (display (peer (pos 4711) 1000 1000)) ([], 0)).result
    ≡ codes "you(uid 1000 gid 1000 pid 4711)"
unfolding display name_for_uid get sanitize flatten numbers decimal signed_decimal
rendered_name = refl

rendered_numbers :
    (run (with_cache sample) (display (peer (pos 1421) 4294967294 4294967293)) ([], 0)).result
    ≡ codes "uid 4294967294 gid 4294967293 pid 1421"
unfolding display name_for_uid get numbers decimal signed_decimal
rendered_numbers = refl

rendered_apart_example : (pos 1421 ≡ pos 1421) × ◌≡◌ {A = ℕ} 1000 1000 × ◌≡◌ {A = ℕ} 970 970
unfolding display name_for_uid
rendered_apart_example =
    rendered_apart sample sample (pos 1421) (pos 1421) 1000 1000 970 970 0 7 refl
