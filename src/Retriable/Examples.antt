-- ===== src/Retriable/Examples.antt =====
-- Runs of the retrying client, and the theorems about it at concrete inputs.
use dolly.Prelude.{
  ℕ, zero, suc, ◌≤◌, ◌≡◌, ◌≢◌, ◌↔◌, refl, true, none, some, [], ◌∷◌, Str, codes, lookup, length,
  replicate, arith,
}
use dolly.GoText.{contains}
use dolly.Slices.{string_contains_one_of}
use dolly.HttpError.{GoError, other, go_error_text, ManyError, entry_of}
use dolly.Retriable.{
  Response, Outcome, replied, failed, live, new_default_policy, should_retry, Attempt, Trace,
  do_request,
}
use dolly.Retriable.Execute.{got, all_failed, execute_request, should_try_different_host}
use dolly.Retriable.Verdicts.{DefaultRetry, default_policy_iff}
use dolly.Retriable.Attempts.{RunsTo, do_request-RunsTo, default_request_ends}
use dolly.Retriable.Hosts.{replies, first_good_host, every_host_err}

abbrev reply : ℕ → Response
reply status = record { header = []; status_code = status; status = []; body = [] }

abbrev refused : GoError
refused = other (codes "connection refused")

default_policy_iff_example :
    ((should_retry new_default_policy (replied (reply 429)) live 3).retry ≡ true)
    ↔ DefaultRetry (replied (reply 429)) live 3
default_policy_iff_example = default_policy_iff (replied (reply 429)) live 3

-- The transport replies 503, fails to connect, and then replies 200.
abbrev flaky : ℕ → Attempt
flaky zero = record { outcome = replied (reply 503); consumed = 2; ctx = live }
flaky (suc zero) = record { outcome = failed none refused; consumed = 1; ctx = live }
flaky (suc (suc n)) = record { outcome = replied (reply 200); consumed = 4; ctx = live }

abbrev flaky_trace : Trace
flaky_trace = record {
  sent = codes "body" ∷ codes "body" ∷ codes "body" ∷ [];
  slept = 500000000 ∷ 2000000000 ∷ [];
  result = replied (reply 200);
}

flaky_runs : do_request 11 new_default_policy flaky (codes "body") ≡ some flaky_trace
unfolding do_request new_default_policy string_contains_one_of contains go_error_text
flaky_runs = refl

do_request-RunsTo_example : (k : ℕ) × RunsTo new_default_policy flaky (codes "body") 0 k flaky_trace
do_request-RunsTo_example =
    do_request-RunsTo 11 new_default_policy flaky (codes "body") flaky_trace flaky_runs

default_request_ends_example :
    (tr : Trace) × (do_request 11 new_default_policy flaky (codes "body") ≡ some tr)
    × (length tr.sent ≤ 11)
default_request_ends_example = default_request_ends flaky (codes "body")

-- Host a replies 503, b fails to connect, c replies 404, and d is not asked.
abbrev three_hosts : ℕ → Str → Str → Outcome
three_hosts zero host body = replied (reply 503)
three_hosts (suc zero) host body = failed none refused
three_hosts (suc (suc n)) host body = replied (reply 404)

first_good_host_example :
    let hosts = codes "a" ∷ codes "b" ∷ codes "c" ∷ codes "d" ∷ [] in
    let run = execute_request three_hosts (codes "GET") hosts (codes "/v1") (codes "q") in
    (resp : Response) × (three_hosts 2 (codes "c") (codes "q") ≡ replied resp)
    × (run.0 ≡ got resp)
    × (run.1.sent ≡ replicate 3 (codes "q"))
    × (run.1.closed ≡ replies three_hosts (codes "q") 0 (codes "a" ∷ codes "b" ∷ []))
unfolding should_try_different_host
first_good_host_example =
    first_good_host three_hosts (codes "GET") (codes "/v1") (codes "a" ∷ codes "b" ∷ [])
      (codes "d" ∷ []) (codes "c") (codes "q") (refl, (refl, tt)) refl

every_host_err_example :
    (m : ManyError) × ((execute_request
        (λ i h b. failed none refused)
        (codes "GET")
        (codes "a" ∷ codes "b" ∷ [])
        (codes "/v1")
        (codes "q")).0
      ≡ all_failed (some m))
    × (lookup (codes "a") m.errors ≡ some (entry_of refused))
every_host_err_example =
    every_host_err (λ i h. refused) (codes "GET") (codes "/v1") [] (codes "b" ∷ []) (codes "a")
      (codes "q") (b_ne_a, tt)
  where
    b_ne_a : codes "b" ≢ codes "a"
    b_ne_a e = grind (arith, e)
