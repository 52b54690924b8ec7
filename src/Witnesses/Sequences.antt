-- ===== src/Witnesses/Sequences.antt =====
-- Sequences of calls at concrete inputs: the limiter, and claims until no job is due.
use infra_ops.Prelude.{ℕ, String, ◌≡◌, refl, Bool, true, false, List, [], ◌∷◌, count_if, arith}
use infra_ops.Prelude.{Option, none, some, str_eq, strip}
use infra_ops.Network.Address.{split_on, parse_ipv4}
use infra_ops.ClientIp.{hops_of, walk, resolve_client_ip, client_ip_from_request}
use infra_ops.ClientIp.Forged.{client_ip_from_request-forged}
use infra_ops.Jobs.{Job, JobStatus}
use infra_ops.Repository.Queue.{is_due}
use infra_ops.Repository.Claims.Drained.{AllGiven, after_claims, claim_due_jobs_drain}
use infra_ops.Limiter.{drop_old, allow, reset}
use infra_ops.Limiter.Refined.{Event, call, clear, no_hits, answers, permits, answers-permits}
use infra_ops.Witnesses.Data.{job_with}

abbrev calls : List Event
calls =
    call 1 "10.0.0.1"
    ∷ call 2 "10.0.0.1"
    ∷ call 3 "10.0.0.1"
    ∷ call 70 "10.0.0.1"
    ∷ clear "10.0.0.1"
    ∷ call 71 "10.0.0.1"
    ∷ []

abbrev two : String → ℕ
two key = 2

abbrev minute : String → ℕ
minute key = 60

answered : answers two minute calls no_hits ≡ true ∷ true ∷ false ∷ true ∷ true ∷ []
unfolding answers allow reset drop_old
answered = refl

answers-permits_example : answers two minute calls no_hits ≡ permits two minute calls no_hits
answers-permits_example =
    answers-permits two minute calls
      (omega arith, (omega arith, (omega arith, (omega arith, (omega arith, tt)))))

abbrev waiting : List Job
waiting = job_with 1 "WEB-01" JobStatus.queued [] ∷ job_with 2 "WEB-02" JobStatus.queued [] ∷ []

abbrev open_rows : ℕ → Bool
open_rows id = false

claim_due_jobs_drain_example :
    (count_if
        (is_due 200 open_rows)
        (after_claims 200 open_rows (("worker-1", 1) ∷ ("worker-2", 3) ∷ []) waiting)
      ≡ 0)
    × AllGiven 200 waiting
        (after_claims 200 open_rows (("worker-1", 1) ∷ ("worker-2", 3) ∷ []) waiting)
claim_due_jobs_drain_example =
    claim_due_jobs_drain 200 open_rows (("worker-1", 1) ∷ ("worker-2", 3) ∷ []) waiting
      (omega arith, (omega arith, tt)) (omega arith)

abbrev address_if : Option ℕ → String → Option String
address_if none s = none
address_if (some a) s = some s

abbrev address_text : String → Option String
address_text s = address_if (parse_ipv4 s) s

abbrev itself : String → String
itself s = s

unfoldable forwarded : String → Option (Option String)
unfolding client_ip_from_request
forwarded header =
    client_ip_from_request address_text itself address_text str_eq "10.0.0.2, 10.0.0.3"
      (some "10.0.0.2") (some header)

found : forwarded "198.51.100.1, 203.0.113.7, 10.0.0.3" ≡ some (some "203.0.113.7")
unfolding forwarded client_ip_from_request resolve_client_ip walk hops_of split_on strip parse_ipv4
found = refl

client_ip_from_request-forged_example :
    client_ip_from_request address_text itself address_text str_eq "10.0.0.2, 10.0.0.3"
      (some "10.0.0.2")
      (some "198.51.100.1,203.0.113.7, 10.0.0.3")
    ≡ client_ip_from_request address_text itself address_text str_eq "10.0.0.2, 10.0.0.3"
        (some "10.0.0.2")
        (some "203.0.113.7, 10.0.0.3")
unfolding split_on strip parse_ipv4 hops_of
client_ip_from_request-forged_example =
    client_ip_from_request-forged address_text itself address_text str_eq "10.0.0.2, 10.0.0.3"
      "10.0.0.2" "198.51.100.1" "203.0.113.7, 10.0.0.3" ("10.0.0.2" ∷ "10.0.0.3" ∷ []) refl refl
