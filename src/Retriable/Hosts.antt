-- ===== src/Retriable/Hosts.antt =====
-- The walk over the hosts: `executeRequest`.
use mathlib.Core.List.{append_assoc, append-nil}
use native.Mathlib.Nat.{add-zero}
use dolly.Prelude.{
  ℕ, zero, suc, ◌+◌, ◌-◌, ◌<◌, ◌≡◌, ◌≢◌, refl, ap, sym, ◌∙◌, true, false, Option, none, some, List,
  [], ◌∷◌, ◌++◌, Str, str_eq, str_eq_iff, lookup, lookup-insert, All, length, length-append,
  replicate, arith, if◌then◌else◌,
}
use dolly.HttpError.{GoError, Error, ManyError, add, entry_of}
use dolly.Retriable.{Response, Outcome, replied, failed, Reader, unread}
use dolly.Retriable.Execute.{
  should_try_different_host, Walk, after_failure, call_host, host_loop, got, all_failed, first_walk,
  execute_request,
}

abbrev pub reply_of : Outcome → List Response
reply_of (replied resp) = resp ∷ []
reply_of (failed resp err) = []

module _ (do_http : ℕ → Str → Str → Outcome) (bytes : Str) where
  -- Every host of the list, from the round `i`, fails in a way that lets the walk go on.
  abbrev pub Skipped : ℕ → List Str → Type 0
  Skipped i [] = Unit
  Skipped i (host ∷ hosts) =
      (should_try_different_host (do_http i host bytes) ≡ true) × Skipped (i + 1) hosts

  -- The replies of the hosts, in order.
  pub replies : ℕ → List Str → List Response
  replies i [] = []
  replies i (host ∷ hosts) = reply_of (do_http i host bytes) ++ replies (i + 1) hosts

module _ (do_http : ℕ → Str → Str → Outcome) (method path : Str) (n : ℕ) (bytes : Str) where
  abbrev fresh : Reader
  fresh = record { bytes = bytes; pos = 0 }

  abbrev next_walk : ℕ → Str → Walk → Walk
  next_walk i host w =
      let o = do_http i host bytes in after_failure method path n i host o (call_host o w)

  next_walk-fresh :
      (i : ℕ) (host : Str) (w : Walk) → w.body ≡ fresh → (next_walk i host w).body ≡ fresh
  unfolding after_failure call_host
  next_walk-fresh i host w h = ground arith

  next_walk-sent :
      (i : ℕ) (host : Str) (w : Walk)
      → w.body ≡ fresh
      → (next_walk i host w).sent ≡ w.sent ++ bytes ∷ []
  unfolding after_failure call_host
  next_walk-sent i host w h = ground arith

  next_walk-closed :
      (i : ℕ) (host : Str) (w : Walk)
      → i < n - 1
      → (next_walk i host w).closed ≡ w.closed ++ reply_of (do_http i host bytes)
  unfolding after_failure call_host
  next_walk-closed i host w h = ground (arith, append-nil w.closed)

  host_loop-next :
      (i : ℕ) (host : Str) (hosts : List Str) (w : Walk)
      → w.body ≡ fresh
      → should_try_different_host (do_http i host bytes) ≡ true
      → host_loop do_http method path n i (host ∷ hosts) w
        ≡ host_loop do_http method path n (i + 1) hosts (next_walk i host w)
  unfolding host_loop
  host_loop-next i host hosts w h t = rw (ap unread h, t)

  -- The walk after hosts that failed, none of them the last.
  record Passed (i : ℕ) (before : List Str) (w v : Walk) : Type 0 where
    fresh_body : v.body ≡ fresh
    sent : v.sent ≡ w.sent ++ replicate (length before) bytes
    closed : v.closed ≡ w.closed ++ replies do_http bytes i before

  host_loop-skip :
      (i : ℕ) (before rest : List Str) (w : Walk)
      → w.body ≡ fresh
      → Skipped do_http bytes i before
      → i + length before < n
      → (v : Walk) × (host_loop do_http method path n i (before ++ rest) w
          ≡ host_loop do_http method path n (i + length before) rest v)
        × Passed i before w v
  unfolding replies
  host_loop-skip i [] rest w h s e = (
    w,
    rw add-zero,
    record { fresh_body = h; sent = sym (append-nil w.sent); closed = sym (append-nil w.closed) },
  )
  host_loop-skip i (host ∷ before) rest w h s e =
      let w' = next_walk i host w in
      let (v, same, r) =
        host_loop-skip (i + 1) before rest w' (next_walk-fresh i host w h) s.1 (omega arith) in
      let k : i + suc (length before) ≡ i + 1 + length before = omega arith in
      (
        v,
        rw k (host_loop-next i host (before ++ rest) w h s.0 ∙ same),
        record {
          fresh_body = r.fresh_body;
          sent =
              r.sent
              ∙ ap (λ s. s ++ replicate (length before) bytes) (next_walk-sent i host w h)
              ∙ append_assoc w.sent (bytes ∷ []) (replicate (length before) bytes);
          closed =
              r.closed
              ∙ ap (λ c. c ++ replies do_http bytes (i + 1) before)
                  (next_walk-closed i host w (omega arith))
              ∙ append_assoc w.closed (reply_of (do_http i host bytes))
                  (replies do_http bytes (i + 1) before);
        },
      )

  host_loop-stop :
      (i : ℕ) (host : Str) (hosts : List Str) (w : Walk)
      → w.body ≡ fresh
      → should_try_different_host (do_http i host bytes) ≡ false
      → host_loop do_http method path n i (host ∷ hosts) w ≡ call_host (do_http i host bytes) w
  unfolding host_loop
  host_loop-stop i host hosts w h t = rw (ap unread h, t)

replied_of_stop :
    (o : Outcome) → should_try_different_host o ≡ false → (resp : Response) × (o ≡ replied resp)
unfolding should_try_different_host
replied_of_stop (replied resp) h = (resp, refl)
replied_of_stop (failed resp err) h = ground arith

call_host-replied :
    (o : Outcome) (resp : Response) (w : Walk) (body : Str)
    → o ≡ replied resp
    → w.body ≡ record { bytes = body; pos = 0 }
    → ((call_host o w).resp ≡ some resp)
      × ((call_host o w).sent ≡ w.sent ++ body ∷ [])
      × ((call_host o w).closed ≡ w.closed)
unfolding call_host
call_host-replied o resp w body e h = ground arith

replicate-append : (k : ℕ) (s : Str) → replicate k s ++ s ∷ [] ≡ replicate (suc k) s
replicate-append zero s = refl
replicate-append (suc k) s = ap (λ r. s ∷ r) (replicate-append k s)

-- Hosts are tried in order until one replies with a status that is not 500, 503, 504 or 429: then
-- `executeRequest` returns that reply, whatever hosts come after; the request's body went whole to
-- that host and to each before it, and no others, and the replies closed are those of the hosts
-- before it.
pub first_good_host :
    (do_http : ℕ → Str → Str → Outcome) (method path : Str) (before after : List Str)
    (host body : Str)
    → Skipped do_http body 0 before
    → should_try_different_host (do_http (length before) host body) ≡ false
    → let run = execute_request do_http method (before ++ host ∷ after) path body in
      (resp : Response) × (do_http (length before) host body ≡ replied resp)
      × (run.0 ≡ got resp)
      × (run.1.sent ≡ replicate (suc (length before)) body)
      × (run.1.closed ≡ replies do_http body 0 before)
unfolding execute_request
first_good_host do_http method path before after host body s t =
    let n = length (before ++ host ∷ after) in
    let fits : 0 + length before < n = omega (arith, length-append before (host ∷ after)) in
    let (v, same, r) =
      host_loop-skip do_http method path n body 0 before (host ∷ after) (first_walk body) refl s
        fits in
    let k : 0 + length before ≡ length before = omega arith in
    let t' : should_try_different_host (do_http (0 + length before) host body) ≡ false = rw k t in
    let last =
      host_loop-stop do_http method path n body (0 + length before) host after v r.fresh_body t' in
    let (resp, e) = replied_of_stop (do_http (length before) host body) t in
    let e' : do_http (0 + length before) host body ≡ replied resp = rw k e in
    let (ends, sent, closed) =
      call_host-replied (do_http (0 + length before) host body) resp v body e' r.fresh_body in
    (
      resp,
      e,
      rw (same, last, ends),
      rw (same, last, sent, r.sent) (replicate-append (length before) body),
      rw (same, last, closed, r.closed),
    )

lookup_error : Str → Option ManyError → Option Error
lookup_error host none = none
lookup_error host (some m) = lookup host m.errors

lookup_error-add :
    (key host : Str) (m : Option ManyError) (err : GoError)
    → lookup_error host (some (add m key err))
      ≡ (if str_eq key host then some (entry_of err) else lookup_error host m)
unfolding lookup_error add lookup
lookup_error-add key host none err = lookup-insert key host (entry_of err) []
lookup_error-add key host (some m) err = lookup-insert key host (entry_of err) m.errors

module _ (errs : ℕ → Str → GoError) where
  abbrev erring : ℕ → Str → Str → Outcome
  erring i host body = failed none (errs i host)

  add_all : ℕ → List Str → Option ManyError → Option ManyError
  add_all i [] m = m
  add_all i (host ∷ hosts) m = add_all (i + 1) hosts (some (add m host (errs i host)))

  module _ (method path : Str) (n : ℕ) where
    host_loop-erring :
        (i : ℕ) (hosts : List Str) (w : Walk)
        → w.resp ≡ none
        → let v = host_loop erring method path n i hosts w in
          (v.resp ≡ none) × (v.many ≡ add_all i hosts w.many)
    unfolding host_loop add_all
    host_loop-erring i [] w h = (h, refl)
    host_loop-erring i (host ∷ hosts) w h = host_loop-erring (i + 1) hosts _ refl

  add_all-append :
      (i : ℕ) (before rest : List Str) (m : Option ManyError)
      → add_all i (before ++ rest) m ≡ add_all (i + length before) rest (add_all i before m)
  unfolding add_all
  add_all-append i [] rest m = rw add-zero
  add_all-append i (host ∷ before) rest m =
      let k : i + suc (length before) ≡ i + 1 + length before = omega arith in
      rw k (add_all-append (i + 1) before rest (some (add m host (errs i host))))

  lookup_error-add_all :
      (i : ℕ) (hosts : List Str) (m : Option ManyError) (host : Str)
      → All (λ x. x ≢ host) hosts
      → lookup_error host (add_all i hosts m) ≡ lookup_error host m
  unfolding add_all
  lookup_error-add_all i [] m host a = refl
  lookup_error-add_all i (x ∷ hosts) m host a =
      lookup_error-add_all (i + 1) hosts (some (add m x (errs i x))) host a.1
      ∙ lookup_error-add x host m (errs i x)
      ∙ ground (arith, str_eq_iff x host, a.0)

  add_all-some :
      (i : ℕ) (hosts : List Str) (m : ManyError)
      → (m' : ManyError) × (add_all i hosts (some m) ≡ some m')
  unfolding add_all
  add_all-some i [] m = (m, refl)
  add_all-some i (x ∷ hosts) m = add_all-some (i + 1) hosts (add (some m) x (errs i x))

-- If every host ends in an error with no response, `executeRequest` returns an error that has an
-- entry for each host: the error of the last attempt at that host.
pub every_host_err :
    (errs : ℕ → Str → GoError) (method path : Str) (before after : List Str) (host body : Str)
    → All (λ x. x ≢ host) after
    → (m : ManyError) × ((execute_request
          (λ i h b. failed none (errs i h))
          method
          (before ++ host ∷ after)
          path
          body).0
        ≡ all_failed (some m))
      × (lookup host m.errors ≡ some (entry_of (errs (length before) host)))
unfolding execute_request add_all lookup_error
every_host_err errs method path before after host body a =
    let n = length (before ++ host ∷ after) in
    let (no_resp, many) =
      host_loop-erring errs method path n 0 (before ++ host ∷ after) (first_walk body) refl in
    let k : 0 + length before ≡ length before = omega arith in
    let m₀ = add_all errs 0 before none in
    let m₁ = add m₀ host (errs (length before) host) in
    let split : add_all errs 0 (before ++ host ∷ after) none
        ≡ add_all errs (length before + 1) after (some m₁) =
      rw (add_all-append errs 0 before (host ∷ after) none, k) in
    let (m, e) = add_all-some errs (length before + 1) after m₁ in
    let found : lookup_error host (some m) ≡ some (entry_of (errs (length before) host)) =
      ap (lookup_error host) (sym e)
      ∙ lookup_error-add_all errs (length before + 1) after (some m₁) host a
      ∙ lookup_error-add host host m₀ (errs (length before) host)
      ∙ ground (arith, str_eq_iff host host) in
    (m, rw (no_resp, many, split, e), found)
