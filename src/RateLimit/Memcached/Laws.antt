-- ===== src/RateLimit/Memcached/Laws.antt =====
-- The counters of app/core/rate_limit/backends/memcached.py over a server that keeps values as Memcached
-- documents it.
use fastapi_hyperf.Common.{
  ℕ, ◌+◌, ◌*◌, ◌≤◌, ◌<◌, String, true, not, [], ◌==◌, eqb, ltb, if◌then◌else◌, ok, err, ◌≡◌, arith,
  concat, str, false, Option, none, some, ap, ◌∙◌, Error, int-str, str-nonempty,
}
use fastapi_hyperf.RateLimit.Backend.{Backend, window_start}
use fastapi_hyperf.RateLimit.Redis.{number_of}
use fastapi_hyperf.RateLimit.Memcached.{Client, increment_and_check, count_request, add}
use fastapi_hyperf.RateLimit.Window.{
  History, CountsRequests, IsOrdered, check_all, check_all-expected, expected, window, Reflects,
  seen,
}

-- the largest lifetime that Memcached takes for one: 30 days. It reads a larger number as an instant.
abbrev longest : ℕ
longest = 60 * 60 * 24 * 30

-- A value is kept for its lifetime, and a command leaves the other keys alone.
pub record Laws {Server : Type 0} (client : Client Server) : Type 0 where
  pub value : ℕ → String → Server → Option String
  pub reads : (t : ℕ) (key : String) (s : Server) → client.get t key s ≡ (ok (value t key s), s)
  pub writes :
      (t lifetime : ℕ) (key text : String) (s : Server)
      → (client.set t key text lifetime s).0 ≡ ok true
  pub kept :
      (t u lifetime : ℕ) (key text : String) (s : Server)
      → lifetime ≤ longest
      → t ≤ u
      → u < t + lifetime
      → value u key (client.set t key text lifetime s).1 ≡ some text
  pub untouched :
      (t u lifetime : ℕ) (key other text : String) (s : Server)
      → (key == other) ≡ false
      → t ≤ u
      → value u other (client.set t key text lifetime s).1 ≡ value u other s

-- how a counter that has counted is stored
abbrev pub stored : ℕ → Option String
stored n = if eqb n 0 then none else some (str n)

module _ {Server : Type 0} (client : Client Server) (md5 : String → String) where
  keeps_policy :
      (t : ℕ) (key : String) (limit period : ℕ) (b : Backend Server)
      → (count_request client md5 t key limit period b).1.fail_open ≡ b.fail_open
  unfolding count_request window_start number_of add
  keeps_policy t key limit period b = ground arith

  -- Where counting a request raises, whatever the client does, `increment_and_check` does not: it
  -- answers 0 and, unless the backend fails open, that the request is limited.
  pub increment_and_check-fails_by_digest :
      (t : ℕ) (key : String) (limit period : ℕ) (b : Backend Server) (e : Error)
      → (count_request client md5 t key limit period b).0 ≡ err e
      → (increment_and_check client md5 t key limit period b).0 ≡ ok (0, not b.fail_open)
  unfolding increment_and_check
  increment_and_check-fails_by_digest t key limit period b e h =
      ground (arith, h, keeps_policy t key limit period b)

  number_of-stored :
      (n : ℕ) (b : Backend Server)
      → number_of (stored n) b ≡ (ok (if eqb n 0 then none else some n), b)
  unfolding number_of
  number_of-stored n b = ground (arith, int-str n, str-nonempty n)

  add_lem :
      (law : Laws client) (t n : ℕ) (key : String) (amount expiry : ℕ) (b : Backend Server)
      → law.value t key b.server ≡ stored n
      → add client md5 t key amount expiry b ≡ (
        ok (n + amount),
        record b { server = (client.set t key (str (n + amount)) expiry b.server).1 },
      )
  unfolding add
  add_lem law t n key amount expiry b shown = ground (
    arith,
    law.reads t key b.server,
    shown,
    number_of-stored n b,
    law.writes t expiry key (str (n + amount)) b.server,
  )

  counted :
      (law : Laws client) (t n : ℕ) (key : String) (limit period : ℕ) (b : Backend Server)
      → 0 < period
      → law.value t (concat (md5 key) (concat ":" (str (window period t)))) b.server ≡ stored n
      → increment_and_check client md5 t key limit period b ≡ (
        ok (n + 1, ltb limit (n + 1)),
        record b {
          server =
              (client.set t
                (concat (md5 key) (concat ":" (str (window period t))))
                (str (n + 1))
                period
                b.server).1;
        },
      )
  unfolding increment_and_check count_request window_start window
  counted law t n key limit period b h shown = ground (
    arith,
    add_lem law t n (concat (md5 key) (concat ":" (str (window period t)))) 1 period b shown,
  )

  pub counts_requests :
      (law : Laws client) (limit period : ℕ)
      → 0 < period
      → period ≤ longest
      → CountsRequests
          (increment_and_check client md5)
          md5
          (λ t k n b. law.value t k b.server ≡ stored n)
          limit
          period
  counts_requests law limit period h short = record {
    replies = λ t n key s shown. ap (λ r. r.0) (counted law t n key limit period s h shown);
    counts = λ t u n key s shown le lt.
        rw (counted law t n key limit period s h shown)
          (law.kept t u period _ _ s.server short le lt ∙ ground arith);
    leaves = λ t u n m key other s shown apart le kept.
        rw (counted law t n key limit period s h shown)
          (law.untouched t u period _ other _ s.server apart le ∙ kept);
  }

  -- For a period that is not 0 and at most 30 days, and over a server that keeps values as
  -- Memcached documents it and shows none from the first request on, a sequence of requests in the
  -- order of time is answered as the windows count them: each with the number of the requests in
  -- its window up to it whose keys have the digest of its key, and as limited exactly if that
  -- number exceeds the limit.
  pub increment_and_check-expected_by_digest :
      (law : Laws client) (t limit period : ℕ) (requests : History) (b : Backend Server)
      → 0 < period
      → period ≤ longest
      → IsOrdered t requests
      → ((u : ℕ) (key : String) → t ≤ u → law.value u key b.server ≡ none)
      → check_all (increment_and_check client md5) limit period requests b
        ≡ expected md5 limit period [] requests
  unfolding Reflects seen
  increment_and_check-expected_by_digest law t limit period requests b h short ordered fresh =
      check_all-expected limit period (counts_requests law limit period h short) h t [] requests b
        ordered (λ u k le. fresh u _ le)
