-- ===== src/RateLimit/Redis/Laws.antt =====
-- The counters of app/core/rate_limit/backends/redis.py over a server that keeps counters as Redis
-- documents it.
use text.Mathlib.TextLemmas.{append_cancel_left, append-nil, append-eq-nil_iff}
use fastapi_hyperf.Common.{
  ℕ, ◌+◌, ◌-◌, ◌%◌, ◌≤◌, ◌<◌, String, not, [], ◌∷◌, ◌==◌, ltb, if◌then◌else◌, ok, err, ◌≡◌, refl,
  arith, concat, str, false, eq_iff, sym, ap, ◌∙◌, Error,
}
use fastapi_hyperf.RateLimit.Backend.{Backend, window_start}
use fastapi_hyperf.RateLimit.Redis.{
  Client, incr, expire, increment_and_check, count_request, first, reset,
}
use fastapi_hyperf.RateLimit.Window.{
  History, CountsRequests, IsOrdered, check_all, check_all-expected, expected, passed,
  passed-expected, window, Reflects, seen,
}

-- INCR counts a missing key as 0, and EXPIRE keeps the key for as many seconds; DEL removes a key.
-- No command changes another key.
pub record Laws {Server : Type 0} (client : Client Server) : Type 0 where
  pub count : ℕ → String → Server → ℕ
  pub incremented :
      (t period : ℕ) (key : String) (s : Server)
      → (client.execute t (incr key ∷ expire key period ∷ []) s).0
        ≡ ok ((count t key s + 1) ∷ (1 ∷ []))
  pub kept :
      (t u period : ℕ) (key : String) (s : Server)
      → t ≤ u
      → u < t + period
      → count u key (client.execute t (incr key ∷ expire key period ∷ []) s).1 ≡ count t key s + 1
  pub untouched :
      (t u period : ℕ) (key other : String) (s : Server)
      → (key == other) ≡ false
      → t ≤ u
      → count u other (client.execute t (incr key ∷ expire key period ∷ []) s).1 ≡ count u other s
  pub deleted :
      (t u : ℕ) (key other : String) (s : Server)
      → t ≤ u
      → count u other (client.delete t key s).1 ≡ (if key == other then 0 else count u other s)

-- a key is not the key of one of its windows
other_key : (key : String) (w : ℕ) → (key == concat key (concat ":" (str w))) ≡ false
other_key key w =
    let tail = concat ":" (str w) in
    let apart : (":" == "") ≡ false = refl in
    ground (
      arith,
      eq_iff key (concat key tail),
      append_cancel_left key tail "",
      append-nil key,
      append-eq-nil_iff {p = ":"} {q = str w},
      eq_iff ":" "",
      apart,
    )

module _ {Server : Type 0} (client : Client Server) where
  keeps_policy :
      (t : ℕ) (key : String) (limit period : ℕ) (b : Backend Server)
      → (count_request client t key limit period b).1.fail_open ≡ b.fail_open
  unfolding count_request window_start first
  keeps_policy t key limit period b = ground arith

  -- Where counting a request raises, whatever the client does, `increment_and_check` does not: it
  -- answers 0 and, unless the backend fails open, that the request is limited.
  pub increment_and_check-fails :
      (t : ℕ) (key : String) (limit period : ℕ) (b : Backend Server) (e : Error)
      → (count_request client t key limit period b).0 ≡ err e
      → (increment_and_check client t key limit period b).0 ≡ ok (0, not b.fail_open)
  unfolding increment_and_check count_request window_start first
  increment_and_check-fails t key limit period b e h =
      ground (arith, h, keeps_policy t key limit period b)

  server_after :
      (t : ℕ) (key : String) (limit period : ℕ) (b : Backend Server)
      → 0 < period
      → (increment_and_check client t key limit period b).1.server
        ≡ (client.execute t
            (incr (concat key (concat ":" (str (window period t))))
              ∷ (expire (concat key (concat ":" (str (window period t)))) period ∷ []))
            b.server).1
  unfolding increment_and_check count_request window_start first window
  server_after t key limit period b h = ground arith

  replied :
      (law : Laws client) (t : ℕ) (key : String) (limit period : ℕ) (b : Backend Server)
      → 0 < period
      → let n = law.count t (concat key (concat ":" (str (window period t)))) b.server + 1 in
        (increment_and_check client t key limit period b).0 ≡ ok (n, ltb limit n)
  unfolding increment_and_check count_request window_start first window
  replied law t key limit period b h =
      ground
        (arith, law.incremented t period (concat key (concat ":" (str (t - t % period)))) b.server)

  pub counts_requests :
      (law : Laws client) (limit period : ℕ)
      → 0 < period
      → CountsRequests
          (increment_and_check client)
          (λ k. k)
          (λ t k n b. law.count t k b.server ≡ n)
          limit
          period
  counts_requests law limit period h = record {
    replies = λ t n key s shown.
        replied law t key limit period s h ∙ ap (λ c. ok (c + 1, ltb limit (c + 1))) shown;
    counts = λ t u n key s shown le lt.
        rw (server_after t key limit period s h)
          (law.kept t u period _ s.server le lt ∙ ap (λ c. c + 1) shown);
    leaves = λ t u n m key other s shown apart le kept.
        rw (server_after t key limit period s h)
          (law.untouched t u period _ other s.server apart le ∙ kept);
  }

  -- For a period that is not 0, and over a server that keeps counters as Redis documents it and
  -- shows 0 under every key from the first request on, a sequence of requests in the order of time
  -- is answered as the windows count them: each with the number of the requests for its key in its
  -- window up to it, and as limited exactly if that number exceeds the limit.
  pub increment_and_check-expected :
      (law : Laws client) (t limit period : ℕ) (requests : History) (b : Backend Server)
      → 0 < period
      → IsOrdered t requests
      → ((u : ℕ) (key : String) → t ≤ u → law.count u key b.server ≡ 0)
      → check_all (increment_and_check client) limit period requests b
        ≡ expected (λ k. k) limit period [] requests
  unfolding Reflects seen
  increment_and_check-expected law t limit period requests b h ordered fresh =
      check_all-expected limit period (counts_requests law limit period h) h t [] requests b ordered
        (λ u k le. fresh u _ le)

  -- For a period that is not 0, and over a server that keeps counters as Redis documents it and
  -- shows 0 under every key from the first request on, at most as many requests for a key are let
  -- through in a window, of a sequence in the order of time, as the limit says.
  pub increment_and_check-passed :
      (law : Laws client) (t limit period : ℕ) (requests : History) (b : Backend Server)
      (key : String) (w : ℕ)
      → 0 < period
      → IsOrdered t requests
      → ((u : ℕ) (key : String) → t ≤ u → law.count u key b.server ≡ 0)
      → passed
          (λ k. k)
          limit
          period
          key
          w
          requests
          (check_all (increment_and_check client) limit period requests b)
        ≤ limit
  unfolding seen
  increment_and_check-passed law t limit period requests b key w h ordered fresh =
      rw (increment_and_check-expected law t limit period requests b h ordered fresh)
        (omega (arith, passed-expected (λ k. k) limit period key w [] requests))

  reset_after :
      (t : ℕ) (key : String) (b : Backend Server)
      → (reset client t key b).1.server ≡ (client.delete t key b.server).1
  unfolding reset
  reset_after t key b = ground arith

  -- For a period that is not 0, and over a server that keeps counters as Redis documents it,
  -- `reset` with the key that `increment_and_check` is given does not change what the next request
  -- for it gets.
  pub increment_and_check-reset :
      (law : Laws client) (t u : ℕ) (key : String) (limit period : ℕ) (b : Backend Server)
      → 0 < period
      → t ≤ u
      → (increment_and_check client u key limit period (reset client t key b).1).0
        ≡ (increment_and_check client u key limit period b).0
  increment_and_check-reset law t u key limit period b h le =
      let key' = concat key (concat ":" (str (window period u))) in
      let after = (reset client t key b).1 in
      let kept : law.count u key' after.server ≡ law.count u key' b.server =
        rw (reset_after t key b)
          (ground (arith, law.deleted t u key key' b.server le, other_key key (window period u))) in
      replied law u key limit period after h
      ∙ ap (λ n. ok (n + 1, ltb limit (n + 1))) kept
      ∙ sym (replied law u key limit period b h)
