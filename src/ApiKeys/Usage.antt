-- ===== src/ApiKeys/Usage.antt =====
-- The reports of app/models/api_key.py on the usage of a key. A record has the fields that they read;
-- `day` is the date of `created_at`, if there is one that can be read.
use Prim.Native.Nat.{Ordering}
use Prim.Native.String.{compare}
use fastapi_hyperf.Common.{
  ℕ, suc, ◌+◌, ◌-◌, ◌≤◌, String, Bool, true, false, ◌&&◌, Option, none, some, List, [], ◌∷◌, ◌≡◌,
  refl, arith, ◌==◌, eq_iff, ◌∙◌, if◌then◌else◌, leb, eqb, length, take, str, int-str, Bool-cases,
  inl, inr, subst, ap,
}
use fastapi_hyperf.Common.Dict
use fastapi_hyperf.Common.Dict.{Dict, get-put}

pub record Usage : Type 0 where
  pub endpoint : String
  pub status_code : ℕ
  pub tokens_used : Option ℕ
  pub cost_microcents : Option ℕ
  pub response_time_ms : Option ℕ
  pub day : Option String

pub record Metrics : Type 0 where
  pub total_requests : ℕ
  pub successful_requests : ℕ
  pub failed_requests : ℕ
  pub total_tokens : ℕ
  pub total_cost : ℕ

abbrev pub or_zero : Option ℕ → ℕ
or_zero none = 0
or_zero (some n) = n

abbrev is_success : Usage → Bool
is_success u = leb 200 u.status_code && leb u.status_code 299

-- how many records have a property, and the sum of a field
abbrev pub count : (Usage → Bool) → List Usage → ℕ
count p [] = 0
count p (u ∷ us) = let n = count p us in if p u then suc n else n

abbrev pub total : (Usage → Option ℕ) → List Usage → ℕ
total field [] = 0
total field (u ∷ us) = or_zero (field u) + total field us

unfoldable pub calculate_basic_metrics : List Usage → Metrics
calculate_basic_metrics records = record {
  total_requests = length records;
  successful_requests = count is_success records;
  failed_requests = length records - count is_success records;
  total_tokens = total (λ u. u.tokens_used) records;
  total_cost = total (λ u. u.cost_microcents) records;
}

abbrev pub times : List Usage → List ℕ
times [] = []
times (u ∷ us) = let rest = times us in elim u.response_time_ms [ none ↦ rest | some n ↦ n ∷ rest ]

abbrev pub sum : List ℕ → ℕ
sum [] = 0
sum (n ∷ ns) = n + sum ns

-- the average as a sum and the number that divides it
unfoldable pub calculate_response_time_metrics : List Usage → Option (ℕ × ℕ)
calculate_response_time_metrics records =
    let found = times records in
    if eqb (length found) 0 then none else some (sum found, length found)

-- counts[key] = counts.get(key, 0) + 1
abbrev tally : String → Dict ℕ → Dict ℕ
tally key counts = Dict.put key (or_zero (Dict.get key counts) + 1) counts

unfoldable pub endpoint_counts : List Usage → Dict ℕ → Dict ℕ
endpoint_counts [] counts = counts
endpoint_counts (u ∷ us) counts = endpoint_counts us (tally u.endpoint counts)

-- sorted by count, largest first; equal counts keep their order
unfoldable pub insert_count : String × ℕ → Dict ℕ → Dict ℕ
insert_count (key, n) [] = (key, n) ∷ []
insert_count (key, n) ((other, k) ∷ rest) =
    let later = insert_count (key, n) rest in
    if leb k n then (key, n) ∷ ((other, k) ∷ rest) else (other, k) ∷ later

unfoldable pub sort_counts : Dict ℕ → Dict ℕ
sort_counts [] = []
sort_counts (entry ∷ rest) = insert_count entry (sort_counts rest)

unfoldable pub calculate_endpoint_usage : List Usage → ℕ → Dict ℕ
calculate_endpoint_usage records limit = take limit (sort_counts (endpoint_counts records []))

unfoldable pub error_counts : List Usage → Dict ℕ → Dict ℕ
error_counts [] counts = counts
error_counts (u ∷ us) counts =
    error_counts us (if leb 400 u.status_code then tally (str u.status_code) counts else counts)

unfoldable pub calculate_error_breakdown : List Usage → Dict ℕ
calculate_error_breakdown records = error_counts records []

pub record Day : Type 0 where
  pub date : String
  pub requests : ℕ
  pub successful : ℕ
  pub failed : ℕ
  pub tokens : ℕ
  pub cost : ℕ

unfoldable pub day_or_new : String → Option Day → Day
day_or_new date none = record {
  date = date;
  requests = 0;
  successful = 0;
  failed = 0;
  tokens = 0;
  cost = 0;
}
day_or_new date (some d) = d

unfoldable pub add_usage : Usage → Day → Day
add_usage u d = record {
  date = d.date;
  requests = d.requests + 1;
  successful = if is_success u then d.successful + 1 else d.successful;
  failed = if is_success u then d.failed else d.failed + 1;
  tokens = d.tokens + or_zero u.tokens_used;
  cost = d.cost + or_zero u.cost_microcents;
}

unfoldable pub add_to_day : Usage → Option String → Dict Day → Dict Day
add_to_day u none days = days
add_to_day u (some date) days =
    Dict.put date (add_usage u (day_or_new date (Dict.get date days))) days

unfoldable pub daily_usage : List Usage → Dict Day → Dict Day
daily_usage [] days = days
daily_usage (u ∷ us) days = daily_usage us (add_to_day u u.day days)

-- sorted by date
unfoldable pub insert_day : Day → List Day → List Day
insert_day d [] = d ∷ []
insert_day d (e ∷ es) =
    let rest = insert_day d es in
    elim (compare d.date e.date) [ Ordering.gt ↦ e ∷ rest | _ ↦ d ∷ (e ∷ es) ]

unfoldable pub sort_days : Dict Day → List Day
sort_days [] = []
sort_days ((date, d) ∷ rest) = insert_day d (sort_days rest)

unfoldable pub calculate_daily_usage : List Usage → List Day
calculate_daily_usage records = sort_days (daily_usage records [])

count-le : (p : Usage → Bool) (us : List Usage) → count p us ≤ length us
count-le p [] = omega arith
count-le p (u ∷ us) = ground (arith, count-le p us)

-- Every request is counted as successful or as failed, and not as both.
calculate_basic_metrics-total :
    (records : List Usage)
    → let m = calculate_basic_metrics records in
      (m.successful_requests + m.failed_requests ≡ m.total_requests)
      × (m.failed_requests ≡ count (λ u. if is_success u then false else true) records)
unfolding calculate_basic_metrics
calculate_basic_metrics-total records = (omega (arith, count-le is_success records), failed records)
  where
    failed :
        (us : List Usage)
        → length us - count is_success us ≡ count (λ u. if is_success u then false else true) us
    failed [] = omega arith
    failed (u ∷ us) = ground (arith, failed us, count-le is_success us)

error_counts-get :
    (code : ℕ) (us : List Usage) (counts : Dict ℕ)
    → 400 ≤ code
    → or_zero (Dict.get (str code) (error_counts us counts))
      ≡ or_zero (Dict.get (str code) counts) + count (λ u. eqb u.status_code code) us
unfolding error_counts
error_counts-get code [] counts h = omega arith
error_counts-get code (u ∷ us) counts h =
    let status = u.status_code in
    let n = or_zero (Dict.get (str status) counts) + 1 in
    ground (
      arith,
      error_counts-get code us counts h,
      error_counts-get code us (tally (str status) counts) h,
      get-put (str status) (str code) n counts,
      eq_iff (str status) (str code),
      int-str code,
      int-str status,
    )

-- The breakdown has for each error code the number of the records with that code.
calculate_error_breakdown-count :
    (code : ℕ) (records : List Usage)
    → 400 ≤ code
    → or_zero (Dict.get (str code) (calculate_error_breakdown records))
      ≡ count (λ u. eqb u.status_code code) records
unfolding calculate_error_breakdown Dict.get
calculate_error_breakdown-count code records h = omega (arith, error_counts-get code records [] h)

-- the records of one day
abbrev is_on : String → Option String → Bool
is_on date none = false
is_on date (some other) = other == date

abbrev pub on_day : String → List Usage → List Usage
on_day date [] = []
on_day date (u ∷ us) = let rest = on_day date us in if is_on date u.day then u ∷ rest else rest

abbrev add_all : List Usage → Day → Day
add_all [] d = d
add_all (u ∷ us) d = add_all us (add_usage u d)

abbrev summed : String → List Usage → Option Day → Option Day
summed date [] found = found
summed date (u ∷ us) found = some (add_all us (add_usage u (day_or_new date found)))

add_to_day-get :
    (u : Usage) (day : Option String) (date : String) (days : Dict Day)
    → Dict.get date (add_to_day u day days) ≡ (
        if is_on date day
        then some (add_usage u (day_or_new date (Dict.get date days)))
        else Dict.get date days)
unfolding add_to_day
add_to_day-get u none date days = refl
add_to_day-get u (some other) date days = ground (
  arith,
  get-put other date (add_usage u (day_or_new other (Dict.get other days))) days,
  eq_iff other date,
)

summed-some :
    (date : String) (us : List Usage) (d : Day) → summed date us (some d) ≡ some (add_all us d)
unfolding day_or_new
summed-some date [] d = refl
summed-some date (u ∷ us) d = refl

daily_usage-get :
    (date : String) (us : List Usage) (days : Dict Day)
    → Dict.get date (daily_usage us days) ≡ summed date (on_day date us) (Dict.get date days)
unfolding daily_usage add_to_day day_or_new
daily_usage-get date [] days = refl
daily_usage-get date (u ∷ us) days =
    rw (daily_usage-get date us (add_to_day u u.day days), add_to_day-get u u.day date days)
      (elim (Bool-cases (is_on date u.day)) [
        | inl on ↦ rw on (summed-some date (on_day date us) _)
        | inr off ↦ rw off refl
      ])

-- what a day has after more records
abbrev pub more : List Usage → Day → Day
more us d = record {
  date = d.date;
  requests = d.requests + length us;
  successful = d.successful + count is_success us;
  failed = d.failed + (length us - count is_success us);
  tokens = d.tokens + total (λ u. u.tokens_used) us;
  cost = d.cost + total (λ u. u.cost_microcents) us;
}

add_all-more : (us : List Usage) (d : Day) → add_all us d ≡ more us d
unfolding add_usage
add_all-more [] d = ground arith
add_all-more (u ∷ us) d = ground (arith, add_all-more us (add_usage u d), count-le is_success us)

-- a report of a day, if anything happened on it
abbrev pub report : String → List Usage → Option Day
report date [] = none
report date (u ∷ us) =
    let m = calculate_basic_metrics (u ∷ us) in
    some (record {
      date = date;
      requests = m.total_requests;
      successful = m.successful_requests;
      failed = m.failed_requests;
      tokens = m.total_tokens;
      cost = m.total_cost;
    })

summed-report : (date : String) (us : List Usage) → summed date us none ≡ report date us
unfolding add_usage day_or_new calculate_basic_metrics
summed-report date [] = refl
summed-report date (u ∷ us) =
    ground (arith, add_all-more us (add_usage u (day_or_new date none)), count-le is_success us)

daily_usage-report :
    (date : String) (records : List Usage)
    → Dict.get date (daily_usage records []) ≡ report date (on_day date records)
unfolding Dict.get
daily_usage-report date records =
    daily_usage-get date records [] ∙ summed-report date (on_day date records)

-- Each day stands once, under its own date.
abbrev Dated : Dict Day → Type 0
Dated [] = Unit
Dated ((key, d) ∷ days) = (d.date ≡ key) × (Dict.get key days ≡ none) × Dated days

put-Dated : (d : Day) (days : Dict Day) → Dated days → Dated (Dict.put d.date d days)
unfolding Dict.put Dict.get
put-Dated d [] h = (refl, refl, tt)
put-Dated d ((key, e) ∷ days) (same, once, rest) = elim (Bool-cases (key == d.date)) [
  | inl hit ↦ rw hit (refl, ground (arith, eq_iff key d.date, hit, once), rest)
  | inr miss ↦ rw miss (
    same,
    ground (arith, get-put d.date key d days, eq_iff key d.date, eq_iff d.date key, miss, once),
    put-Dated d days rest,
  )
]

get-Dated :
    (date : String) (days : Dict Day)
    → Dated days
    → (day_or_new date (Dict.get date days)).date ≡ date
unfolding Dict.get day_or_new
get-Dated date [] h = refl
get-Dated date ((key, d) ∷ days) (same, once, rest) =
    ground (arith, get-Dated date days rest, eq_iff key date)

add_to_day-Dated :
    (u : Usage) (day : Option String) (days : Dict Day) → Dated days → Dated (add_to_day u day days)
unfolding add_to_day add_usage
add_to_day-Dated u none days h = h
add_to_day-Dated u (some date) days h =
    let d = add_usage u (day_or_new date (Dict.get date days)) in
    subst (λ k. Dated (Dict.put k d days)) (get-Dated date days h) (put-Dated d days h)

daily_usage-Dated : (us : List Usage) (days : Dict Day) → Dated days → Dated (daily_usage us days)
unfolding daily_usage
daily_usage-Dated [] days h = h
daily_usage-Dated (u ∷ us) days h =
    daily_usage-Dated us (add_to_day u u.day days) (add_to_day-Dated u u.day days h)

-- the entries of a report for a date
abbrev pub entries : String → List Day → List Day
entries date [] = []
entries date (d ∷ ds) = let rest = entries date ds in if d.date == date then d ∷ rest else rest

abbrev pub entry : Option Day → List Day
entry none = []
entry (some d) = d ∷ []

entries-insert_day :
    (date : String) (d : Day) (ds : List Day)
    → (entries d.date ds ≡ [])
    → entries date (insert_day d ds) ≡ (if d.date == date then d ∷ [] else entries date ds)
unfolding insert_day
entries-insert_day date d [] h = refl
entries-insert_day date d (e ∷ es) h =
    ground (arith, h, eq_iff d.date date, eq_iff e.date d.date, entries-insert_day date d es)

entries-sort_days :
    (date : String) (days : Dict Day)
    → Dated days
    → entries date (sort_days days) ≡ entry (Dict.get date days)
unfolding sort_days Dict.get
entries-sort_days date [] h = refl
entries-sort_days date ((key, d) ∷ days) (same, once, rest) =
    let at_key = entries-sort_days key days rest in
    ground (
      arith,
      same,
      once,
      at_key,
      entries-sort_days date days rest,
      entries-insert_day date d (sort_days days),
      eq_iff key date,
    )

-- The daily report has exactly one entry for a date that a record has, with the basic metrics of the records of that
-- date as its numbers, and no entry for any other date.
pub calculate_daily_usage-calculate_basic_metrics :
    (date : String) (records : List Usage)
    → entries date (calculate_daily_usage records) ≡ entry (report date (on_day date records))
unfolding calculate_daily_usage
calculate_daily_usage-calculate_basic_metrics date records =
    entries-sort_days date (daily_usage records []) (daily_usage-Dated records [] tt)
    ∙ ap entry (daily_usage-report date records)
