-- ===== src/Common/Metrics.antt =====
-- services/api/src/common/observability/metrics.service.ts: the counters and the durations of the
-- process. A duration is in hundredths of a millisecond, and none if it is negative or not finite.
pub mod Samples
use rag_stack_monorepo.Prelude.{
  ℕ, zero, suc, ◌+◌, ◌-◌, ◌*◌, ◌/◌, min, String, refl, Bool, true, false, Option, none, some, List,
  [], ◌∷◌, ◌++◌, arith, ◌==◌, eq_iff, eq_refl, ltb, leb, if◌then◌else◌, string_eq, pair_eq, length,
  append,
}

pub record Metrics : Type 0 where
  pub counters : List (String × ℕ)
  pub histograms : List (String × List ℕ)

pub record HistogramStats : Type 0 where
  pub count : ℕ
  pub avg : ℕ
  pub p50 : ℕ
  pub p95 : ℕ
  pub max : ℕ

abbrev pub max_samples : ℕ
max_samples = 500

-- `splice(0, n)`: without the first n
abbrev pub drop : ℕ → List ℕ → List ℕ
drop zero xs = xs
drop (suc n) [] = []
drop (suc n) (x ∷ xs) = drop n xs

-- `map.get(key)`
abbrev pub lookup : {A : Type 0} → String → List (String × A) → Option A
lookup key [] = none
lookup key ((k, a) ∷ rest) = if k == key then some a else lookup key rest

-- `map.set(key, value)`
unfoldable pub assign : {A : Type 0} → String → A → List (String × A) → List (String × A)
assign key value [] = (key, value) ∷ []
assign key value ((k, a) ∷ rest) =
    let others = assign key value rest in if k == key then (k, value) ∷ rest else (k, a) ∷ others

abbrev pub or_default : {A : Type 0} → Option A → A → A
or_default none a = a
or_default (some b) a = b

-- The newest samples, no more than the most that are kept.
unfoldable pub push_sample : List ℕ → ℕ → List ℕ
push_sample current duration =
    let longer = current ++ (duration ∷ []) in
    if ltb max_samples (length longer) then drop (length longer - max_samples) longer else longer

unfoldable pub insert_number : ℕ → List ℕ → List ℕ
insert_number n [] = n ∷ []
insert_number n (m ∷ ms) = let rest = insert_number n ms in if leb n m then n ∷ m ∷ ms else m ∷ rest

unfoldable pub sort_numbers : List ℕ → List ℕ
unfolding insert_number
sort_numbers [] = []
sort_numbers (n ∷ ns) = insert_number n (sort_numbers ns)

unfoldable pub total : List ℕ → ℕ
total [] = 0
total (n ∷ ns) = n + total ns

-- `sorted[index]`; 0 where there is none
abbrev pub at : List ℕ → ℕ → ℕ
at [] i = 0
at (n ∷ ns) zero = n
at (n ∷ ns) (suc i) = at ns i

-- min(length - 1, max(0, ceil(length * part / whole) - 1))
abbrev pub index_of : ℕ → ℕ → ℕ → ℕ
index_of size part whole = min (size - 1) ((size * part + (whole - 1)) / whole - 1)

unfoldable pub percentile : List ℕ → ℕ → ℕ → ℕ
percentile sorted part whole = at sorted (index_of (length sorted) part whole)

unfoldable pub stats_of_sorted : List ℕ → HistogramStats
unfolding total percentile
stats_of_sorted sorted = record {
  count = length sorted;
  avg = (2 * total sorted + length sorted) / (2 * length sorted);
  p50 = percentile sorted 1 2;
  p95 = percentile sorted 19 20;
  max = at sorted (length sorted - 1);
}

unfoldable pub to_histogram_stats : List ℕ → HistogramStats
unfolding sort_numbers stats_of_sorted
to_histogram_stats [] = record { count = 0; avg = 0; p50 = 0; p95 = 0; max = 0 }
to_histogram_stats (n ∷ ns) = stats_of_sorted (sort_numbers (n ∷ ns))

abbrev stats_of : List (String × List ℕ) → List (String × HistogramStats)
stats_of [] = []
stats_of ((key, values) ∷ rest) = (key, to_histogram_stats values) ∷ stats_of rest

-- The snapshot without its time.
unfoldable pub snapshot : Metrics → List (String × ℕ) × List (String × HistogramStats)
unfolding to_histogram_stats
snapshot m = (m.counters, stats_of m.histograms)

-- The tags that have a value, as `key=value`.
abbrev shown : List (String × Option String) → List (String × String)
shown [] = []
shown ((key, none) ∷ tags) = shown tags
shown ((key, some value) ∷ tags) = (key, append key (append "=" value)) ∷ shown tags

abbrev joined : List (String × String) → String
joined [] = ""
joined ((key, s) ∷ []) = s
joined ((key, s) ∷ t ∷ rest) = append s (append "," (joined (t ∷ rest)))

-- `locale_after a b` is `a.localeCompare(b) > 0`.
module _ (locale_after : String → String → Bool) where
  unfoldable pub insert_tag : String × String → List (String × String) → List (String × String)
  insert_tag t [] = t ∷ []
  insert_tag t (u ∷ us) =
      let rest = insert_tag t us in if locale_after t.0 u.0 then u ∷ rest else t ∷ u ∷ us

  unfoldable pub sort_tags : List (String × String) → List (String × String)
  unfolding insert_tag
  sort_tags [] = []
  sort_tags (t ∷ ts) = insert_tag t (sort_tags ts)

  unfoldable pub build_key : String → List (String × Option String) → String
  unfolding sort_tags
  build_key name [] = name
  build_key name (t ∷ ts) =
      append name (append "{" (append (joined (sort_tags (shown (t ∷ ts)))) "}"))

  unfoldable pub increment : String → ℕ → List (String × Option String) → Metrics → Metrics
  unfolding build_key assign
  increment name value tags m =
      let key = build_key name tags in
      record m { counters = assign key (or_default (lookup key m.counters) 0 + value) m.counters }

  unfoldable pub record_duration :
      String → Option ℕ → List (String × Option String) → Metrics → Metrics
  unfolding build_key assign push_sample
  record_duration name none tags m = m
  record_duration name (some duration) tags m =
      let key = build_key name tags in
      record m {
        histograms =
            assign key (push_sample (or_default (lookup key m.histograms) []) duration)
              m.histograms;
      }
